-- ===== src/External/Loader/Modes.antt =====
-- The two modes of the loader in internal/engine/external.go against each other.
use facts.Base.{
  true, ◌≡◌, ◌≢◌, refl, sym, ap, ◌∙◌, List, [], ◌∷◌, ◌++◌, Option, none, some, first, Bool-cases,
  arith, ◌⊎◌, inl, inr,
}
use facts.Base.Text.{Text, mem_text}
use facts.External.Env.{load_external_env_facts, EnvFacts}
use facts.External.Files.{
  FileMode, DirEntry, ReadDir, not_exist, not_listed, listed, LoadError, dir_not_read, no_info,
  null_byte, Message, FileOutcome, loaded, failed, Loading, ignored_backup_external_fact_file,
  ignored_external_fact_file, blocked_file, backup_file,
}
use facts.External.Commands.{load_external_fact_file}
use facts.Discovery.Plan.{loader_cli, loader_library}
use facts.External.Loader.{
  Loader, Loads, Step, go, stop, skipped_error, fail, fail_file, add_message, add_messages,
  add_facts, load_read, load_info, add_env, add_loading, load_entry, and_then, sort_entries,
  load_entries, load_dir, load_dirs, no_loads, load_env, load,
}
use facts.External.Loader.Twin.{
  fatal, in_mode, Answer, answered, refused, cli_answer, library_answer, cli_loads, Agrees, Twin,
  Twin-go, Twin-then, Twin-if,
}

Twin-message : (m : Message) → Twin (λ s. go (add_message m s)) (λ s. go (add_message m s))
unfolding add_message
Twin-message m = record { agree = λ d h. (refl, h); keeps = λ e d h. h }

first-append_none :
    (xs ys : List LoadError) → first fatal xs ≡ none → first fatal (xs ++ ys) ≡ first fatal ys
first-append_none [] ys h = refl
first-append_none (x ∷ xs) ys h = ground (arith, first-append_none xs ys)

first-append_some :
    (xs ys : List LoadError) (e : LoadError)
    → first fatal xs ≡ some e
    → first fatal (xs ++ ys) ≡ some e
first-append_some [] ys e h = absurd (ground arith)
first-append_some (x ∷ xs) ys e h = ground (arith, first-append_some xs ys e)

Twin-fail : (e : LoadError) → fatal e ≡ true → Twin (fail loader_cli e) (fail loader_library e)
unfolding fail
Twin-fail e h = record {
  agree = λ d k. first-append_none d.failures (e ∷ []) k ∙ rw h refl;
  keeps = λ e2 d k. first-append_some d.failures (e ∷ []) e2 k;
}

Twin-fail_file : (e : LoadError) → Twin (fail_file loader_cli e) (fail_file loader_library e)
unfolding fail_file fail
Twin-fail_file e = elim (Bool-cases (skipped_error e)) [
  | inl h ↦ record {
    agree = λ d k. rw (h, fail_file) (refl, first-append_none d.failures (e ∷ []) k ∙ rw h refl);
    keeps = λ e2 d k. first-append_some d.failures (e ∷ []) e2 k;
  }
  | inr h ↦ record {
    agree = λ d k. rw (h, fail_file) (first-append_none d.failures (e ∷ []) k ∙ rw h refl);
    keeps = λ e2 d k. first-append_some d.failures (e ∷ []) e2 k;
  }
]

Twin-messages : (m : List Message) → Twin (λ s. go (add_messages m s)) (λ s. go (add_messages m s))
unfolding add_messages
Twin-messages m = record { agree = λ d h. (refl, h); keeps = λ e d h. h }

Twin-outcome :
    (m : List Message) (o : FileOutcome)
    → Twin
        (add_loading loader_cli (record { messages = m; outcome = o }))
        (add_loading loader_library (record { messages = m; outcome = o }))
unfolding add_loading and_then
Twin-outcome m (loaded facts) = record { agree = λ d h. (refl, h); keeps = λ e d h. h }
Twin-outcome m (failed e) = Twin-then _ _ _ _ (Twin-messages m) (Twin-fail_file e)

Twin-loading : (l : Loading) → Twin (add_loading loader_cli l) (add_loading loader_library l)
Twin-loading l = Twin-outcome l.messages l.outcome

Twin-info :
    (l : Loader) (path : Text) (m : Option FileMode)
    → Twin (load_info (in_mode loader_cli l) path m) (load_info (in_mode loader_library l) path m)
unfolding load_info
Twin-info l path none = Twin-fail no_info refl
Twin-info l path (some m) = Twin-loading (load_external_fact_file l.host path m)

Twin-entry :
    (l : Loader) (dir : Text) (entry : DirEntry)
    → Twin
        (load_entry (in_mode loader_cli l) dir entry)
        (load_entry (in_mode loader_library l) dir entry)
unfolding load_entry
Twin-entry l dir entry =
    Twin-if (mem_text entry.name l.blocked) _ _ _ _ (Twin-message (blocked_file entry.name)) (
      Twin-if entry.is_dir _ _ _ _ Twin-go (
        Twin-if (ignored_backup_external_fact_file l.host entry.name) _ _ _ _
          (Twin-message (backup_file entry.name))
          (Twin-if (ignored_external_fact_file l.host entry.name) _ _ _ _ Twin-go
            (Twin-info l (l.host.join dir entry.name) entry.info))))

Twin-entries :
    (l : Loader) (dir : Text) (entries : List DirEntry)
    → Twin
        (load_entries (in_mode loader_cli l) dir entries)
        (load_entries (in_mode loader_library l) dir entries)
unfolding load_entries
Twin-entries l dir [] = Twin-go
Twin-entries l dir (entry ∷ entries) =
    Twin-then _ _ _ _ (Twin-entry l dir entry) (Twin-entries l dir entries)

Twin-read :
    (l : Loader) (dir : Text) (r : ReadDir)
    → Twin (load_read (in_mode loader_cli l) dir r) (load_read (in_mode loader_library l) dir r)
unfolding load_read
Twin-read l dir not_exist = Twin-go
Twin-read l dir not_listed = Twin-fail dir_not_read refl
Twin-read l dir (listed entries) = Twin-entries l dir (sort_entries entries)

Twin-dirs :
    (l : Loader) (dirs : List Text)
    → Twin (load_dirs (in_mode loader_cli l) dirs) (load_dirs (in_mode loader_library l) dirs)
unfolding load_dirs load_dir
Twin-dirs l [] = Twin-go
Twin-dirs l (dir ∷ dirs) =
    Twin-then _ _ _ _ (Twin-read l dir (l.host.read_dir dir)) (Twin-dirs l dirs)

library_answer-none :
    (d : Loads)
    → first fatal d.failures ≡ none
    → library_answer (go d) ≡ answered d.facts d.messages
library_answer-none d h = rw (h, library_answer) refl

library_answer-some :
    (d : Loads) (e : LoadError)
    → first fatal d.failures ≡ some e
    → library_answer (go d) ≡ refused e
library_answer-some d e h = rw (h, library_answer) refl

Agrees-answer : (x y : Step) → Agrees x y → cli_answer x ≡ library_answer y
Agrees-answer (go c) (go d) (same, h) =
    ap (λ s. cli_answer (go s)) same ∙ sym (library_answer-none d h)
Agrees-answer (go c) (stop e m) h = absurd h
Agrees-answer (stop e m) (go d) h = sym (library_answer-some d e h)
Agrees-answer (stop e m) (stop _ _) h = absurd h

-- An answer that a step may have, where there is a step.
abbrev pub answer_of : (Step → Answer) → Option Step → Option Answer
answer_of f none = none
answer_of f (some s) = some (f s)

-- The library's slices behind an error of the environment.
abbrev failing : Loads → Loads
failing d = record {
  facts = d.facts;
  failures = d.failures ++ (null_byte ∷ []);
  messages = d.messages;
}

add_env-agree :
    (e : EnvFacts) (d : Loads)
    → first fatal d.failures ≡ none
    → (add_env loader_library e d ≡ none)
      ⊎ (answer_of cli_answer (add_env loader_cli e (cli_loads d))
          ≡ answer_of library_answer (add_env loader_library e d))
unfolding add_env fail add_facts skipped_error
add_env-agree EnvFacts.stopped d h = inl refl
add_env-agree EnvFacts.failed d h = inr (
    ap (λ a. some a)
      (sym (
        library_answer-some (failing d) null_byte
          (first-append_none d.failures (null_byte ∷ []) h))))
add_env-agree (EnvFacts.loaded facts) d h =
    inr (ap (λ a. some a) (sym (library_answer-none (add_facts facts d) h)))

add_env-keeps :
    (e : EnvFacts) (d : Loads) (x : LoadError)
    → first fatal d.failures ≡ some x
    → (add_env loader_library e d ≡ none)
      ⊎ (answer_of library_answer (add_env loader_library e d) ≡ some (refused x))
unfolding add_env fail add_facts skipped_error
add_env-keeps EnvFacts.stopped d x h = inl refl
add_env-keeps EnvFacts.failed d x h = inr (
    ap (λ a. some a)
      (library_answer-some (failing d) x (first-append_some d.failures (null_byte ∷ []) x h)))
add_env-keeps (EnvFacts.loaded facts) d x h =
    inr (ap (λ a. some a) (library_answer-some (add_facts facts d) x h))

load_env-agree :
    (l : Loader) (x y : Step)
    → Agrees x y
    → (load_env (in_mode loader_library l) y ≡ none)
      ⊎ (answer_of cli_answer (load_env (in_mode loader_cli l) x)
          ≡ answer_of library_answer (load_env (in_mode loader_library l) y))
unfolding load_env
load_env-agree l (go c) (go d) (same, h) = elim (Bool-cases l.include_env) [
  | inl b ↦ rw (b, same) (add_env-agree (load_external_env_facts l.host.unicode l.host.environ) d h)
  | inr b ↦
      rw (b, same) (inr (ap (λ a. some a) (Agrees-answer (go (cli_loads d)) (go d) (refl, h))))
]
load_env-agree l (go c) (stop e m) h = absurd h
load_env-agree l (stop e m) (stop _ _) h = absurd h
load_env-agree l (stop e m) (go d) h = elim (Bool-cases l.include_env) [
  | inl b ↦
      rw b (elim (add_env-keeps (load_external_env_facts l.host.unicode l.host.environ) d e h) [
        | inl k ↦ inl k
        | inr k ↦ inr (sym k)
      ])
  | inr b ↦ rw b (inr (ap (λ a. some a) (Agrees-answer (stop e m) (go d) h)))
]

-- Unless the environment stops the library's loader with a panic, the command line's answer can be
-- read off the library's result: if a failure there is not a command's, the command line returns the
-- first such; otherwise it returns the library's facts, with the same messages.
pub load-modes :
    (l : Loader)
    → load (in_mode loader_library l) ≢ none
    → answer_of cli_answer (load (in_mode loader_cli l))
      ≡ answer_of library_answer (load (in_mode loader_library l))
unfolding load
load-modes l h =
    elim (load_env-agree l (load_dirs (in_mode loader_cli l) l.dirs no_loads)
      (load_dirs (in_mode loader_library l) l.dirs no_loads)
      ((Twin-dirs l l.dirs).agree no_loads refl)) [ inl k ↦ absurd (h k) | inr k ↦ k ]
