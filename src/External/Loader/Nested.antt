-- ===== src/External/Loader/Nested.antt =====
-- The loader of internal/engine/external.go inside a command that the loader itself runs: it sets
-- FACTER_EXTERNAL_FACTS_RUNNING for its commands.
use facts.Base.{
  Bool, true, false, not, ◌&&◌, ◌≡◌, refl, ap, ◌∙◌, List, [], ◌∷◌, Option, none, some, arith,
  if◌then◌else◌,
}
use mathlib.Core.Path.{fun_ext}
use facts.Base.Text.{Text, mem_text}
use facts.External.Files.{
  FileMode, DirEntry, ReadDir, not_exist, not_listed, listed, Host, CommandRun, ext, executable,
  windows_executable_external_fact_ext, ignored_backup_external_fact_file,
  ignored_external_fact_file, load_external_txt_facts, load_external_json_facts,
  load_external_yaml_facts, read_external_fact_file, yaml_error_is_null_byte,
}
use facts.External.Commands.{
  FileKind, load_kind, txt_file, json_file, yaml_file, rb_file, ps1_file, other_file, file_kind,
  load_external_fact_file, load_other_file,
}
use facts.External.Loader.{
  Loader, Loads, add_loading, load_info, load_entry, and_then, sort_entries, load_entries,
  load_read, load_dir, load_dirs, no_loads, load_env, load,
}

-- A host whose commands are others.
abbrev pub with_commands : (Text → List Text → CommandRun) → Host → Host
with_commands run h = record {
  read_dir = h.read_dir;
  open_file = h.open_file;
  file_readable = h.file_readable;
  environ = h.environ;
  windows = h.windows;
  run_command = run;
  running = h.running;
  join = h.join;
  quote = h.quote;
  decode_json = h.decode_json;
  decode_yaml = h.decode_yaml;
  decode_yaml_map = h.decode_yaml_map;
  unicode = h.unicode;
  structured = h.structured;
}

abbrev pub with_host : Host → Loader → Loader
with_host h l = record {
  mode = l.mode;
  dirs = l.dirs;
  blocked = l.blocked;
  host = h;
  include_env = l.include_env;
}

not_taken {ℓ} :
    {A : Type ℓ} (b : Bool) (x x2 z z2 : A)
    → b ≡ false
    → z ≡ z2
    → (if b then x else z) ≡ (if b then x2 else z2)
not_taken true x x2 z z2 h e = absurd (ground (arith, h))
not_taken false x x2 z z2 h e = e

guarded : (a b running : Bool) → running ≡ true → (a && b && not running) ≡ false
guarded a b running h = ground (arith, h)

guarded_windows : (w a b running : Bool) → running ≡ true → (w && a && b && not running) ≡ false
guarded_windows w a b running h = ground (arith, h)

if_else {ℓ} :
    {A : Type ℓ} (b : Bool) (x z z2 : A) → z ≡ z2 → (if b then x else z) ≡ (if b then x else z2)
if_else true x z z2 e = refl
if_else false x z z2 e = e

module _ (run : Text → List Text → CommandRun) (h : Host) (inside : h.running ≡ true)
    (unix : h.windows ≡ false) where
  other_file-nested :
      (path : Text) (mode : FileMode) (e : Text)
      → load_other_file (with_commands run h) path mode e ≡ load_other_file h path mode e
  unfolding load_other_file
  other_file-nested path mode e =
      let e_windows = windows_executable_external_fact_ext e in
      if_else (not h.windows && e_windows) _ _ _ (
        not_taken (h.windows && e_windows && mode.regular && not h.running) _ _ _ _
          (guarded_windows h.windows e_windows mode.regular h.running inside)
          (not_taken (mode.regular && executable mode && not h.running) _ _ _ _
            (guarded mode.regular (executable mode) h.running inside) refl))

  kind-nested :
      (path : Text) (mode : FileMode) (e : Text) (k : FileKind)
      → load_kind (with_commands run h) path mode e k ≡ load_kind h path mode e k
  unfolding load_kind load_external_txt_facts load_external_json_facts load_external_yaml_facts
      read_external_fact_file yaml_error_is_null_byte
  kind-nested path mode e txt_file = refl
  kind-nested path mode e json_file = refl
  kind-nested path mode e yaml_file = refl
  kind-nested path mode e rb_file = refl
  kind-nested path mode e ps1_file = not_taken h.windows _ _ _ _ unix (
      not_taken (mode.regular && executable mode && not h.running) _ _ _ _
        (guarded mode.regular (executable mode) h.running inside) refl)
  kind-nested path mode e other_file = other_file-nested path mode e

  file-nested :
      (path : Text) (mode : FileMode)
      → load_external_fact_file (with_commands run h) path mode
        ≡ load_external_fact_file h path mode
  unfolding load_external_fact_file
  file-nested path mode =
      let e = h.unicode.to_lower (ext h.windows path) in kind-nested path mode e (file_kind e)

module _ (run : Text → List Text → CommandRun) (l : Loader) (inside : l.host.running ≡ true)
    (unix : l.host.windows ≡ false) where
  abbrev other_commands : Loader
  other_commands = with_host (with_commands run l.host) l

  info-nested :
      (path : Text) (m : Option FileMode) (s : Loads)
      → load_info other_commands path m s ≡ load_info l path m s
  unfolding load_info
  info-nested path none s = refl
  info-nested path (some mode) s =
      ap (λ r. add_loading l.mode r s) (file-nested run l.host inside unix path mode)

  entry-nested :
      (dir : Text) (entry : DirEntry) (s : Loads)
      → load_entry other_commands dir entry s ≡ load_entry l dir entry s
  unfolding load_entry ignored_external_fact_file ignored_backup_external_fact_file
  entry-nested dir entry s = if_else (mem_text entry.name l.blocked) _ _ _ (
      if_else entry.is_dir _ _ _ (
        if_else (ignored_backup_external_fact_file l.host entry.name) _ _ _ (
          if_else (ignored_external_fact_file l.host entry.name) _ _ _
            (info-nested (l.host.join dir entry.name) entry.info s))))

  entries-nested :
      (dir : Text) (entries : List DirEntry) (s : Loads)
      → load_entries other_commands dir entries s ≡ load_entries l dir entries s
  unfolding load_entries
  entries-nested dir [] s = refl
  entries-nested dir (entry ∷ entries) s =
      ap (λ r. and_then r (load_entries other_commands dir entries)) (entry-nested dir entry s)
      ∙ ap (and_then (load_entry l dir entry s)) (fun_ext (entries-nested dir entries))

  read-nested :
      (dir : Text) (r : ReadDir) (s : Loads)
      → load_read other_commands dir r s ≡ load_read l dir r s
  unfolding load_read
  read-nested dir not_exist s = refl
  read-nested dir not_listed s = refl
  read-nested dir (listed entries) s = entries-nested dir (sort_entries entries) s

  dirs-nested :
      (dirs : List Text) (s : Loads) → load_dirs other_commands dirs s ≡ load_dirs l dirs s
  unfolding load_dirs load_dir
  dirs-nested [] s = refl
  dirs-nested (dir ∷ dirs) s =
      ap (λ r. and_then r (load_dirs other_commands dirs)) (read-nested dir (l.host.read_dir dir) s)
      ∙ ap (and_then (load_dir l dir s)) (fun_ext (dirs-nested dirs))

  -- While external facts are being resolved, and not on Windows, loading runs no command: the result is
  -- the same whatever commands would do.
  pub load-nested : load (with_host (with_commands run l.host) l) ≡ load l
  unfolding load load_env
  load-nested = ap (load_env l) (dirs-nested l.dirs no_loads)
