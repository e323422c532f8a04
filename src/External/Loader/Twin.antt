-- ===== src/External/Loader/Twin.antt =====
-- Rounds of the loader in internal/engine/external.go in its two modes, side by side.
use facts.Base.{Bool, true, false, not, ◌≡◌, refl, List, [], none, some, first, if◌then◌else◌}
use facts.Fact.{ResolvedFact}
use facts.External.Files.{LoadError, Message}
use facts.Discovery.Plan.{LoaderMode}
use facts.External.Loader.{Loader, Loads, Step, go, stop, skipped_error, and_then}

-- A failure that is not a command's.
abbrev pub fatal : LoadError → Bool
fatal e = not (skipped_error e)

abbrev pub in_mode : LoaderMode → Loader → Loader
in_mode mode l = record {
  mode = mode;
  dirs = l.dirs;
  blocked = l.blocked;
  host = l.host;
  include_env = l.include_env;
}

-- What a caller sees: facts and messages, or an error.
pub data Answer : Type 0 where
  answered : List ResolvedFact → List Message → Answer
  refused : LoadError → Answer

-- The command line's answer.
abbrev pub cli_answer : Step → Answer
cli_answer (go s) = answered s.facts s.messages
cli_answer (stop e m) = refused e

-- The answer that the first fatal failure of the library's result gives.
abbrev pub library_answer : Step → Answer
library_answer (stop e m) = refused e
library_answer (go s) = elim (first fatal s.failures) [
  | none ↦ answered s.facts s.messages
  | some e ↦ refused e
]

-- The command line's slices beside the library's: it keeps no failures.
abbrev pub cli_loads : Loads → Loads
cli_loads d = record { facts = d.facts; failures = []; messages = d.messages }

abbrev pub Refuses : LoadError → Step → Type 0
Refuses e (go d) = first fatal d.failures ≡ some e
Refuses e (stop _ m) = ⊥

abbrev pub Agrees : Step → Step → Type 0
Agrees (go c) (go d) = (c ≡ cli_loads d) × (first fatal d.failures ≡ none)
Agrees (stop e m) d = Refuses e d
Agrees (go c) (stop e m) = ⊥

-- Two rounds, of the command line and of the library, that agree, where the library's keeps a fatal
-- failure.
pub record Twin (f g : Loads → Step) : Type 0 where
  pub agree : (d : Loads) → first fatal d.failures ≡ none → Agrees (f (cli_loads d)) (g d)
  pub keeps : (e : LoadError) (d : Loads) → first fatal d.failures ≡ some e → Refuses e (g d)

pub Twin-go : Twin go go
Twin-go = record { agree = λ d h. (refl, h); keeps = λ e d h. h }

pub keeps-then :
    (e : LoadError) (y : Step) (g : Loads → Step)
    → ((d : Loads) → first fatal d.failures ≡ some e → Refuses e (g d))
    → Refuses e y
    → Refuses e (and_then y g)
unfolding and_then
keeps-then e (go d) g k h = k d h
keeps-then e (stop _ m) g k h = h

pub agree-then :
    (x y : Step) (f g : Loads → Step) → Twin f g → Agrees x y → Agrees (and_then x f) (and_then y g)
unfolding and_then
agree-then (go c) (go d) f g t (same, h) = rw same (t.agree d h)
agree-then (go c) (stop e m) f g t h = absurd h
agree-then (stop e m) y f g t h = keeps-then e y g (t.keeps e) h

pub Twin-then :
    (f g f2 g2 : Loads → Step)
    → Twin f g
    → Twin f2 g2
    → Twin (λ s. and_then (f s) f2) (λ s. and_then (g s) g2)
Twin-then f g f2 g2 t u = record {
  agree = λ d h. agree-then (f (cli_loads d)) (g d) f2 g2 u (t.agree d h);
  keeps = λ e d h. keeps-then e (g d) g2 (u.keeps e) (t.keeps e d h);
}

pub Twin-if :
    (b : Bool) (f g f2 g2 : Loads → Step)
    → Twin f g
    → Twin f2 g2
    → Twin (λ s. if b then f s else f2 s) (λ s. if b then g s else g2 s)
Twin-if true f g f2 g2 t u = t
Twin-if false f g f2 g2 t u = u
