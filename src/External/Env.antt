-- ===== src/External/Env.antt =====
-- `loadExternalEnvFacts` of internal/engine/external.go: the facts that environment variables name.
pub mod Winner
use facts.Base.{
  ℕ, Bool, true, false, not, ◌&&◌, ◌||◌, List, [], ◌∷◌, ◌++◌, Option, none, some, map,
  if◌then◌else◌,
}
use facts.Base.Text.{Text, text, text_eq, mem_text, has_byte}
use facts.Base.Text.Order.{sort_texts}
use facts.Base.Text.Split.{cut}
use facts.Base.Text.Unicode.{Unicode}
use facts.Value.{str}
use facts.Fact.{ResolvedFact, external}
use facts.Groups.Environment.{
  Outcome, returns, panics, EnvironmentName, environment_fact_name, reserved_disable_control_name,
}

-- `externalFactResolutionEnv`
abbrev resolution_env : Text
resolution_env = text "FACTER_EXTERNAL_FACTS_RUNNING"

-- What one round of the loop makes of an entry, before the collision rule: nothing, a panic of the
-- name's slice, the error of a null byte, or a binding, with whether its prefix is native.
pub data EnvEntry : Type 0 where
  skipped : EnvEntry
  panicked : EnvEntry
  null_byte : EnvEntry
  binding : Text → Text → Bool → EnvEntry

-- The checks of a name that is lowered, and of its value.
check_binding : Text → Text → Bool → EnvEntry
check_binding name value native =
    if text_eq name reserved_disable_control_name
    then skipped
    else if has_byte 0 name || has_byte 0 value
    then null_byte
    else binding name value native

unfoldable pub env_entry : Unicode → Text → EnvEntry
unfolding check_binding
env_entry u entry = elim (cut b'=' entry) [
  | none ↦ skipped
  | some (name, value) ↦
      if text_eq name resolution_env then skipped else elim (environment_fact_name u name) [
        | panics ↦ panicked
        | returns n ↦
            if not n.ok then skipped else check_binding (u.to_lower n.fact_name) value n.native
      ]
]

-- A `map[string]string`
abbrev pub Bindings : Type 0
Bindings = List (Text × Text)

unfoldable pub value_of : Text → Bindings → Option Text
value_of name [] = none
value_of name ((n, v) ∷ values) = if text_eq n name then some v else value_of name values

unfoldable pub bind : Text → Text → Bindings → Bindings
bind name value [] = (name, value) ∷ []
bind name value ((n, v) ∷ values) =
    let rest = bind name value values in
    if text_eq n name then (n, value) ∷ values else (n, v) ∷ rest

-- The maps of the loop: `values`, and the names of `nativeNames`.
pub record EnvState : Type 0 where
  pub values : Bindings
  pub native_names : List Text

unfoldable pub note_binding : EnvState → Text → Text → Bool → EnvState
unfolding bind
note_binding s name value native =
    if mem_text name s.native_names && not native then s else record {
      values = bind name value s.values;
      native_names = if native then name ∷ s.native_names else s.native_names;
    }

pub data EnvResult : Type 0 where
  env_panics : EnvResult
  env_null_byte : EnvResult
  env_loaded : EnvState → EnvResult

-- The loop.
unfoldable pub env_loop : EnvState → List EnvEntry → EnvResult
unfolding note_binding
env_loop s [] = env_loaded s
env_loop s (skipped ∷ entries) = env_loop s entries
env_loop s (panicked ∷ entries) = env_panics
env_loop s (null_byte ∷ entries) = env_null_byte
env_loop s (binding name value native ∷ entries) =
    env_loop (note_binding s name value native) entries

env_facts : Bindings → List Text → List ResolvedFact
unfolding value_of
env_facts values [] = []
env_facts values (key ∷ keys) =
    let rest = env_facts values keys in
    elim (value_of key values) [
      | none ↦ rest
      | some v ↦
          record { name = key; value = str v; user_query = []; type = external; file = [] } ∷ rest
    ]

abbrev pub nothing_bound : EnvState
nothing_bound = record { values = []; native_names = [] }

-- What `loadExternalEnvFacts` returns; an environment can also stop it with a panic.
pub data EnvFacts : Type 0 where
  stopped : EnvFacts
  failed : EnvFacts
  loaded : List ResolvedFact → EnvFacts

of_result : EnvResult → EnvFacts
unfolding env_facts sort_texts
of_result env_panics = stopped
of_result env_null_byte = failed
of_result (env_loaded s) = loaded (env_facts s.values (sort_texts (map (λ b. b.0) s.values)))

-- `loadExternalEnvFacts`
unfoldable pub load_external_env_facts : Unicode → List Text → EnvFacts
unfolding env_loop of_result env_entry
load_external_env_facts u env = of_result (env_loop nothing_bound (map (env_entry u) env))
