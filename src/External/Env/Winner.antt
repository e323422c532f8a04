-- ===== src/External/Env/Winner.antt =====
-- The bindings of `loadExternalEnvFacts` of internal/engine/external.go against the entries.
use facts.Base.{
  Bool, true, false, not, ◌&&◌, ◌||◌, ◌≡◌, inl, inr, refl, ap, ◌∙◌, List, [], ◌∷◌, Option, none,
  some, arith, Bool-cases, if◌then◌else◌,
}
use facts.Base.Text.{Text, text_eq, text_eq_iff, text_eq_self, mem_text}
use facts.External.Env.{
  EnvEntry, skipped, panicked, null_byte, binding, EnvState, env_loaded, env_loop, note_binding,
  bind, value_of, nothing_bound,
}

-- The value of the last binding of a name, with a prefix of one kind.
abbrev pub last_binding : Bool → Text → List EnvEntry → Option Text
last_binding kind name [] = none
last_binding kind name (binding n v native ∷ entries) = elim (last_binding kind name entries) [
  | some w ↦ some w
  | none ↦ if text_eq n name && (if kind then native else not native) then some v else none
]
last_binding kind name (e ∷ entries) = last_binding kind name entries

abbrev pub or_else : Option Text → Option Text → Option Text
or_else (some v) o = some v
or_else none o = o

-- The last native binding, or else the last compatible one.
abbrev pub winner : Text → List EnvEntry → Option Text
winner name entries = or_else (last_binding true name entries) (last_binding false name entries)

value_of-bind :
    (name key value : Text) (values : List (Text × Text))
    → value_of name (bind key value values)
      ≡ (if text_eq key name then some value else value_of name values)
unfolding value_of bind
value_of-bind name key value [] = refl
value_of-bind name key value ((n, v) ∷ values) = elim (Bool-cases (text_eq n key)) [
  | inl same ↦ let p : n ≡ key = (text_eq_iff n key).0 same in rw (same, bind) (rw p (ground arith))
  | inr apart ↦
      rw (apart, bind)
        (ground (
          arith,
          value_of-bind name key value values,
          text_eq_iff n name,
          text_eq_iff key name,
          text_eq_self n,
        ))
]

-- What a name is bound to after more entries.
abbrev final : Text → EnvState → List EnvEntry → Option Text
final name s entries = or_else (last_binding true name entries) (
    if mem_text name s.native_names
    then value_of name s.values
    else or_else (last_binding false name entries) (value_of name s.values))

abbrev latest : Option Text → Bool → Text → Option Text
latest o hits v = elim o [ some w ↦ some w | none ↦ if hits then some v else none ]

values-note_binding :
    (name key v : Text) (native : Bool) (s : EnvState)
    → value_of name (note_binding s key v native).values ≡ (
        if text_eq key name && not (mem_text key s.native_names && not native)
        then some v
        else value_of name s.values)
unfolding note_binding
values-note_binding name key v native s = ground (arith, value_of-bind name key v s.values)

names-note_binding :
    (name key v : Text) (native : Bool) (s : EnvState)
    → mem_text name (note_binding s key v native).native_names
      ≡ ((native && text_eq key name) || mem_text name s.native_names)
unfolding note_binding mem_text
names-note_binding name key v native s = ground arith

-- The step, for the tests and the later bindings as variables.
step_table :
    (t f w : Option Text) (same known native : Bool) (v : Text)
    → or_else t (
        if (native && same) || known
        then (if same && not (known && not native) then some v else w)
        else or_else f (if same && not (known && not native) then some v else w))
      ≡ or_else
          (latest t (same && native) v)
          (if known then w else or_else (latest f (same && not native) v) w)
step_table none none w true true true v = refl
step_table none none w true true false v = refl
step_table none none w true false true v = refl
step_table none none w true false false v = refl
step_table none none w false known native v = ground arith
step_table none (some x) w true true true v = refl
step_table none (some x) w true true false v = refl
step_table none (some x) w true false true v = refl
step_table none (some x) w true false false v = refl
step_table none (some x) w false known native v = ground arith
step_table (some y) f w same known native v = refl

values-note_binding_known :
    (name key v : Text) (native : Bool) (s : EnvState)
    → value_of name (note_binding s key v native).values ≡ (
        if text_eq key name && not (mem_text name s.native_names && not native)
        then some v
        else value_of name s.values)
values-note_binding_known name key v native s =
    values-note_binding name key v native s ∙ (elim (Bool-cases (text_eq key name)) [
      | inl same ↦
          let p : key ≡ name = (text_eq_iff key name).0 same in
          ap
            (λ k.
              if text_eq key name && not (mem_text k s.native_names && not native)
              then some v
              else value_of name s.values)
            p
      | inr apart ↦ rw apart refl
    ])

step-final :
    (name key v : Text) (native : Bool) (s : EnvState) (entries : List EnvEntry)
    → final name (note_binding s key v native) entries
      ≡ final name s (binding key v native ∷ entries)
step-final name key v native s entries =
    rw (values-note_binding_known name key v native s, names-note_binding name key v native s)
      (step_table (last_binding true name entries) (last_binding false name entries)
        (value_of name s.values) (text_eq key name) (mem_text name s.native_names) native v)

env_loop-final :
    (name : Text) (s s' : EnvState) (entries : List EnvEntry)
    → env_loop s entries ≡ env_loaded s'
    → value_of name s'.values ≡ final name s entries
unfolding env_loop
env_loop-final name s s' [] h = let p : s ≡ s' = cc in rw (← p) (ground arith)
env_loop-final name s s' (skipped ∷ entries) h = env_loop-final name s s' entries h
env_loop-final name s s' (panicked ∷ entries) h = absurd (ground arith)
env_loop-final name s s' (null_byte ∷ entries) h = absurd (ground arith)
env_loop-final name s s' (binding key v native ∷ entries) h =
    env_loop-final name (note_binding s key v native) s' entries h
    ∙ step-final name key v native s entries

-- Where the variables can be read, a name is bound to the last value under the facts' own prefix,
-- or, where there is none, to the last value under the compatible prefix; in whatever order the
-- variables stand.
pub env_loop-winner :
    (name : Text) (entries : List EnvEntry) (s : EnvState)
    → env_loop nothing_bound entries ≡ env_loaded s
    → value_of name s.values ≡ winner name entries
env_loop-winner name entries s h =
    env_loop-final name nothing_bound s entries h
    ∙ unfold value_of mem_text in
      ap (or_else (last_binding true name entries)) (or_else_none (last_binding false name entries))
  where
    or_else_none : (o : Option Text) → or_else o none ≡ o
    or_else_none none = refl
    or_else_none (some v) = refl
