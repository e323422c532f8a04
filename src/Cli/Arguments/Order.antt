-- ===== src/Cli/Arguments/Order.antt =====
-- `PrepareArguments` of internal/cli/arguments.go: the order of the arguments.
use mathlib.Core.List.{Perm, perm_middle}
use mathlib.Core.List.Perm
use facts.Base.{
  Bool, false, ◌||◌, ◌≡◌, inl, inr, refl, sym, ap, List, [], ◌∷◌, ◌++◌, if◌then◌else◌, Bool-cases,
}
use facts.Base.Text.{Text, text, text_eq}
use facts.Base.Text.Unicode.{Unicode}
use facts.Cli.Options.{is_task, is_task_flag, option_takes_separate_value}
use facts.Cli.Arguments.{
  delimiter, expand_short_options, contains_known_task_or_mapped_flag, prepare_loop,
  prepare_arguments,
}

-- What a reader of the arguments from the left expects next: an argument, the value of an option, or,
-- behind the delimiter, nothing but plain arguments.
pub data Expects : Type 0 where
  argument : Expects
  option_value : Expects
  plain : Expects

-- What is expected behind an argument.
unfoldable pub behind : Expects → Text → Expects
behind argument arg =
    if text_eq arg delimiter
    then plain
    else if is_task_flag arg || is_task arg
    then argument
    else if option_takes_separate_value arg
    then option_value
    else argument
behind option_value arg = argument
behind plain arg = plain

-- A task, or a flag that stands for one, that is neither the delimiter nor an option's value and not
-- behind the delimiter.
unfoldable pub is_moved : Expects → Text → Bool
is_moved argument arg = if text_eq arg delimiter then false else is_task_flag arg || is_task arg
is_moved option_value arg = false
is_moved plain arg = false

-- The arguments that are moved, or those that are not, in their order.
unfoldable pub tasks_of : Expects → List Text → List Text
unfolding behind is_moved
tasks_of state [] = []
tasks_of state (arg ∷ args) =
    let rest = tasks_of (behind state arg) args in if is_moved state arg then arg ∷ rest else rest

unfoldable pub others_of : Expects → List Text → List Text
unfolding behind is_moved
others_of state [] = []
others_of state (arg ∷ args) =
    let rest = others_of (behind state arg) args in if is_moved state arg then rest else arg ∷ rest

abbrev parts_of : Expects → List Text → List Text × List Text
parts_of state args = (tasks_of state args, others_of state args)

parts_of-plain : (args : List Text) → parts_of plain args ≡ ([], args)
unfolding tasks_of others_of behind is_moved
parts_of-plain [] = refl
parts_of-plain (arg ∷ args) =
    ap (λ (p : List Text × List Text). (p.0, arg ∷ p.1)) (parts_of-plain args)

prepare_loop-parts : (args : List Text) → prepare_loop args ≡ parts_of argument args
unfolding prepare_loop tasks_of others_of behind is_moved
prepare_loop-parts [] = refl
prepare_loop-parts (arg ∷ []) = elim (Bool-cases (text_eq arg delimiter)) [
  | inl e ↦ rw (e, prepare_loop, tasks_of, others_of) refl
  | inr e ↦ elim (Bool-cases (is_task_flag arg || is_task arg)) [
    | inl f ↦ rw (e, f, prepare_loop, tasks_of, others_of) refl
    | inr f ↦ rw (e, f, prepare_loop, tasks_of, others_of) refl
  ]
]
prepare_loop-parts (arg ∷ next ∷ args) = elim (Bool-cases (text_eq arg delimiter)) [
  | inl e ↦
      rw (e, prepare_loop, tasks_of, others_of)
        (ap (λ (p : List Text × List Text). (p.0, arg ∷ p.1)) (sym (parts_of-plain (next ∷ args))))
  | inr e ↦ elim (Bool-cases (is_task_flag arg || is_task arg)) [
    | inl f ↦
        rw (e, f, prepare_loop, tasks_of, others_of)
          (ap (λ (p : List Text × List Text). (arg ∷ p.0, p.1)) (prepare_loop-parts (next ∷ args)))
    | inr f ↦ elim (Bool-cases (option_takes_separate_value arg)) [
      | inl g ↦
          rw (e, f, g, prepare_loop, tasks_of, others_of)
            (ap (λ (p : List Text × List Text). (p.0, arg ∷ next ∷ p.1)) (prepare_loop-parts args))
      | inr g ↦
          rw (e, f, g, prepare_loop, tasks_of, others_of)
            (ap (λ (p : List Text × List Text). (p.0, arg ∷ p.1))
              (prepare_loop-parts (next ∷ args)))
    ]
  ]
]

-- Moving the tasks loses no argument and doubles none.
parts_of-perm :
    (state : Expects) (args : List Text) → Perm (tasks_of state args ++ others_of state args) args
unfolding tasks_of others_of
parts_of-perm state [] = Perm.refl []
parts_of-perm state (arg ∷ args) = elim (Bool-cases (is_moved state arg)) [
  | inl e ↦ rw (e, tasks_of, others_of) (Perm.cons arg (parts_of-perm (behind state arg) args))
  | inr e ↦
      rw (e, tasks_of, others_of)
        (Perm.trans
          (perm_middle (tasks_of (behind state arg) args) (others_of (behind state arg) args))
          (Perm.cons arg (parts_of-perm (behind state arg) args)))
]

abbrev pub with_task : List Text → List Text
with_task args = if contains_known_task_or_mapped_flag args then args else text "query" ∷ args

abbrev pub prepared : Unicode → List Text → List Text
prepared u args = with_task (expand_short_options u args)

-- The prepared arguments are the expanded ones, with the task `query` before them where they name no
-- task: first the tasks and task flags that are neither an option's value nor behind the delimiter,
-- then all the others, both in the order they had; together they are the same arguments.
pub prepare_arguments-perm :
    (u : Unicode) (args : List Text)
    → (prepare_arguments u args
        ≡ tasks_of argument (prepared u args) ++ others_of argument (prepared u args))
      × Perm (prepare_arguments u args) (prepared u args)
unfolding prepare_arguments
prepare_arguments-perm u args =
    rw (prepare_loop-parts (prepared u args)) (refl, parts_of-perm argument (prepared u args))
