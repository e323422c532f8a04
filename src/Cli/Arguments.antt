-- ===== src/Cli/Arguments.antt =====
-- internal/cli/arguments.go: task words and task flags go to the front of the arguments.
pub mod Order
use facts.Base.{
  ℕ, ◌≡◌, refl, Bool, true, false, not, ◌&&◌, ◌||◌, List, [], ◌∷◌, ◌++◌, Option, none, some, map,
  ltb, leb, ◌==◌, length, is_nil, if◌then◌else◌,
}
use facts.Base.Text.{Text, text, text_eq, has_byte}
use facts.Base.Text.Unicode.{Unicode}
use facts.Cli.Options.{
  option_takes_separate_value, short_option_takes_attached_value, is_task, is_task_flag,
}

abbrev pub delimiter : Text
delimiter = text "--"

-- The test of `expandShortOptions` for an argument that is left as it is.
stays_whole : Text → Bool
stays_whole [] = true
stays_whole (c ∷ []) = true
stays_whole (c ∷ d ∷ s) = is_nil s || not (c == b'-') || d == b'-' || has_byte b'=' (c ∷ d ∷ s)

-- What one argument expands to.
expand_short : Unicode → Text → List Text
unfolding stays_whole
expand_short u (c ∷ d ∷ s) =
    if stays_whole (c ∷ d ∷ s)
    then (c ∷ d ∷ s) ∷ []
    else if short_option_takes_attached_value d
    then (c ∷ d ∷ []) ∷ s ∷ []
    else map (λ r. b'-' ∷ r) (u.runes (d ∷ s))
expand_short u arg = arg ∷ []

-- `expandShortOptions`
unfoldable pub expand_short_options : Unicode → List Text → List Text
unfolding expand_short
expand_short_options u [] = []
expand_short_options u (arg ∷ args) =
    let rest = expand_short_options u args in
    if text_eq arg delimiter then arg ∷ args else expand_short u arg ++ rest

-- `containsKnownTaskOrMappedFlag`
unfoldable pub contains_known_task_or_mapped_flag : List Text → Bool
contains_known_task_or_mapped_flag [] = false
contains_known_task_or_mapped_flag (arg ∷ []) =
    not (text_eq arg delimiter) && (is_task arg || is_task_flag arg)
contains_known_task_or_mapped_flag (arg ∷ next ∷ args) =
    let skipping = contains_known_task_or_mapped_flag args in
    let on = contains_known_task_or_mapped_flag (next ∷ args) in
    not (text_eq arg delimiter)
    && (is_task arg
        || is_task_flag arg
        || (if option_takes_separate_value arg then skipping else on))

-- The loop of `PrepareArguments`: the priority arguments and the normal ones.
unfoldable pub prepare_loop : List Text → List Text × List Text
prepare_loop [] = ([], [])
prepare_loop (arg ∷ []) =
    if not (text_eq arg delimiter) && (is_task_flag arg || is_task arg)
    then (arg ∷ [], [])
    else ([], arg ∷ [])
prepare_loop (arg ∷ next ∷ args) =
    let skipping = prepare_loop args in
    let on = prepare_loop (next ∷ args) in
    if text_eq arg delimiter
    then ([], arg ∷ next ∷ args)
    else if is_task_flag arg || is_task arg
    then (arg ∷ on.0, on.1)
    else if option_takes_separate_value arg
    then (skipping.0, arg ∷ next ∷ skipping.1)
    else (on.0, arg ∷ on.1)

-- `PrepareArguments`
unfoldable pub prepare_arguments : Unicode → List Text → List Text
unfolding expand_short_options contains_known_task_or_mapped_flag prepare_loop
prepare_arguments u args =
    let expanded = expand_short_options u args in
    let prepared =
      if contains_known_task_or_mapped_flag expanded then expanded else text "query" ∷ expanded in
    let (priority, normal) = prepare_loop prepared in priority ++ normal
