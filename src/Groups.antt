-- ===== src/Groups.antt =====
-- internal/engine/groups.go: fact groups, and the sets of disabled facts that they expand to.
pub mod Ttl
pub mod Environment
pub mod Prune
pub mod Hierarchy
pub mod Filter
mod Tests
use facts.Base.{
  ℕ, zero, suc, ◌+◌, Bool, true, false, not, ◌&&◌, ◌||◌, List, [], ◌∷◌, ◌++◌, Option, none, some,
  length, is_nil, any, ◌==◌, if◌then◌else◌,
}
use facts.Base.Text.{Text, text, text_eq, has_prefix, drop_prefix, mem_text}
use facts.Base.Text.Split.{split, cut, cut_last}
use facts.Value.{Value, null, obj, Fields, lookup, end, put, remove}
use facts.Fact.{ResolvedFact, dot}

pub record FactGroup : Type 0 where
  pub name : Text
  pub facts : List Text

-- The entry of a Go map that was written last: the map as the list of its writes.
unfoldable pub index_of : Text → List (Text × ℕ) → Option ℕ
index_of name [] = none
index_of name ((n, i) ∷ indexes) = if text_eq n name then some i else index_of name indexes

-- `indexes[group.Name] = i` for each group
unfoldable pub number_groups : List (Text × ℕ) → ℕ → List FactGroup → List (Text × ℕ)
number_groups indexes i [] = indexes
number_groups indexes i (group ∷ groups) = number_groups ((group.name, i) ∷ indexes) (i + 1) groups

-- `merged[index] = group`
unfoldable pub set_group : List FactGroup → ℕ → FactGroup → List FactGroup
set_group [] i group = []
set_group (g ∷ groups) zero group = group ∷ groups
set_group (g ∷ groups) (suc i) group = g ∷ set_group groups i group

-- The loop over the configured groups.
unfoldable pub merge_loop : List (Text × ℕ) → List FactGroup → List FactGroup → List FactGroup
unfolding index_of set_group
merge_loop indexes merged [] = merged
merge_loop indexes merged (group ∷ configured) = elim (index_of group.name indexes) [
  | some i ↦ merge_loop indexes (set_group merged i group) configured
  | none ↦ merge_loop ((group.name, length merged) ∷ indexes) (merged ++ group ∷ []) configured
]

-- `MergeFactGroups`
unfoldable pub merge_fact_groups : List FactGroup → List FactGroup → List FactGroup
unfolding merge_loop number_groups
merge_fact_groups defaults [] = defaults
merge_fact_groups defaults (group ∷ configured) =
    merge_loop (number_groups [] 0 defaults) defaults (group ∷ configured)

-- `factHierarchyCovers`
unfoldable pub fact_hierarchy_covers : Text → Text → Bool
fact_hierarchy_covers ancestor name =
    text_eq ancestor name || has_prefix name (ancestor ++ (dot ∷ []))

-- `FactGroupName`
unfoldable pub fact_group_name : List FactGroup → Text → Option Text
fact_group_name [] fact = none
fact_group_name (group ∷ groups) fact =
    if any (λ f. text_eq f fact || has_prefix fact (f ++ (dot ∷ []))) group.facts
    then some group.name
    else fact_group_name groups fact

-- The lines of one group of `FormatFactGroups`.
format_facts : List Text → Text
format_facts [] = []
format_facts (fact ∷ facts) = text "- " ++ (fact ++ (b'\n' ∷ format_facts facts))

format_groups : List FactGroup → Text
format_groups [] = []
format_groups (group ∷ groups) =
    group.name ++ (b'\n' ∷ (format_facts group.facts ++ format_groups groups))

-- `strings.TrimSuffix(s, "\n")`
trim_newline : Text → Text
trim_newline [] = []
trim_newline (c ∷ []) = if c == b'\n' then [] else c ∷ []
trim_newline (c ∷ d ∷ s) = c ∷ trim_newline (d ∷ s)

-- `FormatFactGroups`
unfoldable pub format_fact_groups : List FactGroup → Text
unfolding format_facts format_groups trim_newline
format_fact_groups groups = trim_newline (format_groups groups)

-- The inner loop of `DisabledFactsWithGroups`: the facts of each group of that name, and whether
-- there is one.
unfoldable pub expand_entry : List FactGroup → Text → List Text × Bool
expand_entry [] entry = ([], false)
expand_entry (group ∷ groups) entry =
    let (facts, matched) = expand_entry groups entry in
    if text_eq group.name entry then (group.facts ++ facts, true) else (facts, matched)

-- `DisabledFactsWithGroups` over the built-in groups; the set is the list of its members.
unfoldable pub disabled_facts_with_groups : List FactGroup → List Text → List FactGroup → List Text
unfolding merge_fact_groups expand_entry
disabled_facts_with_groups builtin [] configured = []
disabled_facts_with_groups builtin (entry ∷ entries) configured =
    let (facts, matched) = expand_entry (merge_fact_groups builtin configured) entry in
    (if matched then facts else entry ∷ []) ++ disabled_facts_with_groups builtin entries configured

-- `factHierarchyMatch`: the name itself, or its nearest ancestor that `lookup` knows. Each round
-- cuts the name, whose length is fuel enough.
unfoldable pub hierarchy_loop {ℓ} : {A : Type ℓ} → ℕ → (Text → Option A) → Text → Option (Text × A)
hierarchy_loop zero known name = none
hierarchy_loop (suc fuel) known name = elim (known name) [
  | some value ↦ some (name, value)
  | none ↦ elim (cut_last dot name) [ none ↦ none | some front ↦ hierarchy_loop fuel known front ]
]

unfoldable pub fact_hierarchy_match {ℓ} :
    {A : Type ℓ} → Text → (Text → Option A) → Option (Text × A)
unfolding hierarchy_loop
fact_hierarchy_match name known = hierarchy_loop (suc (length name)) known name

-- The map after `v[parts[0]] = child`, and without the key if the child is an empty map.
pub put_child : Text → Value → Fields → Value
put_child k (obj end) m = obj (remove k (put k (obj end) m))
put_child k child m = obj (put k child m)

-- `pruneDottedValue`
unfoldable pub prune_dotted_value : Value → List Text → Value
unfolding put_child
prune_dotted_value value [] = value
prune_dotted_value (obj m) (k ∷ []) = obj (remove k m)
prune_dotted_value (obj m) (k ∷ j ∷ parts) = elim (lookup k m) [
  | none ↦ obj m
  | some child ↦ put_child k (prune_dotted_value child (j ∷ parts)) m
]
prune_dotted_value value (k ∷ parts) = value

-- `pruneDisabledDescendants`, whose copy of the value is the value; the disabled names in the order
-- of the iteration over their set
unfoldable pub prune_disabled_descendants : Text → Value → List Text → Value
unfolding fact_hierarchy_covers prune_dotted_value
prune_disabled_descendants name value [] = value
prune_disabled_descendants name value (d ∷ disabled) =
    prune_disabled_descendants name
      (if text_eq d name || not (fact_hierarchy_covers name d)
        then value
        else prune_dotted_value value (split dot (drop_prefix d (name ++ (dot ∷ [])))))
      disabled

-- `root, _, _ := strings.Cut(fact.Name, ".")`
unfoldable pub root_name : Text → Text
root_name name = elim (cut dot name) [ some (root, _) ↦ root | none ↦ name ]

unfoldable pub filter_loop : List Text → List ResolvedFact → List ResolvedFact
filter_loop disabled [] = []
filter_loop disabled (fact ∷ facts) =
    let rest = filter_loop disabled facts in
    if mem_text fact.name disabled || mem_text (root_name fact.name) disabled
    then rest
    else record fact { value = prune_disabled_descendants fact.name fact.value disabled } ∷ rest

-- `FilterDisabledFacts`
unfoldable pub filter_disabled_facts : List ResolvedFact → List Text → List ResolvedFact
unfolding filter_loop root_name prune_disabled_descendants
filter_disabled_facts facts disabled = if is_nil disabled then facts else filter_loop disabled facts
