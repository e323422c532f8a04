-- ===== src/Projection/Tests.antt =====
-- Runs of the selection on small inputs, and the theorems at such inputs.
use facts.Base.{true, false, ◌≡◌, ◌↔◌, refl, List, [], ◌∷◌, ◌++◌}
use facts.Base.Text.{Text, text, text_eq, has_byte, has_prefix, contains, mem_text}
use facts.Base.Text.Split.{split}
use facts.Base.Text.Unicode.{ascii}
use facts.Value.{Value, null, str, obj, Fields, end, field}
use facts.Fact.{ResolvedFact, dig_value, dot}
use facts.Projection.{
  Projection, fact_matches_query, lookup_value, new_projection, new_projection_with_tree, shape,
  full_tree,
}
use facts.Projection.Glob.{glob, glob_match}
use facts.Projection.Glob.Wildcard.{IsFilled, fact_matches_query-IsFilled}
use facts.Projection.Select.{fact_matches_query_iff, not_nil}
use facts.Projection.Lookup.{lookup_value-tree}

abbrev fact_of : Text → Value → Text → ResolvedFact
fact_of name value query = record {
  name = name;
  value = value;
  user_query = query;
  type = [];
  file = [];
}

abbrev os_fact : ResolvedFact
os_fact = fact_of (text "os") (obj (field (text "name") (str (text "Ubuntu")) end)) []

abbrev kernel_fact : ResolvedFact
kernel_fact = fact_of (text "kernel") (str (text "Linux")) []

fact_matches_query-IsFilled_example :
    (fact_matches_query (text "ssh(" ++ (text ".*" ++ text "key")) (text "ssh(rsakey") ≡ true)
    ↔ IsFilled (text "ssh(") (text "key") (text "ssh(rsakey")
fact_matches_query-IsFilled_example =
    fact_matches_query-IsFilled (text "ssh(") (text "key") (text "ssh(rsakey")
      (unfold has_byte in refl) (unfold has_byte in refl) (unfold contains has_prefix in refl)

glob_run : glob_match (glob (text "ssh.*key")) (text "sshrsakey") ≡ true
unfolding glob glob_match
glob_run = refl

fact_matches_query_iff_example :
    (fact_matches_query (text "os") (text "os.name") ≡ true)
    ↔ ((rest : List Text) × (split dot (text "os.name") ≡ split dot (text "os") ++ rest))
fact_matches_query_iff_example =
    fact_matches_query_iff (text "os") (text "os.name") (unfold contains in refl)

abbrev dotted_root : Fields
dotted_root = field (text "disks") (obj (field (text "sda") (str (text "ssd")) end)) end

lookup_value-tree_example :
    (lookup_value ascii.to_lower
      (new_projection_with_tree (os_fact ∷ []) false dotted_root)
      (text "disks.sda")).0
    ≡ not_nil (dig_value (obj dotted_root) (split dot (ascii.to_lower (text "disks.sda"))))
lookup_value-tree_example =
    lookup_value-tree ascii.to_lower false dotted_root (text "disks.sda") (os_fact ∷ [])
      (unfold ascii fact_matches_query text_eq has_prefix contains in refl, tt)

abbrev two_facts : Projection
two_facts = new_projection (os_fact ∷ kernel_fact ∷ []) false

abbrev queried : List ResolvedFact
queried = fact_of (text "os") null (text "os") ∷ fact_of (text "dmi") null (text "dmi") ∷ []

shape_run : shape (os_fact ∷ kernel_fact ∷ []) ≡ full_tree
unfolding shape text_eq mem_text
shape_run = refl
