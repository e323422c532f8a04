-- ===== src/Fact/Tests.antt =====
-- Runs of the collection on small inputs, and the theorems at such inputs.
use facts.Base.{true, false, ◌≡◌, ◌≢◌, ◌⊎◌, ◌↔◌, refl, List, [], ◌∷◌, ◌++◌, none, some}
use facts.Base.Text.{Text, text, text_eq}
use facts.Base.Text.Split.{split}
use facts.Value.{Value, str, obj, Fields, end, field, lookup, put}
use facts.Fact.{ResolvedFact, insert, dig_value, dot}
use facts.Fact.Node.{node}
use facts.Fact.Insert.{diverge, insert-node_self, insert-node-diverge}
use facts.Fact.Conflict.{Conflict, insert_refused_iff}
use facts.Fact.Collect.{collect_facts}
use facts.Fact.Collect.Survive.{collect_facts_accounted}

abbrev fact_of : Text → Value → Text → ResolvedFact
fact_of name value type = record {
  name = name;
  value = value;
  user_query = [];
  type = type;
  file = [];
}

abbrev os_name : List Text
os_name = text "os" ∷ text "name" ∷ []

abbrev os_family : List Text
os_family = text "os" ∷ text "family" ∷ []

abbrev ubuntu : Value
ubuntu = str (text "Ubuntu")

abbrev debian : Value
debian = str (text "Debian")

abbrev os_map : Fields
os_map = field (text "os") (obj (field (text "family") debian end)) end

insert_run : insert os_map os_name ubuntu ≡ (
  field (text "os") (obj (field (text "family") debian (field (text "name") ubuntu end))) end,
  true,
)
unfolding insert lookup put text_eq
insert_run = refl

insert-node_self_example : node (obj (insert os_map os_name ubuntu).0) os_name ≡ some ubuntu
insert-node_self_example =
    insert-node_self os_name ubuntu os_map (unfold insert lookup put text_eq in refl)

insert-node-diverge_example :
    node (obj (insert os_map os_name ubuntu).0) os_family ≡ node (obj os_map) os_family
insert-node-diverge_example =
    insert-node-diverge os_name os_family ubuntu os_map (unfold diverge text_eq in refl)

insert_refused_iff_example :
    ((insert os_map (text "os" ∷ []) ubuntu).1 ≡ false) ↔ Conflict os_map (text "os" ∷ [])
insert_refused_iff_example = insert_refused_iff (text "os" ∷ []) ubuntu os_map

abbrev root_fact : ResolvedFact
root_fact = fact_of (text "os") (obj (field (text "family") debian end)) []

abbrev dotted_fact : ResolvedFact
dotted_fact = fact_of (text "os.name") ubuntu (text "custom")

abbrev clash_fact : ResolvedFact
clash_fact = fact_of (text "os") ubuntu []

collect_run : collect_facts (root_fact ∷ dotted_fact ∷ clash_fact ∷ []) false ≡ record {
  root =
      field (text "os") (obj (field (text "family") debian (field (text "name") ubuntu end))) end;
  collisions = clash_fact ∷ [];
  places =
      (root_fact, some (text "os" ∷ [])) ∷ (dotted_fact, some os_name) ∷ (clash_fact, none) ∷ [];
}
unfolding collect_facts insert lookup put text_eq split
collect_run = refl

abbrev kernel : ResolvedFact
kernel = fact_of (text "kernel") (str (text "Linux")) []

collect_facts_accounted_example :
    (Conflict (collect_facts (root_fact ∷ []) false).root (split dot (text "kernel"))
      × ((collect_facts (root_fact ∷ kernel ∷ []) false).collisions
          ≡ (collect_facts (root_fact ∷ []) false).collisions ++ kernel ∷ [])
      × ((collect_facts (root_fact ∷ kernel ∷ []) false).root
          ≡ (collect_facts (root_fact ∷ []) false).root))
    ⊎ (((collect_facts (root_fact ∷ kernel ∷ []) false).collisions
          ≡ (collect_facts (root_fact ∷ []) false).collisions)
        × (dig_value
              (obj (collect_facts (root_fact ∷ kernel ∷ dotted_fact ∷ []) false).root)
              (split dot (text "kernel"))
            ≡ some (str (text "Linux"))))
collect_facts_accounted_example =
    collect_facts_accounted false (root_fact ∷ []) (dotted_fact ∷ []) kernel refl refl refl
      (later_differs, tt)
  where
    later_differs : text "os.name" ≢ text "kernel"
    later_differs e = cc
