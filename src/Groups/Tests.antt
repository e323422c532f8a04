-- ===== src/Groups/Tests.antt =====
-- The theorems on groups, disabled facts and environment names at concrete inputs.
use facts.Base.{
  ℕ, ◌-◌, ◌*◌, ◌^◌, ◌==◌, false, ◌≡◌, ◌≢◌, refl, [], ◌∷◌, ◌++◌, Option, none, some, All,
  if◌then◌else◌,
}
use facts.Base.Int.{pos, negsuc}
use facts.Base.Text.{Text, text, text_eq, has_byte, has_prefix, drop_prefix, mem_text}
use facts.Base.Text.Unicode.{Unicode, ascii}
use facts.Value.{Value, str, obj, end, field}
use facts.Fact.{ResolvedFact, dig_value}
use facts.Fact.Node.{node}
use facts.Fact.Insert.{diverge}
use facts.Groups.{
  prune_dotted_value, fact_hierarchy_covers, fact_hierarchy_match, filter_disabled_facts,
}
use facts.Groups.Prune.{node-prune_diverge}
use facts.Groups.Prune.Dig.{leaves_maps, dig_value-prune_self}
use facts.Groups.Filter.{filter_disabled_facts-clear, filter_misses_ancestor}
use facts.Groups.Ttl.{IsWrapped, scaled, scaled_wraps}
use facts.Groups.Environment.{EnvironmentName, environment_fact_name, returns, panics, prefixes}
use facts.Groups.Environment.Tail.{IsNamed, environment_fact_name-IsNamed}

abbrev os_value : Value
os_value = obj (
    field (text "distro") (obj (field (text "id") (str (text "Ubuntu")) end))
      (field (text "name") (str (text "Ubuntu")) end))

dig_value-prune_self_example :
    dig_value
      (prune_dotted_value os_value (text "distro" ∷ text "id" ∷ []))
      (text "distro" ∷ text "id" ∷ [])
    ≡ (if leaves_maps os_value (text "distro" ∷ text "id" ∷ [])
        then dig_value os_value (text "distro" ∷ text "id" ∷ [])
        else none)
dig_value-prune_self_example = dig_value-prune_self os_value (text "distro") (text "id" ∷ [])

node-prune_diverge_example :
    node (prune_dotted_value os_value (text "distro" ∷ text "id" ∷ [])) (text "name" ∷ [])
    ≡ node os_value (text "name" ∷ [])
node-prune_diverge_example =
    node-prune_diverge (text "distro" ∷ text "id" ∷ []) (text "name" ∷ []) os_value
      (unfold diverge text_eq in refl)

abbrev known_os : Text → Option ℕ
known_os t = if text_eq t (text "os") then some 7 else none

abbrev fact_of : Text → Value → ResolvedFact
fact_of name value = record { name = name; value = value; user_query = []; type = []; file = [] }

filter_disabled_facts-clear_example :
    All
      (λ fact. fact_hierarchy_covers (text "os") fact.name ≡ false)
      (filter_disabled_facts
        (fact_of (text "os") os_value ∷ fact_of (text "kernel") (str (text "Linux")) ∷ [])
        (text "os" ∷ []))
filter_disabled_facts-clear_example =
    filter_disabled_facts-clear (text "os" ∷ []) (text "os")
      (fact_of (text "os") os_value ∷ fact_of (text "kernel") (str (text "Linux")) ∷ [])
      (unfold mem_text text_eq in refl) (unfold has_byte in refl)

abbrev deep_fact : ResolvedFact
deep_fact = fact_of (text "site.rack.row") (str (text "7"))

filter_misses_ancestor_example :
    (filter_disabled_facts (deep_fact ∷ []) (text "site.rack" ∷ []) ≡ deep_fact ∷ [])
    × (fact_hierarchy_match deep_fact.name
          (λ t. if text_eq t (text "site.rack") then some (text "site.rack") else none)
        ≢ none)
filter_misses_ancestor_example =
    filter_misses_ancestor deep_fact (text "site.rack") (text "row") refl (unfold has_byte in refl)

scaled_wraps_example : IsWrapped (2 ^ 50 * 86400) (scaled (pos (2 ^ 50)) (86400, 1))
scaled_wraps_example = scaled_wraps (2 ^ 50) 86400

-- 2 ^ 47 days are a negative number of seconds.
scaled_run : scaled (pos (2 ^ 47)) (86400, 1) ≡ negsuc (2 ^ 64 - 2 ^ 47 * 86400 - 1)
unfolding scaled
scaled_run = refl

-- Lowering of the one letter U+023A (bytes 200, 186) to U+2C65 (bytes 226, 177, 165), and of ASCII letters.
lower_stroke : Text → Text
unfolding ascii
lower_stroke [] = []
lower_stroke (c ∷ []) = ascii.to_lower (c ∷ [])
lower_stroke (c ∷ d ∷ s) =
    let rest = lower_stroke s in
    let on = lower_stroke (d ∷ s) in
    if c == 200
    then (if d == 186 then 226 ∷ 177 ∷ 165 ∷ rest else c ∷ on)
    else ascii.to_lower (c ∷ []) ++ on

abbrev with_stroke : Unicode
with_stroke = record ascii { to_lower = lower_stroke }

abbrev stroke : Text
stroke = 200 ∷ 186 ∷ []

-- The letter seven times behind the prefix.
abbrev growing_name : Text
growing_name =
    text "FACTS_" ++ (stroke ++ (stroke ++ (stroke ++ (stroke ++ (stroke ++ (stroke ++ stroke))))))

panics_run : environment_fact_name with_stroke growing_name ≡ panics
unfolding environment_fact_name has_prefix drop_prefix lower_stroke ascii
panics_run = refl

environment_fact_name-IsNamed_example :
    (r : EnvironmentName) × (environment_fact_name ascii (text "FACTS_Role") ≡ returns r)
    × IsNamed (text "FACTS_Role") (ascii.to_lower (text "FACTS_Role")) r prefixes
environment_fact_name-IsNamed_example =
    environment_fact_name-IsNamed ascii (text "FACTS_Role") (unfold ascii in refl)
