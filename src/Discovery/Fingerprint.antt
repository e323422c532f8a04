-- ===== src/Discovery/Fingerprint.antt =====
-- `CoreFacts` and `disabledFingerprint` of internal/engine/core.go: the core facts of a session are
-- remembered for the fingerprint of the disabled set that they were built with. A disabled set is the
-- list of its names, where a name may come again.
pub mod Injective
mod Tests
use facts.Base.{ℕ, Bool, true, false, not, ◌&&◌, ◌||◌, List, [], ◌∷◌, if◌then◌else◌}
use facts.Base.Text.{Text, text_eq, mem_text}
use facts.Base.Text.Order.{sort_texts}
use facts.Base.Text.Split.{join}
use facts.Fact.{ResolvedFact}
use facts.Discovery.Descriptors.{CoreFactDescriptor, resolve_core_fact_descriptors}

abbrev pub comma : ℕ
comma = b','

-- The names of a list, each once: the keys of the map.
unfoldable pub distinct : List Text → List Text
unfolding mem_text
distinct [] = []
distinct (name ∷ names) =
    let rest = distinct names in if mem_text name names then rest else name ∷ rest

-- `disabledFingerprint`
unfoldable pub disabled_fingerprint : List Text → Text
unfolding sort_texts join distinct
disabled_fingerprint disabled = join comma (sort_texts (distinct disabled))

-- `coreFacts` of a session
pub record CoreMemo : Type 0 where
  pub built : Bool
  pub fingerprint : Text
  pub facts : List ResolvedFact

-- `CoreFacts`: the facts, which the memo then holds
unfoldable pub core_facts :
    (CoreFactDescriptor → List ResolvedFact)
    → List CoreFactDescriptor
    → CoreMemo
    → List Text
    → CoreMemo
unfolding disabled_fingerprint
core_facts assemble descriptors memo disabled =
    if not memo.built || not (text_eq memo.fingerprint (disabled_fingerprint disabled))
    then record {
      built = true;
      fingerprint = disabled_fingerprint disabled;
      facts = resolve_core_fact_descriptors assemble disabled descriptors;
    }
    else memo
