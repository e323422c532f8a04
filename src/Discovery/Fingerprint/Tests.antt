-- ===== src/Discovery/Fingerprint/Tests.antt =====
-- The theorems on fingerprints at concrete inputs.
use facts.Base.{false, ◌≡◌, refl, inl, List, [], ◌∷◌, ◌++◌}
use facts.Base.Text.{text, text_eq, has_byte}
use facts.Base.Text.Order.{text_le}
use facts.Value.{str}
use facts.Fact.{ResolvedFact}
use facts.Discovery.Descriptors.{CoreFactDescriptor, resolve_core_fact_descriptors, gateable}
use facts.Discovery.Fingerprint.{comma, disabled_fingerprint, CoreMemo, core_facts}
use facts.Discovery.Fingerprint.Injective.{
  IsFaithful, core_facts-IsFaithful, disabled_fingerprint-collides,
}

assemble_root : CoreFactDescriptor → List ResolvedFact
assemble_root d =
    record { name = d.root; value = str d.root; user_query = []; type = []; file = [] } ∷ []

abbrev one_descriptor : List CoreFactDescriptor
one_descriptor =
    record {
      root = text "ssh";
      group = [];
      group_order = 0;
      policy = gateable;
      assembler = text "sshCoreFacts";
      emitted_roots = text "ssh" ∷ [];
    }
    ∷ []

abbrev new_memo : CoreMemo
new_memo = record { built = false; fingerprint = []; facts = [] }

core_facts-IsFaithful_example :
    ((core_facts assemble_root one_descriptor new_memo (text "os" ∷ text "dmi" ∷ [])).facts
      ≡ resolve_core_fact_descriptors assemble_root (text "os" ∷ text "dmi" ∷ []) one_descriptor)
    × IsFaithful assemble_root one_descriptor
        (core_facts assemble_root one_descriptor new_memo (text "os" ∷ text "dmi" ∷ []))
core_facts-IsFaithful_example =
    core_facts-IsFaithful assemble_root one_descriptor new_memo (text "os") (text "dmi" ∷ [])
      (inl refl) (unfold has_byte in refl, (unfold has_byte in refl, tt))

disabled_fingerprint-collides_example :
    disabled_fingerprint ((text "dmi" ++ (comma ∷ text "os")) ∷ [])
    ≡ disabled_fingerprint (text "dmi" ∷ text "os" ∷ [])
disabled_fingerprint-collides_example =
    disabled_fingerprint-collides (text "dmi") (text "os") (unfold text_le in refl)
      (unfold text_eq in refl)
