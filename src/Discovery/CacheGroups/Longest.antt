-- ===== src/Discovery/CacheGroups/Longest.antt =====
-- `cacheGroupForFact` of internal/engine/cache.go against the configured prefixes.
use mathlib.Core.List.{Memᴰ}
use facts.Base.{
  ℕ, Bool-cases, both_left, inl, inr, refl, true, false, ◌&&◌, ◌≡◌, List, [], ◌∷◌, none, some,
  arith, All, length, if◌then◌else◌,
}
use facts.Base.Text.{Text}
use facts.Discovery.CacheGroups.{
  FactCache, Best, best_len, longer_than, best_prefix, best_group, prefixes_of, fact_matches_prefix,
  cache_group_for_fact,
}

-- No match is longer than the best one.
abbrev pub IsWithin : Best → Text → Text → Type 0
IsWithin best name prefix =
    fact_matches_prefix name prefix ≡ true → longer_than (length prefix) (best_len best) ≡ false

abbrev pick : Text → Text → ℕ → Best → Text → Best
pick name configured ttl best prefix =
    if fact_matches_prefix name prefix && longer_than (length prefix) (best_len best)
    then some (configured, ttl, length prefix)
    else best

module _ (name configured : Text) (ttl : ℕ) where
  pick-grows :
      (best : Best) (prefix q : Text)
      → IsWithin best name q
      → IsWithin (pick name configured ttl best prefix) name q
  pick-grows none prefix q h m = absurd (ground (arith, h m))
  pick-grows (some (g, t, l)) prefix q h m = ground (arith, h m)

  pick_self :
      (best : Best) (prefix : Text) → IsWithin (pick name configured ttl best prefix) name prefix
  pick_self none prefix m = ground arith
  pick_self (some (g, t, l)) prefix m = ground arith

  best_prefix-grows :
      (best : Best) (prefixes : List Text) (q : Text)
      → IsWithin best name q
      → IsWithin (best_prefix name configured ttl best prefixes) name q
  unfolding best_prefix
  best_prefix-grows best [] q h = h
  best_prefix-grows best (p ∷ prefixes) q h =
      best_prefix-grows (pick name configured ttl best p) prefixes q (pick-grows best p q h)

  best_prefix-All :
      (best : Best) (prefixes : List Text)
      → All (IsWithin (best_prefix name configured ttl best prefixes) name) prefixes
  unfolding best_prefix
  best_prefix-All best [] = tt
  best_prefix-All best (p ∷ prefixes) = (
    best_prefix-grows (pick name configured ttl best p) prefixes p (pick_self best p),
    best_prefix-All (pick name configured ttl best p) prefixes,
  )

module _ (groups : List (Text × List Text)) (name : Text) where
  best_group-grows :
      (best : Best) (ttls : List (Text × ℕ)) (q : Text)
      → IsWithin best name q
      → IsWithin (best_group groups name best ttls) name q
  unfolding best_group
  best_group-grows best [] q h = h
  best_group-grows best ((c, t) ∷ ttls) q h =
      best_group-grows (best_prefix name c t best (prefixes_of groups c)) ttls q
        (best_prefix-grows name c t best (prefixes_of groups c) q h)

  All-grow :
      (best : Best) (ttls : List (Text × ℕ)) (qs : List Text)
      → All (IsWithin best name) qs
      → All (IsWithin (best_group groups name best ttls) name) qs
  All-grow best ttls [] h = tt
  All-grow best ttls (q ∷ qs) (h, hs) = (best_group-grows best ttls q h, All-grow best ttls qs hs)

  best_group-All :
      (best : Best) (ttls : List (Text × ℕ))
      → All
          (λ e. All (IsWithin (best_group groups name best ttls) name) (prefixes_of groups e.0))
          ttls
  unfolding best_group
  best_group-All best [] = tt
  best_group-All best ((c, t) ∷ ttls) = (
    All-grow (best_prefix name c t best (prefixes_of groups c)) ttls (prefixes_of groups c)
        (best_prefix-All name c t best (prefixes_of groups c)),
    best_group-All (best_prefix name c t best (prefixes_of groups c)) ttls,
  )

-- The chosen group is a configured one with its TTL, and the length is that of a prefix which stands
-- for it and matches the fact.
abbrev pub IsChosen : List (Text × List Text) → List (Text × ℕ) → Text → Best → Type 0
IsChosen groups ttls name none = Unit
IsChosen groups ttls name (some (group, ttl, l)) =
    Memᴰ (group, ttl) ttls
    × (prefix : Text) × Memᴰ prefix (prefixes_of groups group)
    × (fact_matches_prefix name prefix ≡ true)
    × (l ≡ length prefix)

module _ (C : Best → Type 0) (name : Text) where
  best_prefix-keeps :
      (configured : Text) (ttl : ℕ) (best : Best) (prefixes : List Text)
      → C best
      → ((p : Text)
          → Memᴰ p prefixes
          → fact_matches_prefix name p ≡ true
          → C (some (configured, ttl, length p)))
      → C (best_prefix name configured ttl best prefixes)
  unfolding best_prefix
  best_prefix-keeps configured ttl best [] h s = h
  best_prefix-keeps configured ttl best (p ∷ prefixes) h s =
      best_prefix-keeps configured ttl (pick name configured ttl best p) prefixes
        (elim (Bool-cases (fact_matches_prefix name p && longer_than (length p) (best_len best))) [
          | inl e ↦ rw e (s p (Memᴰ.head refl) (both_left _ _ e))
          | inr e ↦ rw e h
        ])
        (λ q m f. s q (Memᴰ.tail m) f)

  best_group-keeps :
      (groups : List (Text × List Text)) (best : Best) (ttls : List (Text × ℕ))
      → C best
      → ((configured : Text) (ttl : ℕ) (p : Text)
          → Memᴰ (configured, ttl) ttls
          → Memᴰ p (prefixes_of groups configured)
          → fact_matches_prefix name p ≡ true
          → C (some (configured, ttl, length p)))
      → C (best_group groups name best ttls)
  unfolding best_group
  best_group-keeps groups best [] h s = h
  best_group-keeps groups best ((c, t) ∷ ttls) h s =
      best_group-keeps groups (best_prefix name c t best (prefixes_of groups c)) ttls
        (best_prefix-keeps c t best (prefixes_of groups c) h
          (λ p m f. s c t p (Memᴰ.head refl) m f))
        (λ d u p m n f. s d u p (Memᴰ.tail m) n f)

-- No prefix that stands for a configured TTL and matches the fact is longer than the one that is
-- chosen, so that one is chosen if any matches; and a choice is a configured group with its TTL and
-- the length of a prefix that stands for it and matches the fact.
pub cache_group_for_fact-longest :
    (fc : FactCache) (name : Text)
    → All
        (λ e. All (IsWithin (cache_group_for_fact fc name) name) (prefixes_of fc.groups e.0))
        fc.ttls
      × IsChosen fc.groups fc.ttls name (cache_group_for_fact fc name)
unfolding cache_group_for_fact
cache_group_for_fact-longest fc name = (
  best_group-All fc.groups name none fc.ttls,
  best_group-keeps (IsChosen fc.groups fc.ttls name) name fc.groups none fc.ttls tt
      (λ c t p m n f. (m, p, n, f, refl)),
)
