-- ===== src/Groups/Environment/Tail.antt =====
-- `environmentFactName` of internal/engine/external.go against the name of the variable.
use facts.Base.{
  ℕ, zero, suc, ◌+◌, ◌-◌, ◌≡◌, refl, sym, ap, ◌∙◌, Bool, true, false, ◌⊎◌, inl, inr, List, [], ◌∷◌,
  ◌++◌, length, length-append, take, length-take, ltb, arith, Bool-cases,
}
use facts.Base.Text.{Text, has_prefix, drop_prefix, append-drop_prefix}
use facts.Base.Text.Unicode.{Unicode}
use facts.Groups.Environment.{
  returns, drop, slice_tail, is_ruby_word, EnvironmentName, prefixes, prefix_loop,
  environment_fact_name,
}

-- A name that is cut behind as many bytes as a prefix has.
abbrev pub IsBehind : Text → Text → Text → Type 0
IsBehind name prefix tail = (head : Text) × (name ≡ head ++ tail) × (length head ≡ length prefix)

-- What the first prefix of the lowered name gives: the rest of the name in its own letters, whether the
-- prefix is native, and whether the lowered rest is a word; without one, no fact.
abbrev pub IsNamed : Text → Text → EnvironmentName → List (Text × Bool) → Type 0
IsNamed name lower r [] = r ≡ record { fact_name = []; native = false; ok = false }
IsNamed name lower r ((prefix, native) ∷ rows) =
    ((has_prefix lower prefix ≡ true)
      × IsBehind name prefix r.fact_name
      × (r.native ≡ native)
      × (rest : Text) × (lower ≡ prefix ++ rest)
      × (r.ok ≡ is_ruby_word rest))
    ⊎ ((has_prefix lower prefix ≡ false) × IsNamed name lower r rows)

take-drop : (n : ℕ) (s : Text) → s ≡ take n s ++ drop n s
unfolding drop
take-drop zero s = refl
take-drop (suc n) [] = refl
take-drop (suc n) (c ∷ s) = ap (λ t. c ∷ t) (take-drop n s)

module _ (name lower : Text) (same : length lower ≡ length name) where
  rest-length :
      (prefix : Text)
      → has_prefix lower prefix ≡ true
      → length prefix + length (drop_prefix lower prefix) ≡ length name
  rest-length prefix h =
      sym (length-append prefix (drop_prefix lower prefix))
      ∙ ap length (append-drop_prefix lower prefix h)
      ∙ same

  slice_tail-IsBehind :
      (prefix : Text)
      → has_prefix lower prefix ≡ true
      → (tail : Text) × (slice_tail name (drop_prefix lower prefix) ≡ returns tail)
        × IsBehind name prefix tail
  unfolding slice_tail
  slice_tail-IsBehind prefix h =
      let rest = drop_prefix lower prefix in
      let total = rest-length prefix h in
      let inside : ltb (length name) (length rest) ≡ false = ground (arith, total) in
      let offset : length name - length rest ≡ length prefix = omega (arith, total) in
      (
        drop (length prefix) name,
        rw (inside, offset) refl,
        (
          take (length prefix) name,
          take-drop (length prefix) name,
          length-take (length prefix) name (omega (arith, total)),
        ),
      )

  prefix_loop-IsNamed :
      (rows : List (Text × Bool))
      → (r : EnvironmentName) × (prefix_loop name lower rows ≡ returns r)
        × IsNamed name lower r rows
  unfolding prefix_loop
  prefix_loop-IsNamed [] = (record { fact_name = []; native = false; ok = false }, refl, refl)
  prefix_loop-IsNamed ((prefix, native) ∷ rows) = elim (Bool-cases (has_prefix lower prefix)) [
    | inr e ↦ let (r, p, h) = prefix_loop-IsNamed rows in (r, rw (e, prefix_loop) p, inr (e, h))
    | inl e ↦
        let (tail, p, behind) = slice_tail-IsBehind prefix e in
        (
          record {
            fact_name = tail;
            native = native;
            ok = is_ruby_word (drop_prefix lower prefix);
          },
          rw (e, prefix_loop) (rw p refl),
          inl (
            e,
            behind,
            refl,
            drop_prefix lower prefix,
            sym (append-drop_prefix lower prefix e),
            refl,
          ),
        )
  ]

-- Where the lowering of a variable's name keeps its length, the name is read without a panic: by the
-- first of the four prefixes that the lowered name has, the fact's name is what stands behind as many
-- bytes of the variable's name, in its own letters, with the prefix's mark for native; it is a fact's
-- name exactly where the rest of the lowered name is a word, and no fact's name without a prefix.
pub environment_fact_name-IsNamed :
    (u : Unicode) (name : Text)
    → length (u.to_lower name) ≡ length name
    → (r : EnvironmentName) × (environment_fact_name u name ≡ returns r)
      × IsNamed name (u.to_lower name) r prefixes
unfolding environment_fact_name
environment_fact_name-IsNamed u name same = prefix_loop-IsNamed name (u.to_lower name) same prefixes
