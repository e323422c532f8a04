-- ===== src/External/Buffer/Content.antt =====
-- `limitedBuffer` of internal/engine/external.go against what was written to it in all.
use facts.Base.{
  ℕ, ◌-◌, ◌≤◌, ◌<◌, Bool, true, false, ◌≡◌, refl, sym, ap, ◌∙◌, List, [], ◌∷◌, ◌++◌, append-nil,
  append_assoc, length, length-append, take, take-all, take-append, take-append_full, length-take,
  ltb, lt→ltb, leb, is_nil, All, arith, ◌⊎◌, inl, inr, if◌then◌else◌,
}
use facts.Base.Text.{Text}
use facts.External.Buffer.{
  LimitedBuffer, mark_too_large, append_bytes, write_bytes, write_all, command_buffer,
}

abbrev pub concat : List Text → Text
concat [] = []
concat (p ∷ ps) = p ++ concat ps

abbrev holding : Text → ℕ → Bool → ℕ → LimitedBuffer
holding t limit marked n = record {
  buf = t;
  limit = limit;
  too_large = marked;
  cancel = true;
  cancels = n;
}

-- A buffer that was given a text in all: it holds what the limit lets of it.
abbrev pub given : ℕ → Text → LimitedBuffer
given limit s =
    let marked = ltb limit (length s) in
    holding (take limit s) limit marked (if marked then 1 else 0)

write_bytes-fits :
    (t p : Text) (limit : ℕ)
    → length t < limit
    → length p ≤ limit - length t
    → (write_bytes (holding t limit false 0) p).buffer ≡ holding (t ++ p) limit false 0
unfolding write_bytes append_bytes
write_bytes-fits t p limit h k = ground arith

write_bytes-overflows :
    (t p : Text) (limit : ℕ)
    → length t < limit
    → limit - length t < length p
    → (write_bytes (holding t limit false 0) p).buffer
      ≡ holding (t ++ take (limit - length t) p) limit true 1
unfolding write_bytes append_bytes mark_too_large
write_bytes-overflows t p limit h k = ground arith

write_bytes-full :
    (t p : Text) (limit : ℕ) (marked : Bool)
    → limit ≤ length t
    → (write_bytes (holding t limit marked (if marked then 1 else 0)) p).buffer
      ≡ holding t limit true 1
unfolding write_bytes mark_too_large
write_bytes-full t p limit true h = ground arith
write_bytes-full t p limit false h = ground arith

nonempty : (p : Text) → is_nil p ≡ false → 0 < length p
nonempty [] h = absurd (ground arith)
nonempty (c ∷ p) h = omega arith

leb-cases : (a b : ℕ) → ((leb a b ≡ true) × (a ≤ b)) ⊎ ((leb a b ≡ false) × (b < a))
leb-cases a b = ground arith

le→ltb : (a b : ℕ) → b ≤ a → ltb a b ≡ false
le→ltb a b h = ground arith

given-below : (limit : ℕ) (s : Text) → length s ≤ limit → given limit s ≡ holding s limit false 0
given-below limit s h = rw (take-all limit s h, le→ltb limit (length s) h) refl

given-above :
    (limit : ℕ) (s : Text) → limit < length s → given limit s ≡ holding (take limit s) limit true 1
given-above limit s h = rw (lt→ltb limit (length s) h) refl

write_bytes-given :
    (limit : ℕ) (s p : Text)
    → is_nil p ≡ false
    → (write_bytes (given limit s) p).buffer ≡ given limit (s ++ p)
write_bytes-given limit s p h = elim (leb-cases limit (length s)) [
  | inl (_, full) ↦
      write_bytes-full (take limit s) p limit (ltb limit (length s))
        (omega (arith, length-take limit s full))
      ∙ ap (λ t. holding t limit true 1) (sym (take-append_full limit s p full))
      ∙ sym (given-above limit (s ++ p) (omega (arith, length-append s p, nonempty p h)))
  | inr (_, room) ↦ elim (leb-cases (length p) (limit - length s)) [
    | inl (_, fits) ↦
        ap (λ b. (write_bytes b p).buffer) (given-below limit s (omega (arith, room)))
        ∙ write_bytes-fits s p limit room fits
        ∙ sym (given-below limit (s ++ p) (omega (arith, length-append s p, room, fits)))
    | inr (_, over) ↦
        ap (λ b. (write_bytes b p).buffer) (given-below limit s (omega (arith, room)))
        ∙ write_bytes-overflows s p limit room over
        ∙ ap (λ t. holding t limit true 1) (sym (take-append limit s p (omega (arith, room))))
        ∙ sym (given-above limit (s ++ p) (omega (arith, length-append s p, room, over)))
  ]
]

write_all-given :
    (limit : ℕ) (ps : List Text) (s : Text)
    → All (λ p. is_nil p ≡ false) ps
    → write_all (given limit s) ps ≡ given limit (s ++ concat ps)
unfolding write_all
write_all-given limit [] s h = ap (given limit) (sym (append-nil s))
write_all-given limit (p ∷ ps) s (h, hs) =
    ap (λ b. write_all b ps) (write_bytes-given limit s p h)
    ∙ write_all-given limit ps (s ++ p) hs
    ∙ ap (given limit) (append_assoc s p (concat ps))

-- A command's buffer, after writes of which none is empty: it holds the first `limit` bytes of what
-- was written, and exactly if that was more, it is marked too large and its `cancel` was called, once.
pub write_all-content :
    (limit : ℕ) (ps : List Text)
    → All (λ p. is_nil p ≡ false) ps
    → write_all (command_buffer limit) ps ≡ (
        let marked = ltb limit (length (concat ps)) in
        record {
          buf = take limit (concat ps);
          limit = limit;
          too_large = marked;
          cancel = true;
          cancels = if marked then 1 else 0;
        })
unfolding command_buffer
write_all-content limit ps h =
    ap (λ b. write_all b ps) (sym (given-below limit [] (omega arith)))
    ∙ write_all-given limit ps [] h
