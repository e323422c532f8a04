-- ===== src/Config/Section/Braces.antt =====
-- `configSection` of internal/engine/config.go against an independent description of braces that match.
use facts.Base.{
  ℕ, zero, suc, ◌+◌, ◌-◌, ◌≡◌, refl, sym, ap, ◌∙◌, [], ◌∷◌, ◌++◌, append-nil, Option, none, some,
  length, take, get_elem?, arith, ◌⊎◌, inl, inr,
}
use facts.Base.Text.{Text}
use facts.Base.Text.Unicode.{Unicode}
use facts.Groups.Environment.{drop}
use facts.Config.Section.{
  Found, out_of_fuel, not_found, found, config_section_open_brace, close_loop, section_text,
  section_of, config_section, enough,
}
use facts.Config.Section.Matching.{Balanced, Closes, Closed, some-injective, close_loop-Closed}
use facts.Config.Section.Opening.{AtBrace, open_loop-AtBrace}

drop-at :
    (content : Text) (i c : ℕ)
    → get_elem? content i ≡ some c
    → drop i content ≡ c ∷ drop (suc i) content
unfolding drop
drop-at [] i c h = absurd (ground (arith, h))
drop-at (x ∷ s) zero c h = ap (λ d. d ∷ s) (some-injective x c h)
drop-at (x ∷ s) (suc i) c h = drop-at s i c h

take-drop : (i : ℕ) (content : Text) → content ≡ take i content ++ drop i content
unfolding drop
take-drop zero content = refl
take-drop (suc i) [] = refl
take-drop (suc i) (c ∷ s) = ap (λ t. c ∷ t) (take-drop i s)

take-length : (a b : Text) → take (length a) (a ++ b) ≡ a
take-length [] b = refl
take-length (c ∷ a) b = ap (λ t. c ∷ t) (take-length a b)

-- What stands behind an opening brace, where a section ends.
abbrev pub SectionOf : Text → Text → Type 0
SectionOf content s =
    (s ≡ [])
    ⊎ ((before : Text) × (behind : Text) × (content ≡ before ++ (b'{' ∷ (s ++ behind)))
        × ((behind ≡ []) ⊎ ((more : Text) × (behind ≡ b'}' ∷ more) × Balanced s)))

close_loop-brace : (i : ℕ) (t : Text) → close_loop 0 i (b'{' ∷ t) ≡ close_loop 1 (suc i) t
unfolding close_loop
close_loop-brace i t = refl

minus-plus : (a b : ℕ) → (a + b) - a ≡ b
minus-plus a b = omega arith

some-text : (a b : Text) → some a ≡ some b → a ≡ b
some-text a b h = ground (arith, h)

section_text-end :
    (content : Text) (i : ℕ)
    → drop i content ≡ b'{' ∷ drop (suc i) content
    → SectionOf content (section_text content i none)
unfolding section_text
section_text-end content i p = inr (
  take i content,
  [],
  take-drop i content
      ∙ ap (λ t. take i content ++ t)
          (p ∙ ap (λ t. b'{' ∷ t) (sym (append-nil (drop (suc i) content)))),
  inl refl,
)

section_text-length :
    (content a b : Text) (i e : ℕ)
    → drop (suc i) content ≡ a ++ (b'}' ∷ b)
    → e ≡ suc i + length a
    → section_text content i (some e) ≡ a
unfolding section_text
section_text-length content a b i e h k =
    rw (h, k)
      (ap (λ n. take n (a ++ (b'}' ∷ b))) (minus-plus (suc i) (length a))
        ∙ take-length a (b'}' ∷ b))

section_text-Closed :
    (content : Text) (i e : ℕ)
    → drop i content ≡ b'{' ∷ drop (suc i) content
    → Closed 0 (suc i) (drop (suc i) content) e
    → SectionOf content (section_text content i (some e))
unfolding Closes
section_text-Closed content i e p (a, b, h, k, r) = rw (section_text-length content a b i e h k) (
    inr (
      take i content,
      b'}' ∷ b,
      take-drop i content ∙ ap (λ t. take i content ++ t) (p ∙ ap (λ t. b'{' ∷ t) h),
      inr (b, refl, r),
    ))

section_text-SectionOf :
    (content : Text) (i : ℕ) (r : Option ℕ)
    → drop i content ≡ b'{' ∷ drop (suc i) content
    → close_loop 1 (suc i) (drop (suc i) content) ≡ r
    → SectionOf content (section_text content i r)
section_text-SectionOf content i none p h = section_text-end content i p
section_text-SectionOf content i (some e) p h =
    section_text-Closed content i e p (close_loop-Closed 0 (suc i) (drop (suc i) content) e h)

section_of-SectionOf :
    (content : Text) (f : Found) (s : Text)
    → AtBrace content f
    → section_of content f ≡ some s
    → SectionOf content s
unfolding section_of
section_of-SectionOf content out_of_fuel s h e = absurd (ground (arith, e))
section_of-SectionOf content not_found s h e = inl (sym (some-text [] s e))
section_of-SectionOf content (found i) s h e =
    let p = drop-at content i b'{' h in
    rw (sym (some-text _ s e)) (
      section_text-SectionOf content i (close_loop 0 i (drop i content)) p
        (sym (ap (close_loop 0 i) p ∙ close_loop-brace i (drop (suc i) content))))

-- What `configSection` returns is empty, or it stands in the content behind an opening brace: up to
-- the end of the content, or up to a closing brace, and then the braces in it match.
pub config_section-SectionOf :
    (u : Unicode) (content name s : Text)
    → config_section u content name ≡ some s
    → SectionOf content s
unfolding config_section config_section_open_brace
config_section-SectionOf u content name s h =
    section_of-SectionOf content (config_section_open_brace u content name) s
      (open_loop-AtBrace u (enough content) content name 0 0) h
