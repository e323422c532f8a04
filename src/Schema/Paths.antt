-- ===== src/Schema/Paths.antt =====
-- internal/schema/schema.go: paths of facts as texts, joined by dots, with escaped dots and backslashes.
use facts.Base.{
  ℕ, Bool, true, false, ◌≡◌, refl, sym, ap, ◌∙◌, List, [], ◌∷◌, ◌++◌, append_assoc, append-nil, map,
  arith, is_nil, ◌==◌, if◌then◌else◌, Bool-cases, inl, inr,
}
use facts.Base.Text.{Text}
use facts.Base.Text.Split.{join}
use facts.Base.Text.Utf8.{range_text}

abbrev pub backslash : ℕ
backslash = b'\\'

abbrev pub dot : ℕ
dot = b'.'

-- `strings.ReplaceAll(s, old, new)` at a text of one byte
unfoldable pub replace_byte : ℕ → Text → Text → Text
replace_byte old new [] = []
replace_byte old new (c ∷ s) =
    let rest = replace_byte old new s in if c == old then new ++ rest else c ∷ rest

-- `escapeSegment`
unfoldable pub escape_segment : Text → Text
unfolding replace_byte
escape_segment segment =
    replace_byte dot (backslash ∷ dot ∷ [])
      (replace_byte backslash (backslash ∷ backslash ∷ []) segment)

-- `joinPath`
unfoldable pub join_path : Text → Text → Text
unfolding escape_segment
join_path prefix key =
    if is_nil prefix then escape_segment key else prefix ++ (dot ∷ escape_segment key)

-- `joinEscapedSegments`
unfoldable pub join_escaped_segments : List Text → Text
unfolding join escape_segment
join_escaped_segments segments = join dot (map escape_segment segments)

-- The loop of `splitPath` on the runes of a path, written out again, with the segment so far and whether a `\` came before.
unfoldable pub split_loop : Text → Bool → Text → List Text
split_loop segment escaped [] = (if escaped then segment ++ backslash ∷ [] else segment) ∷ []
split_loop segment true (r ∷ path) = split_loop (segment ++ r ∷ []) false path
split_loop segment false (r ∷ path) =
    let escape = split_loop segment true path in
    let next = split_loop [] false path in
    let on = split_loop (segment ++ r ∷ []) false path in
    if r == backslash then escape else if r == dot then segment ∷ next else on

-- `splitPath`
unfoldable pub split_path : Text → List Text
unfolding split_loop range_text
split_path path = split_loop [] false (range_text path)

pub escape_segment-cons :
    (c : ℕ) (s : Text)
    → escape_segment (c ∷ s) ≡ (
        if c == backslash
        then backslash ∷ backslash ∷ escape_segment s
        else if c == dot
        then backslash ∷ dot ∷ escape_segment s
        else c ∷ escape_segment s)
unfolding escape_segment
escape_segment-cons c s = ground arith

-- Reading one escaped byte adds the byte.
split_loop-byte :
    (c : ℕ) (s done rest : Text)
    → split_loop done false (escape_segment (c ∷ s) ++ rest)
      ≡ split_loop (done ++ c ∷ []) false (escape_segment s ++ rest)
unfolding split_loop
split_loop-byte c s done rest = elim (Bool-cases (c == backslash)) [
  | inl e ↦
      let p : backslash ≡ c = ground arith in
      rw (escape_segment-cons c s, e)
        (ap (λ b. split_loop (done ++ b ∷ []) false (escape_segment s ++ rest)) p)
  | inr e ↦ elim (Bool-cases (c == dot)) [
    | inl f ↦
        let p : dot ≡ c = ground arith in
        rw (escape_segment-cons c s, e, f)
          (ap (λ b. split_loop (done ++ b ∷ []) false (escape_segment s ++ rest)) p)
    | inr f ↦ rw (escape_segment-cons c s, e, f) (rw (e, f, split_loop) refl)
  ]
]

-- Reading an escaped segment adds the segment.
split_loop-escape :
    (segment done rest : Text)
    → split_loop done false (escape_segment segment ++ rest)
      ≡ split_loop (done ++ segment) false rest
split_loop-escape [] done rest = rw append-nil (unfold escape_segment in refl)
split_loop-escape (c ∷ s) done rest =
    split_loop-byte c s done rest
    ∙ split_loop-escape s (done ++ c ∷ []) rest
    ∙ ap (λ d. split_loop d false rest) (append_assoc done (c ∷ []) s)

split_loop-join :
    (done s : Text) (segments : List Text)
    → split_loop done false (join_escaped_segments (s ∷ segments)) ≡ (done ++ s) ∷ segments
unfolding join_escaped_segments
split_loop-join done s [] =
    ap (split_loop done false) (sym (append-nil (escape_segment s)))
    ∙ split_loop-escape s done []
    ∙ unfold split_loop in refl
split_loop-join done s (r ∷ segments) =
    split_loop-escape s done (dot ∷ join_escaped_segments (r ∷ segments))
    ∙ next (done ++ s) (split_loop-join [] r segments)
  where
    next :
        (d : Text)
        → split_loop [] false (join_escaped_segments (r ∷ segments)) ≡ r ∷ segments
        → split_loop d false (dot ∷ join_escaped_segments (r ∷ segments)) ≡ d ∷ r ∷ segments
    next d h = unfold split_loop in ap (λ t. d ∷ t) h

pub split_loop-join_escaped_segments :
    (s : Text) (segments : List Text)
    → split_loop [] false (join_escaped_segments (s ∷ segments)) ≡ s ∷ segments
split_loop-join_escaped_segments s segments = split_loop-join [] s segments

-- Splitting a path gives back the segments that it was joined of, also where they hold dots and
-- backslashes, if the path is valid UTF-8: if ranging over it reads its own bytes.
pub split_path-join_escaped_segments :
    (s : Text) (segments : List Text)
    → range_text (join_escaped_segments (s ∷ segments)) ≡ join_escaped_segments (s ∷ segments)
    → split_path (join_escaped_segments (s ∷ segments)) ≡ s ∷ segments
unfolding split_path
split_path-join_escaped_segments s segments valid =
    ap (split_loop [] false) valid ∙ split_loop-join [] s segments
