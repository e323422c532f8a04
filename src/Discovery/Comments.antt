-- ===== src/Discovery/Comments.antt =====
-- `stripConfigLineComments` and `skipConfigComment` of internal/engine/config.go: a config without its
-- line comments.
use facts.Base.{
  ℕ, ◌+◌, ◌≡◌, refl, Bool, true, false, ◌&&◌, ◌||◌, [], ◌∷◌, arith, ◌==◌, if◌then◌else◌, Bool-cases,
  inl, inr,
}
use facts.Base.Text.{Text}

-- Where the scanner stands: outside of quotes, in a quote (with its quotation mark, and whether a
-- backslash came before), or in a comment.
pub data Mode : Type 0 where
  plain : Mode
  quoted : ℕ → Bool → Mode
  comment : Mode

abbrev newline : ℕ
newline = b'\n'

abbrev begins_slash : Text → Bool
begins_slash [] = false
begins_slash (c ∷ s) = c == b'/'

-- The mode behind a byte that stands outside of quotes, before the text `s`.
after_plain : ℕ → Text → Mode
after_plain c s =
    if c == b'\'' || c == b'"'
    then quoted c false
    else if c == b'#' || (c == b'/' && begins_slash s)
    then comment
    else plain

after_quoted : ℕ → Bool → ℕ → Mode
after_quoted mark escaped c =
    if escaped
    then quoted mark false
    else if c == b'\\'
    then quoted mark true
    else if c == mark
    then plain
    else quoted mark false

-- A byte is written, unless a comment begins at it.
write : ℕ → Mode → Text → Text
write c comment rest = rest
write c plain rest = c ∷ rest
write c (quoted mark escaped) rest = c ∷ rest

-- The loop of `stripConfigLineComments`.
unfoldable pub strip : Mode → Text → Text
unfolding after_plain after_quoted write
strip mode [] = []
strip plain (c ∷ s) = write c (after_plain c s) (strip (after_plain c s) s)
strip (quoted mark escaped) (c ∷ s) = c ∷ strip (after_quoted mark escaped c) s
strip comment (c ∷ s) =
    let back = strip plain s in let on = strip comment s in if c == newline then c ∷ back else on

-- `stripConfigLineComments`
unfoldable pub strip_config_line_comments : Text → Text
unfolding strip
strip_config_line_comments content = strip plain content

-- The number of line ends.
abbrev pub line_ends : Text → ℕ
line_ends [] = 0
line_ends (c ∷ s) = (if c == newline then 1 else 0) + line_ends s

line_ends-write :
    (c : ℕ) (s rest : Text)
    → line_ends (write c (after_plain c s) rest) ≡ (if c == newline then 1 else 0) + line_ends rest
unfolding write after_plain
line_ends-write c s rest = elim (Bool-cases (c == b'\'' || c == b'"')) [
  | inl e ↦ rw (e, write) refl
  | inr e ↦
      rw (e, write)
        (elim (Bool-cases (c == b'#' || (c == b'/' && begins_slash s))) [
          | inl f ↦ rw (f, write) (ground arith)
          | inr f ↦ rw (f, write) refl
        ])
]

line_ends-strip : (mode : Mode) (s : Text) → line_ends (strip mode s) ≡ line_ends s
unfolding strip
line_ends-strip mode [] = refl
line_ends-strip plain (c ∷ s) =
    rw (line_ends-write c s (strip (after_plain c s) s), line_ends-strip (after_plain c s) s) refl
line_ends-strip (quoted mark escaped) (c ∷ s) =
    rw (line_ends-strip (after_quoted mark escaped c) s) refl
line_ends-strip comment (c ∷ s) = elim (Bool-cases (c == newline)) [
  | inl e ↦ rw (e, strip) (ground (arith, line_ends-strip plain s))
  | inr e ↦ rw (e, strip) (ground (arith, line_ends-strip comment s))
]

-- A config without its comments has as many line ends as it had.
pub strip_config_line_comments-line_ends :
    (content : Text) → line_ends (strip_config_line_comments content) ≡ line_ends content
unfolding strip_config_line_comments
strip_config_line_comments-line_ends content = line_ends-strip plain content
