-- ===== src/Networking/Dhclient/Escapes.antt =====
-- `dhclientQuotedStringValue` of internal/engine/networking.go against strings that are written as
-- plain pieces with escapes between them.
use facts.Base.{
  ℕ, Bool, true, false, not, ◌&&◌, ◌≡◌, refl, ap, ◌∙◌, List, [], ◌∷◌, ◌++◌, all, arith,
  append_assoc, append-nil, ◌==◌, if◌then◌else◌,
}
use facts.Base.Text.{Text}
use facts.Networking.Dhclient.{
  is_line_end, closed, read_value, quoted_value, dhclient_quoted_string_value,
}

abbrev is_plain : ℕ → Bool
is_plain c = not (c == b'"') && not (c == b'\\') && not (is_line_end c)

-- Bytes without quotes, backslashes and line ends.
abbrev pub IsPlain : Text → Type 0
IsPlain s = all is_plain s ≡ true

-- Bytes that a backslash stands before, each with the plain piece behind it.
abbrev pub Escapes : Type 0
Escapes = List (ℕ × Text)

abbrev pub AreEscapes : Escapes → Type 0
AreEscapes [] = Unit
AreEscapes ((c, piece) ∷ more) = (is_line_end c ≡ false) × IsPlain piece × AreEscapes more

-- The string between its quotes.
unfoldable pub written : Text → Escapes → Text
written piece [] = piece
written piece ((c, next) ∷ more) = piece ++ (b'\\' ∷ c ∷ written next more)

-- The escaped bytes and the last piece.
unfoldable pub escaped_and_last : Text → Escapes → Text
escaped_and_last piece [] = piece
escaped_and_last piece ((c, next) ∷ more) = c ∷ escaped_and_last next more

-- The first piece, the escaped bytes and the last piece.
unfoldable pub without_middle : Text → Escapes → Text
unfolding escaped_and_last
without_middle piece [] = piece
without_middle piece ((c, next) ∷ more) = piece ++ (c ∷ escaped_and_last next more)

module _ (escaped : Bool) (out : Text) where
  quoted-end :
      (chunk rest : Text)
      → quoted_value escaped out chunk (b'"' ∷ rest) ≡ closed (read_value escaped out chunk) rest
  unfolding quoted_value
  quoted-end chunk [] = refl
  quoted-end chunk (d ∷ rest) = refl

  quoted-escape :
      (chunk : Text) (c : ℕ) (t : Text)
      → is_line_end c ≡ false
      → quoted_value escaped out chunk (b'\\' ∷ c ∷ t)
        ≡ quoted_value true ((if escaped then out else out ++ chunk) ++ (c ∷ [])) [] t
  unfolding quoted_value
  quoted-escape chunk c t h = rw (h, quoted_value) refl

  quoted-step :
      (chunk : Text) (c d : ℕ) (t : Text)
      → is_plain c ≡ true
      → quoted_value escaped out chunk (c ∷ d ∷ t)
        ≡ quoted_value escaped out (chunk ++ (c ∷ [])) (d ∷ t)
  unfolding quoted_value
  quoted-step chunk c d t h =
      let line : is_line_end c ≡ false = ground (arith, h) in
      let slash : (c == b'\\') ≡ false = ground (arith, h) in
      let quote : (c == b'"') ≡ false = ground (arith, h) in
      rw (line, slash, quote, quoted_value) refl

IsPlain-head : (c : ℕ) (s : Text) → IsPlain (c ∷ s) → (is_plain c ≡ true) × IsPlain s
IsPlain-head c s h = ground (arith, h)

-- A plain piece is passed over byte by byte.
quoted-plain :
    (escaped : Bool) (out chunk piece : Text) (d : ℕ) (t : Text)
    → IsPlain piece
    → quoted_value escaped out chunk (piece ++ (d ∷ t))
      ≡ quoted_value escaped out (chunk ++ piece) (d ∷ t)
quoted-plain escaped out chunk [] d t h = rw append-nil refl
quoted-plain escaped out chunk (c ∷ []) d t h =
    quoted-step escaped out chunk c d t (IsPlain-head c [] h).0
quoted-plain escaped out chunk (c ∷ b ∷ piece) d t h =
    quoted-step escaped out chunk c b (piece ++ (d ∷ t)) (IsPlain-head c (b ∷ piece) h).0
    ∙ quoted-plain escaped out (chunk ++ (c ∷ [])) (b ∷ piece) d t (IsPlain-head c (b ∷ piece) h).1
    ∙ ap (λ x. quoted_value escaped out x (d ∷ t)) (append_assoc chunk (c ∷ []) (b ∷ piece))

-- Behind the first escape.
quoted-written :
    (out piece : Text) (escapes : Escapes) (rest : Text)
    → IsPlain piece
    → AreEscapes escapes
    → quoted_value true out [] (written piece escapes ++ (b'"' ∷ rest))
      ≡ closed (out ++ escaped_and_last piece escapes) rest
unfolding written escaped_and_last read_value
quoted-written out piece [] rest h hs =
    quoted-plain true out [] piece b'"' rest h ∙ quoted-end true out piece rest
quoted-written out piece ((c, next) ∷ more) rest h (line, plain, hs) =
    ap (quoted_value true out []) (append_assoc piece (b'\\' ∷ c ∷ written next more) (b'"' ∷ rest))
    ∙ quoted-plain true out [] piece b'\\' (c ∷ (written next more ++ (b'"' ∷ rest))) h
    ∙ quoted-escape true out piece c (written next more ++ (b'"' ∷ rest)) line
    ∙ quoted-written (out ++ (c ∷ [])) next more rest plain hs
    ∙ ap (λ x. closed x rest) (append_assoc out (c ∷ []) (escaped_and_last next more))

-- A quoted string of plain pieces, without quotes, backslashes and line ends, and of escaped bytes
-- between them that are no line ends, reads as its first piece, all the escaped bytes and its last
-- piece, so that the plain bytes between two escapes are lost; what is behind the closing quote is
-- left.
pub dhclient_quoted_string_value-written :
    (piece : Text) (escapes : Escapes) (rest : Text)
    → IsPlain piece
    → AreEscapes escapes
    → dhclient_quoted_string_value (b'"' ∷ (written piece escapes ++ (b'"' ∷ rest)))
      ≡ closed (without_middle piece escapes) rest
unfolding dhclient_quoted_string_value written without_middle read_value
dhclient_quoted_string_value-written piece [] rest h hs =
    quoted-plain false [] [] piece b'"' rest h ∙ quoted-end false [] piece rest
dhclient_quoted_string_value-written piece ((c, next) ∷ more) rest h (line, plain, hs) =
    ap (quoted_value false [] []) (append_assoc piece (b'\\' ∷ c ∷ written next more) (b'"' ∷ rest))
    ∙ quoted-plain false [] [] piece b'\\' (c ∷ (written next more ++ (b'"' ∷ rest))) h
    ∙ quoted-escape false [] piece c (written next more ++ (b'"' ∷ rest)) line
    ∙ quoted-written (piece ++ (c ∷ [])) next more rest plain hs
    ∙ ap (λ x. closed x rest) (append_assoc piece (c ∷ []) (escaped_and_last next more))
