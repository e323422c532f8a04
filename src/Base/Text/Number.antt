-- ===== src/Base/Text/Number.antt =====
-- `strconv.Atoi` and `strconv.ParseInt(s, 10, 64)`: an optional sign, decimal digits, 64 bits.
use facts.Base.{
  ℕ, ◌+◌, ◌-◌, ◌*◌, ◌^◌, ◌&&◌, [], ◌∷◌, Option, none, some, ltb, leb, ◌==◌, if◌then◌else◌,
}
use facts.Base.Int.{ℤ, pos, negsuc}
use facts.Base.Text.{Text}

-- The value of a run of decimal digits behind `n`.

unfoldable pub digits : ℕ → Text → Option ℕ
digits n [] = some n
digits n (c ∷ s) =
    let rest = digits (n * 10 + (c - b'0')) s in if leb b'0' c && leb c b'9' then rest else none

unfoldable pub decimal : Text → Option ℕ
unfolding digits
decimal [] = none
decimal (c ∷ s) = digits 0 (c ∷ s)

in_range : ℕ → Option ℕ → Option ℕ
in_range bound none = none
in_range bound (some n) = if ltb bound n then none else some n

negated : Option ℕ → Option ℤ
negated none = none
negated (some n) = some (if n == 0 then pos 0 else negsuc (n - 1))

positive : Option ℕ → Option ℤ
positive none = none
positive (some n) = some (pos n)

-- `none` is the error, of syntax or of range.
unfoldable pub parse_int : Text → Option ℤ
unfolding decimal in_range negated positive
parse_int [] = none
parse_int (c ∷ s) =
    if c == b'-'
    then negated (in_range (2 ^ 63) (decimal s))
    else if c == b'+'
    then positive (in_range (2 ^ 63 - 1) (decimal s))
    else positive (in_range (2 ^ 63 - 1) (decimal (c ∷ s)))
