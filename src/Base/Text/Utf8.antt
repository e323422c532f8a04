-- ===== src/Base/Text/Utf8.antt =====
-- What a Go program reads when it ranges over a string: each rune that is encoded in UTF-8, and
-- U+FFFD for each byte that begins none.
use facts.Base.{ℕ, zero, suc, ◌-◌, Bool, ◌&&◌, [], ◌∷◌, leb, ◌==◌, if◌then◌else◌}
use facts.Base.Text.{Text}

abbrev between : ℕ → ℕ → ℕ → Bool
between low high c = leb low c && leb c high

-- The bytes that may stand second behind a first one: the bounds leave out what is too long, the
-- surrogates and what is beyond U+10FFFF.
abbrev second_byte : ℕ → ℕ → Bool
second_byte first c =
    if first == 224
    then between 160 191 c
    else if first == 237
    then between 128 159 c
    else if first == 240
    then between 144 191 c
    else if first == 244
    then between 128 143 c
    else between 128 191 c

three_bytes : ℕ → Text → ℕ
three_bytes a (b ∷ c ∷ s) = if second_byte a b && between 128 191 c then 3 else 0
three_bytes a s = 0

four_bytes : ℕ → Text → ℕ
four_bytes a (b ∷ c ∷ d ∷ s) =
    if second_byte a b && between 128 191 c && between 128 191 d then 4 else 0
four_bytes a s = 0

two_bytes : ℕ → Text → ℕ
two_bytes a (b ∷ s) = if second_byte a b then 2 else 0
two_bytes a s = 0

-- The number of bytes of the rune at the front; 0 where there is none.
rune_width : ℕ → Text → ℕ
unfolding two_bytes three_bytes four_bytes
rune_width a s =
    if leb a 127
    then 1
    else if between 194 223 a
    then two_bytes a s
    else if between 224 239 a
    then three_bytes a s
    else if between 240 244 a
    then four_bytes a s
    else 0

-- The runes, encoded again; the first argument is how many bytes of the current one are left.
unfoldable range_from : ℕ → Text → Text
unfolding rune_width
range_from left [] = []
range_from (suc left) (c ∷ s) = c ∷ range_from left s
range_from zero (c ∷ s) =
    let width = rune_width c s in
    let rest = range_from (width - 1) s in if width == 0 then 239 ∷ 191 ∷ 189 ∷ rest else c ∷ rest

unfoldable pub range_text : Text → Text
unfolding range_from
range_text s = range_from 0 s
