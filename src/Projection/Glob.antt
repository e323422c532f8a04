-- ===== src/Projection/Glob.antt =====
-- The pattern that `factMatchesQuery` builds of a fact name by `regexp.QuoteMeta`, where `.*` stays
-- a wildcard, and its match from end to end. `.` of a regular expression is any byte but a newline.
pub mod Wildcard
use facts.Base.{
  ◌≢◌, inl, inr, Bool-cases, ℕ, Bool, true, false, not, ◌&&◌, List, [], ◌∷◌, ◌≡◌, ◌↔◌, refl, arith,
  ◌==◌, if◌then◌else◌,
}
use facts.Base.Text.{Text}

pub data Piece : Type 0 where
  byte : ℕ → Piece
  wildcard : Piece

-- `strings.ReplaceAll(regexp.QuoteMeta(name), "\\.\\*", ".*")`, piece by piece
unfoldable pub glob : Text → List Piece
glob [] = []
glob (c ∷ []) = byte c ∷ []
glob (c ∷ d ∷ s) =
    let wild = wildcard ∷ glob s in
    let plain = byte c ∷ glob (d ∷ s) in if c == b'.' && d == b'*' then wild else plain

-- A wildcard takes nothing, or one byte more.
unfoldable pub glob_match : List Piece → Text → Bool
glob_match [] [] = true
glob_match [] (c ∷ s) = false
glob_match (byte b ∷ g) [] = false
glob_match (byte b ∷ g) (c ∷ s) = b == c && glob_match g s
glob_match (wildcard ∷ g) [] = glob_match g []
glob_match (wildcard ∷ g) (c ∷ s) = elim (glob_match g (c ∷ s)) [
  | true ↦ true
  | false ↦ not (c == b'\n') && glob_match (wildcard ∷ g) s
]
