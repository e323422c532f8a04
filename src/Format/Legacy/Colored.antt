-- ===== src/Format/Legacy/Colored.antt =====
-- internal/engine/formatter.go: the legacy text of a projection, by its shape.
use facts.Base.{Bool, false, [], ◌∷◌, ◌++◌, Option, none, some, map, ◌==◌, if◌then◌else◌}
use facts.Base.Int.{pos}
use facts.Base.Text.{Text, text, has_prefix}
use facts.Base.Text.Split.{split, join}
use facts.Groups.Environment.{drop}
use facts.Value.{Value, null, str, Fields, end, field}
use facts.Projection.{OutputShape}
use facts.Format.Plain.{View}
use facts.Format.Legacy.{
  LegacyLibrary, is_regexp_space, hash_to_facter_format, legacy_collection_text,
}

-- What is before and behind the last quote of a line.
unfoldable cut_last_quote : Text → Option (Text × Text)
cut_last_quote [] = none
cut_last_quote (c ∷ s) = elim (cut_last_quote s) [
  | some (a, b) ↦ some (c ∷ a, b)
  | none ↦ if c == b'"' then some ([], s) else none
]

-- The line without its last quote, or else another.
without_last_quote : Text → Text → Text → Text
unfolding cut_last_quote
without_last_quote head s line = elim (cut_last_quote s) [
  | none ↦ line
  | some (a, b) ↦ head ++ (a ++ b)
]

-- The longest run without spaces, and what is behind it.
cut_run : Text → Text × Text
cut_run [] = ([], [])
cut_run (c ∷ s) =
    let (run, rest) = cut_run s in if is_regexp_space c then ([], c ∷ s) else (c ∷ run, rest)

-- `legacyTopLevelStringRE` in a line, which becomes `$1 => $2`
unfoldable pub top_level_string : Text → Text
unfolding cut_run without_last_quote drop
top_level_string line =
    let (run, rest) = cut_run line in
    if has_prefix rest (text " => \"")
    then without_last_quote (run ++ text " => ") (drop 5 rest) line
    else line

-- `legacySingleQueryQuoteRE` in a line, which becomes `$1`
unfoldable pub single_query_quote : Text → Text
unfolding without_last_quote
single_query_quote [] = []
single_query_quote (c ∷ s) = if c == b'"' then without_last_quote [] s (c ∷ s) else c ∷ s

-- A pattern that stays within a line, over the lines of a text.
by_line : (Text → Text) → Text → Text
unfolding split join
by_line f s = join b'\n' (map f (split b'\n' s))

-- `legacySingleQueryText`
unfoldable pub legacy_single_query_text : LegacyLibrary → Value → Bool → Text
unfolding hash_to_facter_format single_query_quote by_line
legacy_single_query_text lib null colorize = []
legacy_single_query_text lib (str s) colorize = s
legacy_single_query_text lib v colorize =
    by_line single_query_quote (hash_to_facter_format lib v colorize (pos 0))

unfoldable pub blank_nulls : Fields → Fields
blank_nulls end = end
blank_nulls (field k null m) = field k (str []) (blank_nulls m)
blank_nulls (field k v m) = field k v (blank_nulls m)

-- `FormatLegacyColored`
unfoldable pub format_legacy_colored : LegacyLibrary → View → Bool → Text
unfolding legacy_collection_text legacy_single_query_text blank_nulls top_level_string by_line
format_legacy_colored lib v colorize = elim v.shape [
  | OutputShape.empty ↦ []
  | OutputShape.full_tree ↦ legacy_collection_text lib v.full_tree colorize
  | OutputShape.single_query ↦ legacy_single_query_text lib v.single_query colorize
  | OutputShape.multi_query ↦
      by_line top_level_string (legacy_collection_text lib (blank_nulls v.multi_query) colorize)
]

-- `FormatLegacy`
unfoldable pub format_legacy : LegacyLibrary → View → Text
unfolding format_legacy_colored
format_legacy lib v = format_legacy_colored lib v false
