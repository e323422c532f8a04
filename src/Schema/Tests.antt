-- ===== src/Schema/Tests.antt =====
-- The theorems on paths at concrete inputs.
use facts.Base.{true, false, ◌≡◌, refl, [], ◌∷◌, ◌++◌}
use facts.Base.Text.Utf8.{range_text}
use facts.Base.Text.{Text, text, text_eq, mem_text}
use facts.Value.{str, obj, Fields, end, field, lookup}
use facts.Fact.Node.{node}
use facts.Schema.{flatten_tree}
use facts.Schema.Leaves.{flatten_tree-leaf}
use facts.Schema.Paths.{
  split_path, split_loop, join_escaped_segments, split_path-join_escaped_segments,
}

-- The text /mnt/e.b\c with an accent on the e, which then has two bytes.
abbrev accented : Text
accented = text "/mnt/" ++ (195 ∷ 169 ∷ text ".b\\c")

split_path-join_escaped_segments_example :
    split_path (join_escaped_segments (text "mountpoints" ∷ accented ∷ []))
    ≡ text "mountpoints" ∷ accented ∷ []
split_path-join_escaped_segments_example =
    split_path-join_escaped_segments (text "mountpoints") (accented ∷ [])
      (unfold range_text join_escaped_segments in refl)

-- A byte that begins no rune is read as U+FFFD.
invalid_run : split_path (97 ∷ 255 ∷ []) ≡ (97 ∷ 239 ∷ 191 ∷ 189 ∷ []) ∷ []
unfolding split_path
invalid_run = refl

join_run : join_escaped_segments (text "disks" ∷ text "a.b" ∷ []) ≡ text "disks.a\\.b"
unfolding join_escaped_segments
join_run = refl

abbrev small_tree : Fields
small_tree =
    field (text "disks")
      (obj (field (text "a.b") (obj (field (text "size") (str (text "1")) end)) end)) end

flatten_tree-leaf_example :
    (mem_text
        (join_escaped_segments (text "disks" ∷ text "a.b" ∷ text "size" ∷ []))
        (flatten_tree small_tree)
      ≡ true)
    × (split_loop [] false (join_escaped_segments (text "disks" ∷ text "a.b" ∷ text "size" ∷ []))
        ≡ text "disks" ∷ text "a.b" ∷ text "size" ∷ [])
flatten_tree-leaf_example =
    flatten_tree-leaf small_tree (text "disks") (text "a.b" ∷ text "size" ∷ []) (str (text "1"))
      refl (unfold node lookup text_eq in refl) refl
