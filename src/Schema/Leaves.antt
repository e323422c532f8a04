-- ===== src/Schema/Leaves.antt =====
-- `FlattenTree` of internal/schema/schema.go against the nodes of the tree.
use facts.Base.{
  Bool, true, false, ◌≡◌, inl, inr, refl, sym, ap, ◌∙◌, List, [], ◌∷◌, ◌++◌, append_assoc,
  append-nil, some, arith, is_nil, Bool-cases, Option-cases,
}
use facts.Base.Text.{Text, text_eq, text_eq_iff, text_eq_self, mem_text}
use facts.Base.Text.Split.{join}
use facts.Base.Text.Members.{mem-append_left, mem-append_right, mem-sort_texts}
use facts.Value.{Value, arr, strs, ints, obj, Fields, end, field, lookup}
use facts.Fact.Node.{node}
use facts.Schema.{walk, walk_fields, walk_tree, flatten_tree}
use facts.Schema.Paths.{
  dot, escape_segment, escape_segment-cons, join_path, join_escaped_segments, split_loop,
  split_loop-join_escaped_segments,
}

-- A value that is no map and no slice.
abbrev pub is_scalar : Value → Bool
is_scalar (arr vs) = false
is_scalar (strs ss) = false
is_scalar (ints ns) = false
is_scalar (obj m) = false
is_scalar _ = true

-- The path of further keys.
abbrev further : Text → List Text → Text
further prefix [] = prefix
further prefix (k ∷ ks) = further (join_path prefix k) ks

walk-scalar : (prefix : Text) (v : Value) → is_scalar v ≡ true → walk prefix v ≡ prefix ∷ []
unfolding walk
walk-scalar prefix (arr vs) h = absurd (ground arith)
walk-scalar prefix (strs ss) h = absurd (ground arith)
walk-scalar prefix (ints ns) h = absurd (ground arith)
walk-scalar prefix (obj m) h = absurd (ground arith)
walk-scalar prefix _ h = refl

mem-walk_fields :
    (t prefix k : Text) (v : Value) (m : Fields)
    → lookup k m ≡ some v
    → mem_text t (walk (join_path prefix k) v) ≡ true
    → mem_text t (walk_fields prefix m) ≡ true
unfolding walk_fields lookup
mem-walk_fields t prefix k v end h e = absurd (ground arith)
mem-walk_fields t prefix k v (field j w m) h e = elim (Bool-cases (text_eq j k)) [
  | inl same ↦
      let p : j ≡ k = (text_eq_iff j k).0 same in
      let q : w ≡ v = ground arith in
      rw p (rw q (mem-append_left t (walk (join_path prefix k) v) (walk_fields prefix m) e))
  | inr apart ↦
      mem-append_right t (walk (join_path prefix j) w) (walk_fields prefix m)
        (mem-walk_fields t prefix k v m (ground arith) e)
]

walk-obj :
    (prefix k : Text) (m : Fields) {v : Value}
    → lookup k m ≡ some v
    → walk prefix (obj m) ≡ walk_fields prefix m
unfolding walk lookup
walk-obj prefix k end h = absurd (ground arith)
walk-obj prefix k (field j w m) h = refl

mem-walk :
    (ks : List Text) (prefix : Text) (v u : Value)
    → node v ks ≡ some u
    → is_scalar u ≡ true
    → mem_text (further prefix ks) (walk prefix v) ≡ true
unfolding node
mem-walk [] prefix v u h s =
    let p : u ≡ v = ground arith in
    let q : is_scalar v ≡ true = rw (← p) s in rw (walk-scalar prefix v q) (mem_self prefix)
  where
    mem_self : (t : Text) → mem_text t (t ∷ []) ≡ true
    mem_self t = unfold mem_text in ground (arith, text_eq_self t)
mem-walk (k ∷ ks) prefix (obj m) u h s = elim (Option-cases (lookup k m)) [
  | inl e ↦ absurd (ground arith)
  | inr (v, e) ↦ rw (walk-obj prefix k m e) (
      mem-walk_fields (further (join_path prefix k) ks) prefix k v m e
        (mem-walk ks (join_path prefix k) v u (ground arith) s))
]
mem-walk (k ∷ ks) prefix _ u h s = absurd (ground arith)

mem-walk_tree :
    (t k : Text) (v : Value) (m : Fields)
    → lookup k m ≡ some v
    → mem_text t (walk (escape_segment k) v) ≡ true
    → mem_text t (walk_tree m) ≡ true
unfolding walk_tree lookup
mem-walk_tree t k v end h e = absurd (ground arith)
mem-walk_tree t k v (field j w m) h e = elim (Bool-cases (text_eq j k)) [
  | inl same ↦
      let p : j ≡ k = (text_eq_iff j k).0 same in
      let q : w ≡ v = ground arith in
      rw p (rw q (mem-append_left t (walk (escape_segment k) v) (walk_tree m) e))
  | inr apart ↦
      mem-append_right t (walk (escape_segment j) w) (walk_tree m)
        (mem-walk_tree t k v m (ground arith) e)
]

join_path-some :
    (prefix k : Text)
    → is_nil prefix ≡ false
    → join_path prefix k ≡ prefix ++ (dot ∷ escape_segment k)
unfolding join_path
join_path-some prefix k h = rw h refl

-- Keys, each escaped behind a dot.
abbrev dotted : List Text → Text
dotted [] = []
dotted (k ∷ ks) = dot ∷ (escape_segment k ++ dotted ks)

is_nil-append : (p q : Text) → is_nil p ≡ false → is_nil (p ++ q) ≡ false
is_nil-append [] q h = absurd (ground arith)
is_nil-append (c ∷ p) q h = refl

further-dotted : (ks : List Text) (p : Text) → is_nil p ≡ false → further p ks ≡ p ++ dotted ks
further-dotted [] p h = sym (append-nil p)
further-dotted (k ∷ ks) p h = rw (join_path-some p k h) (
    further-dotted ks (p ++ (dot ∷ escape_segment k)) (is_nil-append p (dot ∷ escape_segment k) h)
    ∙ append_assoc p (dot ∷ escape_segment k) (dotted ks))

join-dotted :
    (k : Text) (ks : List Text) → join_escaped_segments (k ∷ ks) ≡ escape_segment k ++ dotted ks
unfolding join_escaped_segments join
join-dotted k [] = sym (append-nil (escape_segment k))
join-dotted k (j ∷ ks) = ap (λ t. escape_segment k ++ (dot ∷ t)) (join-dotted j ks)

is_nil-escape_segment : (k : Text) → is_nil k ≡ false → is_nil (escape_segment k) ≡ false
is_nil-escape_segment [] h = absurd (ground arith)
is_nil-escape_segment (c ∷ s) h = rw (escape_segment-cons c s) (ground arith)

-- A value of the tree that is no map and no slice, and whose first key is not empty, is listed under
-- the joined path of its keys; and the loop of `splitPath` splits the bytes of that path into the
-- keys.
pub flatten_tree-leaf :
    (tree : Fields) (k : Text) (ks : List Text) (u : Value)
    → is_nil k ≡ false
    → node (obj tree) (k ∷ ks) ≡ some u
    → is_scalar u ≡ true
    → (mem_text (join_escaped_segments (k ∷ ks)) (flatten_tree tree) ≡ true)
      × (split_loop [] false (join_escaped_segments (k ∷ ks)) ≡ k ∷ ks)
flatten_tree-leaf tree k ks u n h s = (
  elim (Option-cases (lookup k tree)) [
    | inl e ↦ absurd (unfold node in ground arith)
    | inr (v, e) ↦
        let listed : mem_text (further (escape_segment k) ks) (walk_tree tree) ≡ true =
          mem-walk_tree (further (escape_segment k) ks) k v tree e
            (mem-walk ks (escape_segment k) v u (unfold node in ground arith) s) in
        let path : join_escaped_segments (k ∷ ks) ≡ further (escape_segment k) ks =
          join-dotted k ks
          ∙ sym (further-dotted ks (escape_segment k) (is_nil-escape_segment k n)) in
        rw path (
          unfold flatten_tree in
          mem-sort_texts (further (escape_segment k) ks) (walk_tree tree) ∙ listed)
  ],
  split_loop-join_escaped_segments k ks,
)
