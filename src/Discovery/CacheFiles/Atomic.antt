-- ===== src/Discovery/CacheFiles/Atomic.antt =====
-- `writeCacheFile` of internal/engine/cache.go against a reader that looks between its calls.
use facts.Base.{
  false, ◌≡◌, refl, ap, ◌∙◌, List, [], ◌∷◌, Option, none, some, Option-cases, Bool-cases, take, All,
  arith, inl, inr, if◌then◌else◌,
}
use facts.Base.Text.{Text, text_eq, text_eq_iff, text_eq_self}
use facts.Discovery.CacheFiles.{
  Files, read_file, remove_file, set_file, rename_file, WriteError, WriteRun, Writing, cleanup,
  give_up, finish, write_cache_file,
}

read-remove_same : (p : Text) (files : Files) → read_file p (remove_file p files) ≡ none
unfolding read_file remove_file
read-remove_same p [] = refl
read-remove_same p ((q, c) ∷ files) = ground (arith, read-remove_same p files)

pub read-remove_other :
    (p q : Text) (files : Files)
    → text_eq p q ≡ false
    → read_file q (remove_file p files) ≡ read_file q files
unfolding read_file remove_file
read-remove_other p q [] h = refl
read-remove_other p q ((r, c) ∷ files) h = elim (Bool-cases (text_eq r p)) [
  | inl e ↦
      rw (e, (ap (λ t. text_eq t q) ((text_eq_iff r p).0 e) ∙ h)) (read-remove_other p q files h)
  | inr e ↦
      rw (e, read_file)
        (ap (λ t. if text_eq r q then some c else t) (read-remove_other p q files h))
]

read-set_same : (p c : Text) (files : Files) → read_file p (set_file p c files) ≡ some c
unfolding read_file set_file
read-set_same p c files = rw (text_eq_self p) refl

pub read-set_other :
    (p q c : Text) (files : Files)
    → text_eq p q ≡ false
    → read_file q (set_file p c files) ≡ read_file q files
unfolding read_file set_file
read-set_other p q c files h = rw h (read-remove_other p q files h)

-- What stands under a path behind `writeCacheFile`: the new content, or after an error what stood there.
abbrev pub Ends : Text → Text → Files → Files → Option WriteError → Type 0
Ends path content files after none = read_file path after ≡ some content
Ends path content files after (some e) = read_file path after ≡ read_file path files

-- What a reader of a path finds: between the calls what stood there, and then the end.
abbrev pub IsAtomic : Text → Text → Files → Writing → Type 0
IsAtomic path content files w =
    All (λ f. read_file path f ≡ read_file path files) w.between
    × Ends path content files w.files w.error

pub read-cleanup :
    (run : WriteRun) (q : Text) (files : Files)
    → text_eq run.tmp_path q ≡ false
    → read_file q (cleanup run files) ≡ read_file q files
unfolding cleanup
read-cleanup run q files h = elim (Bool-cases run.removed) [
  | inl e ↦ rw e (read-remove_other run.tmp_path q files h)
  | inr e ↦ rw e refl
]

pub read-rename_other :
    (old new q : Text) (files : Files)
    → text_eq old q ≡ false
    → text_eq new q ≡ false
    → read_file q (rename_file old new files) ≡ read_file q files
unfolding rename_file
read-rename_other old new q files h k = elim (Option-cases (read_file old files)) [
  | inl e ↦ rw (e, rename_file) refl
  | inr (c, e) ↦
      rw (e, rename_file)
        (read-set_other new q c (remove_file old files) k ∙ read-remove_other old q files h)
]

read-rename_new :
    (old new c : Text) (files : Files)
    → read_file old files ≡ some c
    → read_file new (rename_file old new files) ≡ some c
unfolding rename_file
read-rename_new old new c files h =
    rw (h, rename_file) (read-set_same new c (remove_file old files))

module _ (run : WriteRun) (path content : Text) (files : Files)
    (apart : text_eq run.tmp_path path ≡ false) where
  give_up-IsAtomic :
      (between : List Files) (f : Files) (e : WriteError)
      → All (λ g. read_file path g ≡ read_file path files) between
      → read_file path f ≡ read_file path files
      → IsAtomic path content files (give_up run between f e)
  unfolding give_up
  give_up-IsAtomic between f e h k = (h, read-cleanup run path f apart ∙ k)

  finish-IsAtomic :
      (between : List Files) (f : Files)
      → All (λ g. read_file path g ≡ read_file path files) between
      → read_file path f ≡ read_file path files
      → read_file run.tmp_path f ≡ some content
      → IsAtomic path content files (finish run path between f)
  unfolding finish
  finish-IsAtomic between f h k t = elim (Option-cases run.chmod) [
    | inr (e, c) ↦ rw (c, finish) (give_up-IsAtomic between f e h k)
    | inl c ↦ elim (Option-cases run.close) [
      | inr (e, d) ↦ rw (c, d, finish) (give_up-IsAtomic between f e h k)
      | inl d ↦ elim (Option-cases run.rename) [
        | inr (e, r) ↦ rw (c, d, r, finish) (give_up-IsAtomic between f e h k)
        | inl r ↦ rw (c, d, r, finish) (h, read-rename_new run.tmp_path path content f t)
      ]
    ]
  ]

  -- Whatever call of `writeCacheFile` fails, a reader of the path never finds a part of the content, if
  -- the temporary file has another path: between the calls it finds what stood there before, and then
  -- the whole content if there was no error, or else again what stood there.
  pub write_cache_file-IsAtomic :
      IsAtomic path content files (write_cache_file run path content files)
  unfolding write_cache_file
  write_cache_file-IsAtomic =
      let kept : (c : Text)
          → read_file path (set_file run.tmp_path c files) ≡ read_file path files =
        λ c. read-set_other run.tmp_path path c files apart in
      elim (Option-cases run.create) [
        | inr (e, c) ↦ rw (c, write_cache_file) (tt, refl)
        | inl c ↦ elim (Option-cases run.write_data) [
          | inr ((n, e), d) ↦
              rw (c, d, write_cache_file)
                (give_up-IsAtomic
                  (set_file run.tmp_path [] files
                    ∷ set_file run.tmp_path (take n content) files
                    ∷ [])
                  (set_file run.tmp_path (take n content) files) e
                  (kept [], (kept (take n content), tt)) (kept (take n content)))
          | inl d ↦
              rw (c, d, write_cache_file)
                (finish-IsAtomic
                  (set_file run.tmp_path [] files ∷ set_file run.tmp_path content files ∷ [])
                  (set_file run.tmp_path content files) (kept [], (kept content, tt)) (kept content)
                  (read-set_same run.tmp_path content files))
        ]
      ]
