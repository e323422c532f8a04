-- ===== src/Discovery/CacheFiles/Elsewhere.antt =====
-- `CacheFacts` of internal/engine/cache.go against the files that are none of the cache's.
use facts.Base.{
  ℕ, false, ◌||◌, ◌≡◌, refl, ◌∙◌, List, [], ◌∷◌, Option, none, some, Option-cases, Bool-cases, take,
  inl, inr, is_nil,
}
use facts.Base.Int.{pos}
use facts.Base.Text.{Text, text, text_eq}
use facts.Value.{Fields, int, put}
use facts.Fact.{ResolvedFact}
use facts.Discovery.CacheGroups.{FactCache}
use facts.Discovery.CacheFiles.{
  Files, read_file, set_file, WriteRun, Writing, give_up, finish, write_cache_file, CacheHost,
  CacheStat, missing, expired, fresh_file, cache_file_path, stat_step, should_write_cache, Grouped,
  group_facts, group_ttl, Cached, write_group, after_write, write_groups, cache_facts,
}
use facts.Discovery.CacheFiles.Atomic.{
  read-remove_other, read-set_other, read-cleanup, read-rename_other,
}

module _ (run : WriteRun) (path q : Text) (tmp : text_eq run.tmp_path q ≡ false)
    (apart : text_eq path q ≡ false) where
  finish-elsewhere :
      (between : List Files) (f : Files)
      → read_file q (finish run path between f).files ≡ read_file q f
  unfolding finish give_up
  finish-elsewhere between f = elim (Option-cases run.chmod) [
    | inr (e, c) ↦ rw (c, finish) (read-cleanup run q f tmp)
    | inl c ↦ elim (Option-cases run.close) [
      | inr (e, d) ↦ rw (c, d, finish) (read-cleanup run q f tmp)
      | inl d ↦ elim (Option-cases run.rename) [
        | inr (e, r) ↦ rw (c, d, r, finish) (read-cleanup run q f tmp)
        | inl r ↦ rw (c, d, r, finish) (read-rename_other run.tmp_path path q f tmp apart)
      ]
    ]
  ]

  write-elsewhere :
      (content : Text) (files : Files)
      → read_file q (write_cache_file run path content files).files ≡ read_file q files
  unfolding write_cache_file give_up
  write-elsewhere content files = elim (Option-cases run.create) [
    | inr (e, c) ↦ rw (c, write_cache_file) refl
    | inl c ↦ elim (Option-cases run.write_data) [
      | inr ((n, e), d) ↦
          rw (c, d, write_cache_file)
            (read-cleanup run q (set_file run.tmp_path (take n content) files) tmp
              ∙ read-set_other run.tmp_path q (take n content) files tmp)
      | inl d ↦
          rw (c, d, write_cache_file)
            (finish-elsewhere _ (set_file run.tmp_path content files)
              ∙ read-set_other run.tmp_path q content files tmp)
    ]
  ]

module _ (h : CacheHost) (q : Text)
    (tmp : (path : Text) → text_eq (h.write_run path).tmp_path q ≡ false)
    (outside : (group path : Text)
      → cache_file_path h group ≡ some path
      → text_eq path q ≡ false) where
  stat_step-elsewhere :
      (path : Text) (content : Fields) (files : Files) (stat : CacheStat)
      → text_eq path q ≡ false
      → read_file q (stat_step h path content files stat).1 ≡ read_file q files
  unfolding stat_step
  stat_step-elsewhere path content files missing apart = refl
  stat_step-elsewhere path content files fresh_file apart = refl
  stat_step-elsewhere path content files expired apart = elim (Bool-cases (h.can_remove path)) [
    | inl e ↦ rw e (read-remove_other path q files apart)
    | inr e ↦ rw e refl
  ]

  should_write-elsewhere :
      (group : Text) (ttl : ℕ) (content : Fields) (files : Files)
      → read_file q (should_write_cache h group ttl content files).1 ≡ read_file q files
  unfolding should_write_cache
  should_write-elsewhere group ttl content files = elim (Option-cases (cache_file_path h group)) [
    | inl e ↦ rw (e, should_write_cache) refl
    | inr (path, e) ↦
        rw (e, should_write_cache)
          (stat_step-elsewhere path content files (h.stat path ttl) (outside group path e))
  ]

  abbrev Kept : Files → Option Writing → Type 0
  Kept files none = Unit
  Kept files (some w) = read_file q w.files ≡ read_file q files

  write_group-Kept :
      (group : Text) (content : Fields) (files : Files)
      → Kept files (write_group h group content files)
  unfolding write_group
  write_group-Kept group content files = elim (Option-cases (h.encode content)) [
    | inl e ↦ rw (e, Kept) tt
    | inr (t, e) ↦ elim (Option-cases (cache_file_path h group)) [
      | inl p ↦ rw (e, p, Kept) refl
      | inr (path, p) ↦
          rw (e, p, Kept)
            (write-elsewhere (h.write_run path) path q (tmp path) (outside group path p) t files)
    ]
  ]

  -- A step of the loop, with what the loop leaves behind it.
  after_write-elsewhere :
      (o : Option Writing) (files : Files) (next : Files → Cached)
      → ((f : Files) → read_file q (next f).files ≡ read_file q f)
      → Kept files o
      → read_file q (after_write o files next).files ≡ read_file q files
  unfolding after_write
  after_write-elsewhere none files next k h = refl
  after_write-elsewhere (some w) files next k h = elim (Option-cases w.error) [
    | inl e ↦ rw (e, after_write) (k w.files ∙ h)
    | inr (x, e) ↦ rw (e, after_write) h
  ]

  write_groups-elsewhere :
      (fc : FactCache) (grouped : Grouped) (files : Files)
      → read_file q (write_groups h fc grouped files).files ≡ read_file q files
  unfolding write_groups
  write_groups-elsewhere fc [] files = refl
  write_groups-elsewhere fc ((group, content) ∷ grouped) files =
      let wanted = should_write_cache h group (group_ttl group fc.ttls) content files in
      let marked = put (text "cache_format_version") (int (pos 1)) content in
      elim (Bool-cases wanted.0) [
        | inr e ↦ rw e (
            write_groups-elsewhere fc grouped wanted.1
            ∙ should_write-elsewhere group (group_ttl group fc.ttls) content files)
        | inl e ↦ rw e (
            after_write-elsewhere (write_group h group marked wanted.1) wanted.1
              (write_groups h fc grouped) (λ f. write_groups-elsewhere fc grouped f)
              (write_group-Kept group marked wanted.1)
            ∙ should_write-elsewhere group (group_ttl group fc.ttls) content files)
      ]

  -- `CacheFacts` leaves every file as it is that is neither the cache file of a group with a safe name
  -- nor one of its temporary files, whatever calls fail.
  pub cache_facts-elsewhere :
      (fc : FactCache) (facts : List ResolvedFact) (files : Files)
      → read_file q (cache_facts h fc facts files).files ≡ read_file q files
  unfolding cache_facts
  cache_facts-elsewhere fc facts files =
      elim (Bool-cases
        (is_nil h.dir || is_nil fc.ttls || is_nil (group_facts h.paths fc [] facts))) [
          | inl e ↦ rw e refl
          | inr e ↦ rw e (elim (Option-cases h.mkdir) [
            | inr (x, m) ↦ rw (m, cache_facts) refl
            | inl m ↦
                rw (m, cache_facts)
                  (write_groups-elsewhere fc (group_facts h.paths fc [] facts) files)
          ])
        ]
