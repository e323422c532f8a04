-- ===== src/Discovery/Cache/Accounted.antt =====
-- `ResolveFacts` of internal/engine/cache.go against the searched facts.
use mathlib.Core.List.{Perm, perm_middle}
use mathlib.Core.List.Perm
use facts.Base.{
  ◌≡◌, inl, inr, refl, false, not, ◌||◌, List, [], ◌∷◌, ◌++◌, map, arith, All, ℕ, Bool-cases,
  Option-cases, is_nil, append-nil,
}
use facts.Base.Text.{Text, text, text_eq, mem_text}
use facts.Value.{Fields, lookup}
use facts.Fact.{ResolvedFact}
use facts.Discovery.Cache.{
  CacheFiles, Resolution, CacheStep, miss, stale, hit, cache_step, resolve_loop, resolve_facts,
  keep_fact, lookup_step, cache_data_has_key_matching_fact,
}
use facts.Discovery.CacheGroups.{
  PathLibrary, FactCache, cache_group_for_resolved_fact, external_fact_in_custom_group,
}

abbrev names : List ResolvedFact → List Text
names facts = map (λ fact. fact.name) facts

abbrev pub IsNoFile : ResolvedFact → Type 0
IsNoFile fact = text_eq fact.type (text "file") ≡ false

-- The names of what remains and of what is cached.
abbrev pub named : Resolution → List Text
named r = names r.remaining ++ names r.cached

-- A fact that is not of a file is replaced by one cached fact of its name, if by any.
abbrev IsOne : ResolvedFact → CacheStep → Type 0
IsOne fact miss = Unit
IsOne fact stale = Unit
IsOne fact (hit facts) = names facts ≡ fact.name ∷ []

lookup_step-IsOne :
    (lib : PathLibrary) (fact : ResolvedFact) (content : Fields)
    → IsNoFile fact
    → IsOne fact (lookup_step lib fact content)
unfolding lookup_step
lookup_step-IsOne lib fact content n =
    rw (n, lookup_step)
      (elim (Bool-cases (not (cache_data_has_key_matching_fact lib content fact.name))) [
        | inl e ↦ rw (e, lookup_step) tt
        | inr e ↦
            rw (e, lookup_step)
              (elim (Option-cases (lookup fact.name content)) [
                | inl f ↦ rw (f, lookup_step) tt
                | inr (v, f) ↦ rw (f, lookup_step) refl
              ])
      ])

cache_step-IsOne :
    (lib : PathLibrary) (files : CacheFiles) (gone : List Text) (fact : ResolvedFact) (group : Text)
    (ttl : ℕ)
    → IsNoFile fact
    → IsOne fact (cache_step lib files gone fact group ttl)
unfolding cache_step
cache_step-IsOne lib files gone fact group ttl n =
    elim (Bool-cases
      (external_fact_in_custom_group lib fact group || not (files.fresh group ttl))) [
        | inl e ↦ rw (e, cache_step) tt
        | inr e ↦
            rw (e, cache_step)
              (elim (Bool-cases (mem_text group gone)) [
                | inl f ↦ rw (f, cache_step) tt
                | inr f ↦
                    rw (f, cache_step)
                      (elim (Option-cases (files.read group)) [
                        | inl g ↦ rw (g, cache_step) tt
                        | inr (content, g) ↦
                            rw (g, cache_step) (lookup_step-IsOne lib fact content n)
                      ])
              ])
      ]

cached-perm :
    (name : Text) (facts : List ResolvedFact) (r : Resolution) (rest : List Text)
    → names facts ≡ name ∷ []
    → Perm (named r) rest
    → Perm (names r.remaining ++ names (facts ++ r.cached)) (name ∷ rest)
cached-perm name [] r rest h p = absurd (ground arith)
cached-perm name (f ∷ []) r rest h p =
    let e : f.name ≡ name = cc in
    rw e (Perm.trans (perm_middle (names r.remaining) (names r.cached)) (Perm.cons name p))
cached-perm name (f ∷ g ∷ facts) r rest h p = absurd (ground arith)

module _ (lib : PathLibrary) (fc : FactCache) (files : CacheFiles) where
  resolve_loop-names :
      (gone : List Text) (searched : List ResolvedFact)
      → All IsNoFile searched
      → Perm (named (resolve_loop lib fc files gone searched)) (names searched)
  unfolding resolve_loop keep_fact
  resolve_loop-names gone [] h = Perm.refl []
  resolve_loop-names gone (fact ∷ searched) (n, h) =
      elim (Option-cases (cache_group_for_resolved_fact lib fc fact)) [
        | inl e ↦ rw (e, resolve_loop) (Perm.cons fact.name (resolve_loop-names gone searched h))
        | inr ((group, ttl, l), e) ↦
            rw (e, resolve_loop)
              (by_step gone fact group ttl searched (cache_step lib files gone fact group ttl) n
                (cache_step-IsOne lib files gone fact group ttl n)
                (λ g. resolve_loop-names g searched h))
      ]
    where
      by_step :
          (gone : List Text) (fact : ResolvedFact) (group : Text) (ttl : ℕ)
          (searched : List ResolvedFact) (step : CacheStep)
          → IsNoFile fact
          → IsOne fact step
          → ((g : List Text) → Perm (named (resolve_loop lib fc files g searched)) (names searched))
          → Perm
              (named (elim step [
                | miss ↦ keep_fact fact (resolve_loop lib fc files gone searched)
                | stale ↦ keep_fact fact (resolve_loop lib fc files (group ∷ gone) searched)
                | hit facts ↦
                    let r = resolve_loop lib fc files gone searched in
                    record r { cached = facts ++ r.cached }
              ]))
              (fact.name ∷ names searched)
      by_step gone fact group ttl searched miss n o ih = Perm.cons fact.name (ih gone)
      by_step gone fact group ttl searched stale n o ih = Perm.cons fact.name (ih (group ∷ gone))
      by_step gone fact group ttl searched (hit facts) n o ih =
          cached-perm fact.name facts (resolve_loop lib fc files gone searched) (names searched) o
            (ih gone)

-- Of facts that are not of files, those that remain and those that are cached bear the names of the
-- searched ones, each as often.
pub resolve_facts-names :
    (lib : PathLibrary) (fc : FactCache) (files : CacheFiles) (searched : List ResolvedFact)
    → All IsNoFile searched
    → Perm (named (resolve_facts lib fc files searched)) (names searched)
unfolding resolve_facts
resolve_facts-names lib fc files searched h = elim (Bool-cases (is_nil fc.ttls)) [
  | inl e ↦ rw (e, resolve_facts) (rw append-nil (Perm.refl (names searched)))
  | inr e ↦ rw (e, resolve_facts) (resolve_loop-names lib fc files [] searched h)
]
