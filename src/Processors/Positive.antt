-- ===== src/Processors/Positive.antt =====
-- `parseLinuxProcessorTopology` of internal/engine/processors.go: the range of its results.
use facts.Base.{
  ℕ, ◌/◌, ◌<◌, Bool, true, ◌&&◌, ◌≡◌, refl, List, [], ◌∷◌, Option, none, some, Bool-cases, arith,
  ◌⊎◌, inl, inr,
}
use facts.Base.Text.{Text}
use facts.Base.Text.Split.{split}
use facts.Base.Int.{ℤ, pos, negsuc, pos_part}
use facts.Processors.{
  NumberLibrary, Topology, is_positive, at_least_one, topology_of, entry, noted, or_later,
  topology_loop, parse_linux_processor_topology,
}

-- No cores and no threads, or some of both.
abbrev pub IsTopology : ℕ × ℕ → Type 0
IsTopology (cores, threads) = ((cores ≡ 0) × (threads ≡ 0)) ⊎ ((0 < cores) × (0 < threads))

positive-part : (i : ℤ) → is_positive i ≡ true → 0 < pos_part i
positive-part (pos n) h = ground (arith, h)
positive-part (negsuc n) h = absurd (ground (arith, h))

positive-at_least_one : (n : ℕ) → 0 < at_least_one n
positive-at_least_one n = ground arith

both : (a b : Bool) → (a && b) ≡ true → (a ≡ true) × (b ≡ true)
both a b h = ground (arith, h)

-- What is found is positive.
abbrev IsFound : Option (ℕ × ℕ) → Type 0
IsFound none = Unit
IsFound (some (cores, threads)) = (0 < cores) × (0 < threads)

topology_of-IsFound : (t : Topology) → IsFound (topology_of t)
unfolding topology_of
topology_of-IsFound t = elim (Bool-cases (is_positive t.cores && is_positive t.threads_per_core)) [
  | inl e ↦
      let h = both (is_positive t.cores) (is_positive t.threads_per_core) e in
      rw (e, IsFound) (positive-part t.cores h.0, positive-part t.threads_per_core h.1)
  | inr e ↦ elim (Bool-cases (is_positive t.cores && is_positive t.siblings)) [
    | inl s ↦
        let h = both (is_positive t.cores) (is_positive t.siblings) s in
        rw (e, s, IsFound)
          (
            positive-part t.cores h.0,
            positive-at_least_one (pos_part t.siblings / pos_part t.cores),
          )
    | inr s ↦ rw (e, s, IsFound) tt
  ]
]

or_later-IsTopology :
    (o : Option (ℕ × ℕ)) (later : ℕ × ℕ)
    → IsFound o
    → IsTopology later
    → IsTopology (or_later o later)
unfolding or_later
or_later-IsTopology none later f h = h
or_later-IsTopology (some (cores, threads)) later f h = inr f

topology_loop-IsTopology :
    (lib : NumberLibrary) (t : Topology) (lines : List Text)
    → IsTopology (topology_loop lib t lines)
unfolding topology_loop
topology_loop-IsTopology lib t [] = inl (refl, refl)
topology_loop-IsTopology lib t (line ∷ lines) =
    let next = noted lib (entry lib line) t in
    or_later-IsTopology (topology_of next) (topology_loop lib next lines) (topology_of-IsFound next)
      (topology_loop-IsTopology lib next lines)

-- The numbers of cores and of threads per core that are read of a processor's description are both
-- zero or both positive, whatever the description holds.
pub parse_linux_processor_topology-IsTopology :
    (lib : NumberLibrary) (input : Text) → IsTopology (parse_linux_processor_topology lib input)
unfolding parse_linux_processor_topology
parse_linux_processor_topology-IsTopology lib input =
    topology_loop-IsTopology lib
      (record { cores = pos 0; siblings = pos 0; threads_per_core = pos 0 }) (split b'\n' input)
