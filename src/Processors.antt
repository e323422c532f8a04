-- ===== src/Processors.antt =====
-- internal/engine/processors.go: what is read of /proc/cpuinfo. `strings.TrimSpace`, `strings.Fields` and `strconv.Atoi` are parameters.
pub mod Positive
mod Tests
use facts.Base.{
  ℕ, zero, suc, ◌*◌, ◌/◌, Bool, true, false, not, ◌&&◌, ◌||◌, List, [], ◌∷◌, ◌++◌, Option, none,
  some, length, leb, ltb, is_nil, all, keep, ◌==◌, if◌then◌else◌,
}
use facts.Base.Text.{Text, text, text_eq, mem_text, has_prefix}
use facts.Base.Text.Order.{sort_texts}
use facts.Base.Text.Split.{split, cut}
use facts.Base.Int.{ℤ, pos, negsuc, pos_part}
use facts.Groups.Environment.{drop}

pub record NumberLibrary : Type 0 where
  pub trim_space : Text → Text
  pub fields : Text → List Text
  -- the value of `strconv.Atoi`, on an error too
  pub atoi : Text → ℤ

-- The trimmed key of a line `key: value`, and its value.
unfoldable pub entry : NumberLibrary → Text → Option (Text × Text)
unfolding cut
entry lib line = elim (cut b':' line) [
  | none ↦ none
  | some (key, value) ↦ some (lib.trim_space key, value)
]

-- The variables of the loop of `parseLinuxProcessorTopology`.
pub record Topology : Type 0 where
  pub cores : ℤ
  pub siblings : ℤ
  pub threads_per_core : ℤ

abbrev cores_keys : List Text
cores_keys =
    text "cpu cores"
    ∷ text "'Cores(s) per socket'"
    ∷ text "Core(s) per socket"
    ∷ text "Cores(s) per socket"
    ∷ []

abbrev threads_keys : List Text
threads_keys = text "'Thread(s) per core'" ∷ text "Thread(s) per core" ∷ []

unfoldable note_entry : NumberLibrary → Text → Text → Topology → Topology
note_entry lib key value t =
    let n = lib.atoi (lib.trim_space value) in
    if mem_text key cores_keys
    then record { cores = n; siblings = t.siblings; threads_per_core = t.threads_per_core }
    else if text_eq key (text "siblings")
    then record { cores = t.cores; siblings = n; threads_per_core = t.threads_per_core }
    else if mem_text key threads_keys
    then record { cores = t.cores; siblings = t.siblings; threads_per_core = n }
    else t

abbrev pub is_positive : ℤ → Bool
is_positive (pos n) = not (n == 0)
is_positive (negsuc n) = false

-- `max(1, n)`
abbrev pub at_least_one : ℕ → ℕ
at_least_one n = if n == 0 then 1 else n

-- The cores and the threads per core, where the variables tell them.
unfoldable pub topology_of : Topology → Option (ℕ × ℕ)
topology_of t =
    if is_positive t.cores && is_positive t.threads_per_core
    then some (pos_part t.cores, pos_part t.threads_per_core)
    else if is_positive t.cores && is_positive t.siblings
    then some (pos_part t.cores, at_least_one (pos_part t.siblings / pos_part t.cores))
    else none

unfoldable noted : NumberLibrary → Option (Text × Text) → Topology → Topology
unfolding note_entry
noted lib none t = t
noted lib (some (key, value)) t = note_entry lib key value t

unfoldable or_later : Option (ℕ × ℕ) → ℕ × ℕ → ℕ × ℕ
or_later none later = later
or_later (some found) later = found

-- A line that is no entry leaves the variables, which told nothing before it.
unfoldable pub topology_loop : NumberLibrary → Topology → List Text → ℕ × ℕ
unfolding entry noted topology_of or_later
topology_loop lib t [] = (0, 0)
topology_loop lib t (line ∷ lines) =
    let next = noted lib (entry lib line) t in
    let rest = topology_loop lib next lines in or_later (topology_of next) rest

-- `parseLinuxProcessorTopology`
unfoldable pub parse_linux_processor_topology : NumberLibrary → Text → ℕ × ℕ
unfolding topology_loop split
parse_linux_processor_topology lib input =
    topology_loop lib (record { cores = pos 0; siblings = pos 0; threads_per_core = pos 0 })
      (split b'\n' input)

-- The values of the lines with one of some keys, trimmed, where they are not empty.
unfoldable pub values_of : NumberLibrary → List Text → List Text → List Text
unfolding entry
values_of lib names [] = []
values_of lib names (line ∷ lines) =
    let rest = values_of lib names lines in
    elim (entry lib line) [
      | none ↦ rest
      | some (key, value) ↦
          if mem_text key names && not (is_nil (lib.trim_space value))
          then lib.trim_space value ∷ rest
          else rest
    ]

-- `parseLinuxProcessorModels`
unfoldable pub parse_linux_processor_models : NumberLibrary → Text → List Text
unfolding values_of split
parse_linux_processor_models lib input =
    values_of lib (text "model name" ∷ text "cpu" ∷ []) (split b'\n' input)

unfoldable pub without_repeats : List Text → List Text
without_repeats [] = []
without_repeats (t ∷ ts) =
    let rest = without_repeats ts in if mem_text t rest then rest else t ∷ rest

-- `linuxCPUEntryName`
unfoldable pub linux_cpu_entry_name : Text → Bool
unfolding drop
linux_cpu_entry_name name =
    has_prefix name (text "cpu")
    && not (is_nil (drop 3 name))
    && all (λ r. leb b'0' r && leb r b'9') (drop 3 name)

-- The package ids of the entries of /sys/devices/system/cpu; `read_id` reads an entry's.
unfoldable package_ids : NumberLibrary → (Text → Option Text) → List Text → List Text
unfolding linux_cpu_entry_name
package_ids lib read_id [] = []
package_ids lib read_id (name ∷ names) =
    let rest = package_ids lib read_id names in
    if not (linux_cpu_entry_name name) then rest else elim (read_id name) [
      | none ↦ rest
      | some data_text ↦
          if is_nil (lib.trim_space data_text) then rest else lib.trim_space data_text ∷ rest
    ]

-- `linuxProcessorPhysicalCount`; `entries` is `none` where the directory cannot be read
unfoldable pub linux_processor_physical_count :
    NumberLibrary → Text → Option (List Text) → (Text → Option Text) → ℕ
unfolding values_of without_repeats package_ids split
linux_processor_physical_count lib cpuinfo entries read_id =
    let ids = without_repeats (values_of lib (text "physical id" ∷ []) (split b'\n' cpuinfo)) in
    if not (is_nil ids) then length ids else elim entries [
      | none ↦ 0
      | some names ↦ length (without_repeats (package_ids lib read_id names))
    ]

-- `containsAll`
unfoldable pub contains_all : List Text → List Text → Bool
contains_all words needles = all (λ n. mem_text n words) needles

abbrev v1_flags : List Text
v1_flags =
    text "cmov"
    ∷ text "cx8"
    ∷ text "fpu"
    ∷ text "fxsr"
    ∷ text "lm"
    ∷ text "mmx"
    ∷ text "syscall"
    ∷ text "sse2"
    ∷ []

abbrev v2_flags : List Text
v2_flags =
    text "cx16" ∷ text "lahf_lm" ∷ text "popcnt" ∷ text "sse4_1" ∷ text "sse4_2" ∷ text "ssse3" ∷ []

abbrev v3_flags : List Text
v3_flags =
    text "abm"
    ∷ text "avx"
    ∷ text "avx2"
    ∷ text "bmi1"
    ∷ text "bmi2"
    ∷ text "f16c"
    ∷ text "fma"
    ∷ text "movbe"
    ∷ text "xsave"
    ∷ []

abbrev v4_flags : List Text
v4_flags =
    text "avx512f" ∷ text "avx512bw" ∷ text "avx512cd" ∷ text "avx512dq" ∷ text "avx512vl" ∷ []

abbrev levels : List (Text × List Text)
levels =
    (text "x86_64-v1", v1_flags)
    ∷ (text "x86_64-v2", v2_flags)
    ∷ (text "x86_64-v3", v3_flags)
    ∷ (text "x86_64-v4", v4_flags)
    ∷ []

-- The levels whose flags the words hold.
level_names : List Text → List (Text × List Text) → List Text
unfolding contains_all
level_names words [] = []
level_names words ((name, flags) ∷ rest) =
    let names = level_names words rest in if contains_all words flags then name ∷ names else names

flag_levels : NumberLibrary → List Text → List Text
unfolding entry level_names
flag_levels lib [] = []
flag_levels lib (line ∷ lines) =
    let rest = flag_levels lib lines in
    elim (entry lib line) [
      | none ↦ rest
      | some (key, value) ↦
          if text_eq key (text "flags") then level_names (lib.fields value) levels ++ rest else rest
    ]

-- `sortedProcessorExtensions`, on a set with its repeats
unfoldable pub sorted_processor_extensions : List Text → List Text
unfolding without_repeats sort_texts
sorted_processor_extensions extensions =
    sort_texts (keep (λ e. not (is_nil e)) (without_repeats extensions))

-- `parseLinuxProcessorExtensions`
unfoldable pub parse_linux_processor_extensions : NumberLibrary → Text → Text → List Text
unfolding sorted_processor_extensions flag_levels split
parse_linux_processor_extensions lib input architecture =
    if not (text_eq architecture (text "x86_64"))
    then sorted_processor_extensions (architecture ∷ [])
    else sorted_processor_extensions (architecture ∷ flag_levels lib (split b'\n' input))
