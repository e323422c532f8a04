-- ===== src/Discovery/Descriptors.antt =====
-- internal/engine/descriptors.go and internal/engine/core.go: the table of the core facts, and which
-- of its rows a discovery runs. The resolvers that a row calls are a parameter, `assemble`.
pub mod Gating
use facts.Base.{ℕ, Bool, true, false, not, List, [], ◌∷◌, ◌++◌, is_nil, any, leb, if◌then◌else◌}
use facts.Base.Text.{Text, text, text_eq, mem_text}
use facts.Fact.{ResolvedFact}
use facts.Groups.{FactGroup}

pub data SchedulingPolicy : Type 0 where
  gateable : SchedulingPolicy
  always_eager : SchedulingPolicy

-- `coreFactDescriptor`, with the name of the function that `assemble` calls, or of the fact that it
-- builds itself. A group of no name is no group.
pub record CoreFactDescriptor : Type 0 where
  pub root : Text
  pub group : Text
  pub group_order : ℕ
  pub policy : SchedulingPolicy
  pub assembler : Text
  pub emitted_roots : List Text

abbrev descriptor : Text → Text → ℕ → SchedulingPolicy → Text → List Text → CoreFactDescriptor
descriptor r g o p a e = record {
  root = r;
  group = g;
  group_order = o;
  policy = p;
  assembler = a;
  emitted_roots = e;
}

-- `coreFactDescriptors`
abbrev pub core_fact_descriptors : List CoreFactDescriptor
core_fact_descriptors =
    descriptor (text "facterversion") [] 0 always_eager (text "facterversion")
      (text "facterversion" ∷ [])
    ∷ descriptor (text "is_virtual") [] 0 always_eager (text "is_virtual") (text "is_virtual" ∷ [])
    ∷ descriptor (text "path") (text "path") 5 always_eager (text "path") (text "path" ∷ [])
    ∷ descriptor (text "virtual") [] 0 always_eager (text "virtual") (text "virtual" ∷ [])
    ∷ descriptor (text "networking") (text "networking") 2 gateable (text "networkingCoreFacts")
        (text "networking" ∷ [])
    ∷ descriptor (text "processors") (text "processor") 6 gateable (text "processorsCoreFacts")
        (text "processors" ∷ [])
    ∷ descriptor (text "memory") (text "memory") 1 gateable (text "memoryCoreFacts")
        (text "memory" ∷ [])
    ∷ descriptor (text "os") (text "operating system") 3 gateable (text "osCoreFacts")
        (text "filesystems" ∷ text "kernel" ∷ text "os" ∷ text "system_profiler" ∷ [])
    ∷ descriptor (text "dmi") [] 0 gateable (text "dmiCoreFacts") (text "dmi" ∷ [])
    ∷ descriptor (text "disks") [] 0 gateable (text "disksCoreFacts")
        (text "disks" ∷ text "mountpoints" ∷ text "partitions" ∷ text "zfs" ∷ text "zpool" ∷ [])
    ∷ descriptor (text "ssh") [] 0 gateable (text "sshCoreFacts") (text "ssh" ∷ [])
    ∷ descriptor (text "identity") [] 0 gateable (text "identityCoreFacts") (text "identity" ∷ [])
    ∷ descriptor (text "system_uptime") [] 0 gateable (text "uptimeCoreFacts")
        (text "load_averages" ∷ text "system_uptime" ∷ [])
    ∷ descriptor (text "selinux") [] 0 always_eager (text "selinuxCoreFacts") (text "os" ∷ [])
    ∷ descriptor (text "fips_enabled") [] 0 gateable (text "fipsCoreFacts")
        (text "fips_enabled" ∷ [])
    ∷ descriptor (text "timezone") [] 0 gateable (text "timezoneCoreFacts") (text "timezone" ∷ [])
    ∷ descriptor (text "augeas") [] 0 gateable (text "augeasCoreFacts") (text "augeas" ∷ [])
    ∷ descriptor (text "xen") [] 0 gateable (text "xenCoreFacts") (text "xen" ∷ [])
    ∷ descriptor (text "packages") (text "packages") 4 gateable (text "packagesCoreFacts")
        (text "packages" ∷ [])
    ∷ descriptor (text "hypervisors") [] 0 gateable (text "currentLinuxHypervisorFacts")
        (text "hypervisors" ∷ [])
    ∷ descriptor (text "hypervisors") [] 0 gateable (text "currentWindowsHypervisorFacts")
        (text "hypervisors" ∷ [])
    ∷ descriptor (text "az_metadata") [] 0 gateable (text "azureFacts")
        (text "az_metadata" ∷ text "cloud" ∷ [])
    ∷ descriptor (text "ec2_metadata") [] 0 gateable (text "ec2Facts")
        (text "cloud" ∷ text "ec2_metadata" ∷ text "ec2_userdata" ∷ [])
    ∷ descriptor (text "gce") [] 0 gateable (text "platformGCEFacts")
        (text "cloud" ∷ text "gce" ∷ [])
    ∷ []

-- `shouldRun`
unfoldable pub should_run : CoreFactDescriptor → List Text → Bool
should_run d disabled = elim d.policy [
  | always_eager ↦ true
  | gateable ↦ any (λ root. not (mem_text root disabled)) d.emitted_roots
]

-- `resolveCoreFactDescriptors`
unfoldable pub resolve_core_fact_descriptors :
    (CoreFactDescriptor → List ResolvedFact)
    → List Text
    → List CoreFactDescriptor
    → List ResolvedFact
unfolding should_run
resolve_core_fact_descriptors assemble disabled [] = []
resolve_core_fact_descriptors assemble disabled (d ∷ descriptors) =
    let rest = resolve_core_fact_descriptors assemble disabled descriptors in
    if should_run d disabled then assemble d ++ rest else rest

-- `descriptorGroupOrder`
unfoldable pub descriptor_group_order : List CoreFactDescriptor → Text → ℕ
descriptor_group_order [] name = 0
descriptor_group_order (d ∷ descriptors) name =
    if text_eq d.group name then d.group_order else descriptor_group_order descriptors name

insert_group : FactGroup → List FactGroup → List FactGroup
unfolding descriptor_group_order
insert_group g [] = g ∷ []
insert_group g (h ∷ groups) =
    let rest = insert_group g groups in
    if leb (descriptor_group_order core_fact_descriptors g.name)
      (descriptor_group_order core_fact_descriptors h.name)
    then g ∷ h ∷ groups
    else h ∷ rest

groups_of : List CoreFactDescriptor → List FactGroup
unfolding insert_group
groups_of [] = []
groups_of (d ∷ descriptors) =
    let rest = groups_of descriptors in
    if is_nil d.group
    then rest
    else insert_group (record { name = d.group; facts = d.root ∷ [] }) rest

-- `builtinFactGroupsFromDescriptors`
unfoldable pub builtin_fact_groups : List FactGroup
unfolding groups_of
builtin_fact_groups = groups_of core_fact_descriptors
