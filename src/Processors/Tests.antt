-- ===== src/Processors/Tests.antt =====
-- Runs of what internal/engine/processors.go reads, and the theorems about it at work on a concrete
-- description.
use facts.Base.{◌≡◌, refl, [], ◌∷◌, none, some}
use facts.Base.Int.{pos}
use facts.Base.Text.{Text, text, text_eq, mem_text}
use facts.Base.Text.Number.{parse_int}
use facts.Base.Text.Split.{split}
use facts.Base.Text.Unicode.{ascii}
use facts.Processors.{
  NumberLibrary, parse_linux_processor_topology, parse_linux_processor_extensions,
}
use facts.Processors.Positive.{IsTopology, parse_linux_processor_topology-IsTopology}

abbrev numbers : NumberLibrary
numbers = record {
  trim_space = ascii.trim_space;
  fields = split b' ';
  atoi = λ s. elim (parse_int s) [ some i ↦ i | none ↦ pos 0 ];
}

abbrev cpuinfo : Text
cpuinfo =
    text
      "model name\t: X\nsiblings\t: 8\ncpu cores\t: 4\nflags : cx16 lahf_lm popcnt sse4_1 sse4_2 ssse3\n"

runs_topology : parse_linux_processor_topology numbers cpuinfo ≡ (4, 2)
unfolding parse_linux_processor_topology ascii parse_int text_eq mem_text
runs_topology = refl

-- A level is named by its own flags alone.
runs_extensions :
    parse_linux_processor_extensions numbers cpuinfo (text "x86_64")
    ≡ text "x86_64" ∷ text "x86_64-v2" ∷ []
unfolding parse_linux_processor_extensions ascii text_eq mem_text
runs_extensions = refl

parse_linux_processor_topology-IsTopology_example :
    IsTopology (parse_linux_processor_topology numbers cpuinfo)
parse_linux_processor_topology-IsTopology_example =
    parse_linux_processor_topology-IsTopology numbers cpuinfo
