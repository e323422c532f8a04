-- ===== src/Lib.antt =====
-- Facts: system facts as a structured tree.
--
-- The program gathers facts (name, value) from the system, from files and from the environment,
-- merges them into one tree by the dots of their names, and answers queries of it. Parts, with the
-- sources that they model:
--
-- - Base: lists over native numbers, Go strings as lists of bytes and the functions of the package
--   `strings` (Base/Text). What rests on the tables of Unicode (lowering, folding, trimming of
--   spaces, the runes of a string) is a parameter, the record `Unicode`; texts are valid UTF-8, but
--   for the split of a path, which Base/Text/Utf8 reads rune by rune.
-- - Value: the dynamic values of facts. A Go map is an association list, in the order of one
--   iteration over it.
-- - Fact (internal/engine/fact.go): `ResolvedFact`; `insert` is `insert` and returns the map as it is
--   after the call; `dig_value` is `digValue`; Fact/Collect is `collectFacts`. The tree shares the
--   maps of the facts: `places` records where a fact's map went, and `facts_after` reads the facts
--   as later insertions have changed them. Fact/Node is an independent reading of paths.
-- - Projection (internal/engine/projection.go): selection (`findFactIn`), lookup, strict mode and the
--   shape of the output; Projection/Glob is the regular expression that a name with `.*` becomes, with
--   what Go's package `regexp` does with such an expression.
-- - External (internal/engine/external.go): Env is `loadExternalEnvFacts`; Lines is
--   `parseKeyValueFacts`; Values normalizes what the decoders give; Buffer is `limitedBuffer`; Files
--   and Commands are `loadExternalFactFile` with what it calls, and Loader is `load` with its two
--   loops and modes. What the loader asks of the system, of the YAML and JSON decoders and of running
--   commands is the record `Host`. A result carries the messages to the session.
-- - Config (internal/engine/config.go): `configSection` over indices, its loops on fuel: one more than
--   the length of the content, since each round moves the index on.
-- - Format (internal/engine/formatter.go): Yaml, Hocon and Legacy, where the regular expressions are
--   written as scans. Go's printers of numbers and quoted strings are the record `FormatLibrary`, its
--   encoder of JSON the record `LegacyLibrary`.
-- - Groups (internal/engine/groups.go and the disable control of internal/engine/external.go): fact
--   groups, the disabled names that they expand to, the filter of facts and the pruning of values,
--   times to live, and the names of environment variables. `hierarchy_loop` runs on fuel, one round
--   more than the name has bytes; each round shortens the name.
-- - Discovery: the table of core facts and its gate (internal/engine/descriptors.go, core.go), the
--   plan of a discovery and its disabled set (discovery_plan.go, config.go, defaults.go, engine.go),
--   the snapshot (snapshot.go) and the choice of cached facts (cache.go, in
--   Discovery/Cache and Discovery/CacheGroups) and their writing (Discovery/CacheFiles, where the file
--   system is a list of paths and `WriteRun` says which call fails); Discovery/Run is `Discover`
--   from the gathered facts on, Discovery/Fingerprint the memo of the core facts of a session, and
--   Discovery/Comments the scanner of comments of the config file. The resolvers of the core
--   facts, the parser of the config file, the file system, `path/filepath` and `regexp` are
--   parameters.
-- - Networking (internal/engine/networking.go): the lease files of dhclient, where an index is the text
--   behind it and a loop passes over bytes by a count, and the source addresses of routes.
-- - Processors (internal/engine/processors.go): what is read of /proc/cpuinfo on Linux.
-- - Statfs (internal/engine/statfs_math.go): products of `uint64` that saturate; the largest `int` is
--   a parameter.
-- - Cli (internal/cli): the table of options, their lookup, the preparation and the validation of the
--   arguments.
-- - Schema (internal/schema/schema.go): paths with escaped dots, and which entries cover which paths.
--
-- Integers of Go are natural or integer numbers, with the wrap-around written out where a product
-- can leave the type (Groups/Ttl, Statfs). A copy of a value is the value. Diagnostics are left out
-- but in External, and errors are values without their texts.
--
-- Not modelled: the resolvers of the core facts but for what Networking and Processors read (files,
-- commands, registries, metadata services), the regular expressions of the config file, the concurrency
-- of `Discover`, and the application's wiring.
pub mod Base
pub mod Value
pub mod Fact
pub mod Processors
pub mod Projection
pub mod Statfs
pub mod Groups
pub mod Networking
pub mod Cli
pub mod Config
pub mod Schema
pub mod Discovery
pub mod External
pub mod Format
