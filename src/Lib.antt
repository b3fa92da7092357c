-- ===== src/Lib.antt =====
-- Etas is a programming language with a package manager. This library models the package manager,
-- crates/etas_package, and of the command line, crates/etas_cli, the lifecycle of a command and the
-- configuration of the host that a program is run with.
--
-- How the parts work together. A package has a manifest, `etas.toml`, which is validated when it is
-- read. Materializing its dependencies gives a package index; locking walks the index and writes a
-- lockfile, which a later compilation holds against the manifest and from which it resolves the
-- source of every dependency. The payload of a locked package is read into a snapshot, under limits
-- and against the checksum in the lockfile. Packages travel as tar archives. A command that runs a
-- program reads the host's configuration from its arguments, the profiles of the manifest and of a
-- local file, and the environment; from it come the actions that the program is granted and the
-- sandbox that it runs in. The command answers signals by stopping the run, and ends with an exit code.
--
-- Where the parts are (paths from the repository's root):
--   Manifest/Schema, Names, Dependency, Detail, Validate: crates/etas_package/src/manifest. A section
--     of the manifest is a record with the source's fields (`package` is `package_section`, `module`
--     is `module_path`), `Manifest::validate` is `validate`, and the validation of a dependency is
--     `validate_spec` and `validate_detail`. Manifest/Grammar, WellFormed and Valid say, without
--     diagnostics, what is valid, with Release and Shape for its parts.
--   Diagnostics: src/diagnostics.rs of that crate, and Rust's `Result`.
--   Semver: resolver/version.rs; the crate `semver` is a record of its operations.
--   Metadata, Lockfile: metadata/model.rs, metadata/builtin.rs and lockfile/mod.rs, as far as locking
--     reads them.
--   Resolver/Codec, Source: resolver/source.rs and the end of resolver/lock.rs: the source string of a
--     locked package, written by `lock_source` and read by `resolved_source_from_lockfile`.
--   Lock/Packages, Package, Policy: resolver/lock.rs (`insert_index_dependency`, `lock_package`),
--     resolver/lock_policy.rs (`resolve_lockfile`, `lockfile_package`) and resolver/entry.rs. The
--     state of the walk, the packages and the diagnostics so far, is the record `Locking`.
--   Snapshot, Snapshot/Reader, Locked, Budget: source_snapshot. The methods of `Reader` are actions of
--     a state monad with errors, `read_locked_package_sources` and `SourceSnapshotBudget` compose
--     them. The file system below a package root, whose answers may change from one access to the
--     next, the TOML reader and the hasher are the record `System`; the results of the caller's checkpoints are a list. Snapshot/Hoare has the rules to
--     reason on actions, Bounds and Verified what holds after them.
--   Archive/Octal, Tar: source/archive.rs: the fields and blocks of a tar archive, `append_file`,
--     `unpack_tar_bytes` and `safe_archive_path`. What a disk refuses is a parameter. Archive/Names says
--     which names `safe_archive_path` keeps as they are.
--   Registry: source/local_registry.rs: `select_registry_version`, by an order of versions that is a
--     parameter. Store: store/mod.rs: `package_store_relative_path`.
--   FileLock: file_lock.rs on Unix: `acquire_platform` and `drop` as steps of any number of acquirers.
--     A phase is a place between two accesses to the file system; an access may fail at any of them.
--     FileLock/Refines has the lock that a caller is promised, free or in the hand of one acquirer.
--   Environment/Model, Graph, Payload, Build, Finish, Fingerprint: resolver/environment.rs:
--     `build_environment` and what it calls. Environment/Agree, Verified and Resolved say what a locked
--     and a resolved dependency is, Transitive (with Walked and Clean), Found, Ends, Dependencies and
--     Sound (with Owned) that the code finds these.
--   Prepare: resolver/mod.rs: `prepare_package`, which reads the manifest, the package index and the
--     lockfile (`Inputs`), builds the environment and selects the bin. The file system and the readers of
--     TOML and JSON are the record `Files`. The panic of `build_environment` is `none`.
--   Lifecycle, Lifecycle/Run, Command: crates/etas_cli/src/exit.rs and
--     crates/etas_cli/src/command/interpreter/lifecycle: `StopState`, `drive`, `execute` and `io`.
--     What a `select!` may see is a sequence of events, so a theorem for all sequences is one for all
--     interleavings.
--   HostConfig: crates/etas_cli/src/command/interpreter/host_config.rs, with host_tool.rs and
--     host_config/compiler.rs beside it. `Host` is the record of what the host library gives, and of
--     the model adapter, whose configuration is built from that library's types. Modes, Network,
--     Tools, Policy, Compiler and Limits read the parts of a profile and of the environment; Profile
--     and Sources are `apply_runtime_profile`, Overrides is `apply_env_overrides`, Profiles is
--     `from_runtime_profile_at`, Legacy is `from_legacy_environment`, Run is
--     `runtime_config_for_run`, and Grants is the authority that `run_options` gives. A step is a
--     function from a configuration to a result, and HostConfig/Kept has the rules for what steps
--     keep; Coherent, Steady, Overridden, Settled and Started use them, Authority, Files and Backed
--     hold the grants against the sandbox. Allowlists has the set that an allowlist of endpoints is.
--   Base: bytes as texts, paths, UTF-8, maps in key order, lists that are permutations of one another
--     (Base/Counts), and the lemmas the parts share.
--   Examples: concrete inputs, and the theorems at them.
--
-- Numbers are natural numbers. `usize` has 64 bits: an addition that the source checks is checked, and
-- one that saturates does. A text is the list of its UTF-8 bytes. Of a diagnostic's message only the
-- values that it shows are kept; of an I/O, TOML or JSON error only the path.
--
-- Fuel. The loop over the directories of a payload runs on one more than the limit on entries: each
-- round sees an entry, and the limit stops the reader. Unpacking runs on one more than the bytes of
-- the archive: each round passes a block. Every other loop is a recursion on the list that it walks.
--
-- Not modelled: reading and writing TOML and JSON, compression and BLAKE3, git, HTTP and the
-- payloads of registries, the metadata artifacts of packages (public signatures and effects),
-- vendoring, the payloads of the package store, the environment of a locked snapshot, the compiler
-- driver, and of the command line its arguments, its output, the adapters of the host and the report
-- of a configuration. They are I/O around the parts above, or build on them.
pub mod Base
pub mod Diagnostics
pub mod Semver
pub mod Manifest
pub mod Metadata
pub mod Lockfile
pub mod Resolver
pub mod Snapshot
pub mod Archive
pub mod Lock
pub mod Store
pub mod FileLock
pub mod Environment
pub mod Prepare
pub mod Registry
pub mod HostConfig
pub mod Lifecycle
pub mod Examples
