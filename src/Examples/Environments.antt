-- ===== src/Examples/Environments.antt =====
-- The environment of the small package, whose index has a dependency with a dependency of its own.
use etas.Base.{
  ℕ, Text, codes, Option, none, some, Bool, true, false, [], ◌∷◌, ◌++◌, ◌≡◌, ◌↔◌, ◌⊎◌, inl, inr,
  refl, sym, ap, ◌∙◌, arith, replicate, All, is_none,
}
use etas.Diagnostics.{ok}
use etas.Manifest.Validate.{validate}
use etas.Metadata.{
  ResolvedDependency, resolved, Dependencies, nil, cons, github_release, path, dependencies, source,
}
use etas.Store.{store_path}
use etas.Environment.Model.{
  Carried, PackageIndex, PackageEnvironmentMetadata, PackageExternalModuleMetadata,
}
use etas.Environment.Graph.{validate_transitive_lock_graph}
use etas.Environment.Payload.{validate_resolved_payload, IsPresent, validate_resolved_payload_iff}
use etas.Environment.Finish.{binding_metadata, environment}
use etas.Environment.Build.{World, build_environment}
use etas.Environment.Agree.{In, Below, key, IsLocked, IsCoherent}
use etas.Environment.Transitive.{validate_transitive_lock_graph_iff}
use etas.Environment.Dependencies.{AllResolved}
use etas.Environment.Sound.{build_environment_sound}
use etas.Examples.Packages.{plain_semver, small_manifest, checksum, tool}
use etas.Examples.Locking.{demo_lockfile}

abbrev Package : Type 0
Package = ResolvedDependency Text (Carried (Unit {0}))

abbrev no_modules : Carried (Unit {0})
no_modules = record {
  modules = [];
  rest = tt;
  effect_metadata = record { tags = []; extensions = [] };
  tool_bindings = [];
}

abbrev json_module : PackageExternalModuleMetadata
json_module = record {
  owner = none;
  id = 12;
  path = codes "json" ∷ codes "parse" ∷ [];
  exports = [];
}

abbrev util : Package
util =
    resolved (record { name = codes "util"; version = codes "1"; edition = codes "2026" }) []
      (codes "util") (path (codes "../util") checksum) nil none no_modules

abbrev json : Package
json =
    resolved (record { name = codes "json"; version = codes "1"; edition = codes "2026" }) []
      (codes "json")
      (github_release (codes "etas/json") (codes "v1") (codes "json.tar") checksum checksum
        (some (store_path (replicate 64 b'a'))))
      (cons util nil) none (record no_modules { modules = json_module ∷ [] })

abbrev pub world : World Text (Unit {0})
world = record {
  semver = plain_semver;
  std_compatibility = [];
  std_fingerprint = none;
  std_metadata = no_modules;
  default_public = tt;
  content_digest = λ d. replicate 64 b'a';
  vendor_payload = λ p. none;
  payload = λ p. some checksum;
}

abbrev pub index : PackageIndex Text (Unit {0})
index = record {
  version = 1;
  std_compatibility = [];
  identity = record { name = codes "demo"; version = codes "1.0.0"; edition = codes "2026" };
  dependencies = cons json nil;
  external_modules = [];
  public_metadata = record { modules = []; fingerprint = none; rest = tt };
  effect_metadata = record { tags = []; extensions = [] };
  tool_bindings = [];
  bins = [];
}

abbrev pub demo_environment : PackageEnvironmentMetadata Text (Unit {0})
demo_environment =
    environment tt (codes "/demo") small_manifest demo_lockfile (some index) (json ∷ [])
      (binding_metadata (codes "read") tool (codes "files.read") ∷ [])

pub demo_builds :
    build_environment world (codes "/demo") small_manifest demo_lockfile (some index)
    ≡ some (ok demo_environment)
unfolding build_environment etas.Metadata.is_builtin_package etas.Base.same_text
    etas.Environment.Build.lockfile_package_for_spec
    etas.Manifest.Dependency.package_name_constraint etas.Manifest.Dependency.import_root
    etas.Resolver.Source.spec_source_requires_exact_git_rev
    etas.Environment.Graph.validate_version_requirement etas.Manifest.Dependency.version
    etas.Environment.Build.dependency_metadata etas.Resolver.Source.resolved_source_from_lockfile
    etas.Base.strip_prefix etas.Base.split etas.Base.split_once
    etas.Resolver.Codec.decode_lock_value etas.Base.Utf8.is_utf8 etas.Resolver.Source.lock_source
    etas.Resolver.Codec.encode_lock_value validate_resolved_payload
    etas.Store.package_store_relative_path etas.Environment.Graph.validate_locked_dependency_edges
    validate_transitive_lock_graph etas.Lock.Policy.lockfile_package
    etas.Lock.Packages.dependency_lock_checksum etas.Environment.Finish.finish_environment
    etas.Manifest.Validate.provider_name etas.Manifest.Names.is_blank
    etas.Environment.Payload.validate_store_payload
demo_builds = refl

build_environment_sound_example :
    AllResolved world
      (codes "/demo")
      small_manifest
      demo_lockfile
      (some index)
      small_manifest.dependencies
      (json ∷ [])
    × All (λ m. is_none m.owner ≡ false) demo_environment.external_modules
build_environment_sound_example =
    build_environment_sound world (codes "/demo") small_manifest demo_lockfile (some index)
      demo_environment demo_builds

abbrev head : Text → ℕ
head [] = 0
head (c ∷ cs) = c

other_key : key world.content_digest json ≡ key world.content_digest util → ⊥
other_key e = absurd (omega (arith, ap head e))

coherent : IsCoherent world.content_digest json
unfolding In
coherent x y (inl a) (inl b) e = ap dependencies (a ∙ sym b)
coherent x y (inl a) (inr (inl (inl b))) e =
    absurd (other_key (sym (ap (key world.content_digest) a) ∙ e ∙ ap (key world.content_digest) b))
coherent x y (inr (inl (inl a))) (inr (inl (inl b))) e = ap dependencies (a ∙ sym b)
coherent x y (inr (inl (inl a))) (inl b) e =
    absurd
      (other_key (sym (ap (key world.content_digest) b) ∙ sym e ∙ ap (key world.content_digest) a))
coherent x y (inl a) (inr (inl (inr b))) e = elim b [ ]
coherent x y (inl a) (inr (inr b)) e = elim b [ ]
coherent x y (inr (inr a)) b e = elim a [ ]
coherent x y (inr (inl (inr a))) b e = elim a [ ]
coherent x y (inr (inl (inl a))) (inr (inl (inr b))) e = elim b [ ]
coherent x y (inr (inl (inl a))) (inr (inr b)) e = elim b [ ]

validate_transitive_lock_graph_iff_example :
    ((validate_transitive_lock_graph world.content_digest
        (codes "/demo")
        demo_lockfile
        (codes "json")
        json
        []).0
      ≡ [])
    ↔ ((x : Package) → Below x (cons util nil) → IsLocked world.content_digest demo_lockfile x)
validate_transitive_lock_graph_iff_example =
    validate_transitive_lock_graph_iff world.content_digest (codes "/demo") demo_lockfile
      (codes "json") json coherent

validate_resolved_payload_iff_example :
    (validate_resolved_payload world.vendor_payload world.payload
        (codes "/demo")
        (codes "json")
        (source json)
      ≡ ok tt)
    ↔ IsPresent world.vendor_payload world.payload (codes "/demo") (codes "json") (source json)
validate_resolved_payload_iff_example =
    validate_resolved_payload_iff world.vendor_payload world.payload (codes "/demo") (codes "json")
      (source json)
