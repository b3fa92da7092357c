-- ===== src/Examples/Prepared.antt =====
-- Preparing the small package, and options that name no bin of it.
use etas.Base.{Text, codes, Option, none, some, Bool, true, List, [], ◌∷◌, ◌≡◌, refl, ap, ◌∙◌}
use mathlib.Core.Option
use etas.Lock.Policy.{select_bin}
use etas.Diagnostics.{PackageError, diagnostic, Result, ok, err}
use etas.Prepare.{
  Files, PreparePackageOptions, PreparedPackage, Inputs, read_inputs, prepared, prepare_with,
  prepare_package,
}
use etas.Prepare.Sound.{IsPrepared, prepare_package-some, prepare_package_sound}
use etas.Examples.Packages.{small_manifest, plain_semver}
use etas.Examples.Locking.{demo_lockfile}
use etas.Examples.Environments.{world, index, demo_environment, demo_builds}

-- One text for every file; what it is read as depends on the reader.
abbrev files : Files Text (Unit {0})
files = record {
  canonicalize = λ p. some (codes "/demo");
  exists = λ p. true;
  is_dir = λ p. true;
  read_to_string = λ p. some (codes "text");
  lock_index = λ p. ok tt;
  manifest_from_str = λ t. some small_manifest;
  lockfile_from_str = λ t. some demo_lockfile;
  index_from_str = λ t. some index;
}

abbrev options : PreparePackageOptions
options = record { package_root = codes "."; selected_bin = some (codes "main") }

abbrev demo_package : PreparedPackage Text (Unit {0})
demo_package = record {
  package_root = codes "/demo";
  source_root = codes "/demo/src";
  manifest = small_manifest;
  selected_bin = some (record {
    name = codes "main";
    module_path = codes "demo.main";
    flow = codes "main";
    profile = none;
  });
  environment = demo_environment;
}

abbrev demo_read : Inputs Text (Unit {0})
demo_read = record {
  root = codes "/demo";
  manifest = small_manifest;
  index = some index;
  lockfile = demo_lockfile;
}

demo_inputs : read_inputs files plain_semver (codes ".") ≡ ok demo_read
unfolding read_inputs etas.Prepare.canonical_package_root etas.Prepare.read_manifest
    etas.Prepare.read_package_index etas.Prepare.read_lockfile etas.Manifest.Validate.validate
    etas.Lock.Policy.resolve_lockfile etas.Manifest.Names.is_valid_import_root etas.Base.split
    etas.Manifest.Names.is_identifier etas.Manifest.Names.is_blank
    etas.Manifest.Dependency.import_root etas.Base.TreeMap.get etas.Manifest.Detail.validate_spec
    etas.Manifest.Names.is_valid_github_repo etas.Base.split_once
    etas.Manifest.Names.is_github_name_char etas.Manifest.Names.is_blake3_checksum
    etas.Base.strip_prefix etas.Base.same_text etas.Lockfile.manifest_dependency_fingerprint
    etas.Base.join etas.Manifest.Dependency.lock_fingerprint
demo_inputs = refl

demo_prepared : prepare_package files world options ≡ some (ok demo_package)
unfolding prepare_package prepare_with prepared select_bin etas.Base.same_text
demo_prepared =
    ap (prepare_with files world (some (codes "main"))) demo_inputs
    ∙ ap (Option.map (prepared files (some (codes "main")) demo_read)) demo_builds

-- The bin of the options is looked for in the manifest.
rejects_bin :
    prepare_package files world
      (record { package_root = codes "."; selected_bin = some (codes "other") })
    ≡ some (err (diagnostic "driver.entry_missing" (codes "other" ∷ []) none))
unfolding prepare_package prepare_with prepared select_bin etas.Base.same_text
rejects_bin =
    ap (prepare_with files world (some (codes "other"))) demo_inputs
    ∙ ap (Option.map (prepared files (some (codes "other")) demo_read)) demo_builds

prepare_package-some_example :
    (r : Result PackageError (PreparedPackage Text (Unit {0}))) × (prepare_package files world
        options
      ≡ some r)
prepare_package-some_example = prepare_package-some files world options

prepare_package_sound_example : IsPrepared files world options demo_package
prepare_package_sound_example = prepare_package_sound files world options demo_package demo_prepared
