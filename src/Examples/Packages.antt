-- ===== src/Examples/Packages.antt =====
-- A small package, and the theorems on manifests at it. The semantic versions are texts that match when
-- they are equal, as the `semver` crate is not modelled.
use etas.Base.{
  Text, codes, same_text, Option, none, some, true, false, Bool, List, [], ◌∷◌, ◌++◌, ◌≡◌, ◌≢◌, ◌↔◌,
  refl, replicate, is_empty, if◌then◌else◌,
}
use etas.Diagnostics.{ok}
use etas.Semver.{Semver}
use etas.Manifest.Schema.{Manifest, DependencyDetail, detailed, ToolBinding}
use etas.Manifest.Names.{
  is_valid_import_root, is_valid_github_repo, is_blake3_checksum, is_blank, is_identifier,
  is_github_name_char,
}
use etas.Manifest.Detail.{validate_detail, validate_spec}
use etas.Manifest.WellFormed.{IsValidDetail, validate_detail_iff}
use etas.Manifest.Validate.{validate}
use etas.Manifest.Shape.{IsWellFormed}
use etas.Manifest.Valid.{validate_iff}

abbrev pub plain_semver : Semver
plain_semver = record {
  Version = Text;
  VersionReq = Text;
  parse = λ t. if is_empty t then none else some t;
  parse_req = λ t. if is_empty t then none else some t;
  matches = same_text;
}

abbrev pub checksum : Text
checksum = codes "blake3:" ++ replicate 64 b'a'

abbrev pub no_detail : DependencyDetail
no_detail = record {
  package_name = none;
  version = none;
  import = none;
  path = none;
  git = none;
  github = none;
  rev = none;
  tag = none;
  branch = none;
  release = none;
  asset = none;
  checksum = none;
  registry = none;
}

abbrev pub release_detail : DependencyDetail
release_detail = record no_detail {
  github = some (codes "etas/json");
  release = some (codes "v1");
  asset = some (codes "json.tar");
  checksum = some checksum;
}

abbrev pub tool : ToolBinding
tool = record {
  kind = codes "mcp";
  provider = none;
  server = some (codes "files");
  tool = some (codes "read");
  effects = codes "fs.read" ∷ [];
  actions = [];
}

abbrev pub small_manifest : Manifest
small_manifest = record {
  package_section = record {
    name = codes "demo";
    version = codes "1.0.0";
    edition = codes "2026";
    license = none;
    description = none;
    repository = none;
  };
  source = record { root = codes "src" };
  dependencies = (codes "json", detailed release_detail) ∷ [];
  bins =
      record {
        name = codes "main";
        module_path = codes "demo.main";
        flow = codes "main";
        profile = none;
      }
      ∷ [];
  bindings = record { tools = (codes "read", tool) ∷ [] };
  runtime = record {
    default_profile = none;
    execution = record { max_call_depth = none; max_steps = none; shutdown_grace_ms = none };
    profiles = [];
  };
  reflection = record { retain_bodies = []; export_bodies = codes "demo.main" ∷ [] };
}

pub small_manifest_validates : validate plain_semver (codes "etas.toml") small_manifest ≡ ok tt
unfolding validate is_valid_import_root etas.Base.split is_identifier is_blank
    etas.Manifest.Dependency.import_root etas.Base.TreeMap.get validate_spec is_valid_github_repo
    etas.Base.split_once is_github_name_char is_blake3_checksum etas.Base.strip_prefix
small_manifest_validates = refl

validate_iff_example :
    (validate plain_semver (codes "etas.toml") small_manifest ≡ ok tt)
    ↔ IsWellFormed plain_semver small_manifest
validate_iff_example = validate_iff plain_semver (codes "etas.toml") small_manifest

validate_detail_iff_example :
    (validate_detail plain_semver (codes "json") (codes "etas.toml") release_detail ≡ [])
    ↔ IsValidDetail plain_semver release_detail
validate_detail_iff_example =
    validate_detail_iff plain_semver (codes "json") (codes "etas.toml") release_detail
