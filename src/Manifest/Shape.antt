-- ===== src/Manifest/Shape.antt =====
-- What `Manifest::validate` stands for: a well-formed manifest, part by part.
use etas.Base.{Text, Option, none, some, true, false}
use etas.Base.{List, [], ◌∷◌, ◌≡◌, ◌≢◌, ◌⊎◌, All}
use etas.Base.{contains}
use etas.Base.TreeMap.{TreeMap}
use etas.Base.Distinct.{Distinct}
use etas.Semver.{Semver}
use etas.Manifest.Schema.{
  Manifest, DependencySpec, detailed, BinTarget, ToolBinding, RuntimeProfile,
  RuntimeFilesystemProfile, RuntimeFilesystemRegionProfile,
}
use etas.Manifest.Names.{is_blank}
use etas.Manifest.Grammar.{IsDottedPath}
use etas.Manifest.Dependency.{import_root}
use etas.Manifest.WellFormed.{IsValidDetail}
use etas.Manifest.Validate.{is_absolute, provider_name}

abbrev pub IsValidSpec : Semver → DependencySpec → Type 0
IsValidSpec semver (DependencySpec.version v) = (is_blank v ≡ false) × (semver.parse_req v ≢ none)
IsValidSpec semver (detailed d) = IsValidDetail semver d

abbrev pub IsItem : Text → Type 0
IsItem t = IsDottedPath t × (contains t b'.' ≡ true)

abbrev pub IsTool : Text × ToolBinding → Type 0
IsTool (tool, b) =
    (is_blank b.kind ≡ false) × (provider_name b ≢ none) × ((b.effects ≢ []) ⊎ (b.actions ≢ []))

abbrev pub IsRegion : Text × RuntimeFilesystemRegionProfile → Type 0
IsRegion (region, c) =
    IsDottedPath region × (c.root ≢ []) × ((c.read ≡ true) ⊎ (c.write ≡ true) ⊎ (c.delete ≡ true))

abbrev pub IsFilesystem : Option RuntimeFilesystemProfile → Type 0
IsFilesystem none = Unit
IsFilesystem (some f) =
    (f.regions ≢ [] → (f.mode ≡ none) × (f.workspace_root ≡ none)) × All IsRegion f.regions

abbrev pub IsDependency : Semver → Text × DependencySpec → Type 0
IsDependency semver (name, spec) = IsDottedPath (import_root spec name) × IsValidSpec semver spec

abbrev pub import_roots : TreeMap DependencySpec → List Text
import_roots [] = []
import_roots ((name, spec) ∷ rest) = import_root spec name ∷ import_roots rest

abbrev pub IsBin : BinTarget → Type 0
IsBin bin = (is_blank bin.module_path ≡ false) × (is_blank bin.flow ≡ false)

abbrev pub bin_names : List BinTarget → List Text
bin_names [] = []
bin_names (bin ∷ bins) = bin.name ∷ bin_names bins

abbrev pub IsProfile : Text × RuntimeProfile → Type 0
IsProfile (name, profile) = IsFilesystem profile.filesystem

-- What `validate` stands for.
pub record IsWellFormed (semver : Semver) (m : Manifest) : Type 0 where
  pub retained : All IsItem m.reflection.retain_bodies × Distinct m.reflection.retain_bodies
  pub exported : All IsItem m.reflection.export_bodies × Distinct m.reflection.export_bodies
  pub name : is_blank m.package_section.name ≡ false
  pub version : is_blank m.package_section.version ≡ false
  pub semantic : semver.parse m.package_section.version ≢ none
  pub relative : is_absolute m.source.root ≡ false
  pub dependencies : All (IsDependency semver) m.dependencies
  pub roots : Distinct (import_roots m.dependencies)
  pub bins : All IsBin m.bins
  pub names : Distinct (bin_names m.bins)
  pub tools : All IsTool m.bindings.tools
  pub profiles : All IsProfile m.runtime.profiles
