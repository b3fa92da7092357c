-- ===== src/Manifest/Validate.antt =====
-- `Manifest::validate` and what it calls: crates/etas_package/src/manifest/mod.rs and
-- reflection.rs. A loop that pushes is a recursion that concatenates, and the sets and the map that
-- a loop fills are its arguments.
use etas.Base.{Text, codes, Option, none, some, Bool, false, not, List, [], ◌∷◌, ◌++◌}
use etas.Base.{◌&&◌, ◌||◌, is_some, is_none, is_empty, contains, if◌then◌else◌}
use etas.Base.{concat_map, ◌==◌}
use etas.Base.TreeMap.{TreeMap, get, insert}
use etas.Base.Distinct.{member}
use etas.Diagnostics.{PackageDiagnostic, PackageError, Result, report_if, ok_unless}
use etas.Semver.{Semver}
use etas.Manifest.Schema.{
  Manifest, DependencySpec, BinTarget, ToolBinding, RuntimeProfile, RuntimeFilesystemProfile,
  RuntimeFilesystemRegionProfile, ReflectionSection, PackageSection,
}
use etas.Manifest.Names.{is_blank, is_valid_import_root}
use etas.Manifest.Dependency.{import_root}
use etas.Manifest.Detail.{at_manifest, validate_spec}

-- `Path::is_absolute`, on Unix
abbrev pub is_absolute : Text → Bool
is_absolute [] = false
is_absolute (c ∷ cs) = c == b'/'

-- `match (&self.server, &self.tool)`
server_and_tool : Option Text → Option Text → Option Text
server_and_tool (some server) (some tool) =
    if not (is_blank server) && not (is_blank tool)
    then some (server ++ (codes "." ++ tool))
    else none
server_and_tool _ _ = none

unfoldable pub provider_name : ToolBinding → Option Text
unfolding server_and_tool
provider_name b = elim b.provider [
  | none ↦ server_and_tool b.server b.tool
  | some provider ↦
      if not (is_blank provider) then some provider else server_and_tool b.server b.tool
]

module _ (manifest_path : Text) where
  -- One list of `[reflection]`, named `setting`.
  unfoldable pub validate_items : Text → List Text → List Text → List PackageDiagnostic
  validate_items setting seen [] = []
  validate_items setting seen (entry ∷ entries) =
      report_if (not (is_valid_import_root entry) || not (contains entry b'.')) (
        at_manifest "package.manifest.invalid_reflection_item" (setting ∷ entry ∷ []) manifest_path)
      ++ (report_if (member entry seen) (
            at_manifest "package.manifest.duplicate_reflection_item" (setting ∷ entry ∷ [])
              manifest_path)
          ++ validate_items setting (entry ∷ seen) entries)

  unfoldable pub validate_reflection : ReflectionSection → List PackageDiagnostic
  unfolding validate_items
  validate_reflection r =
      validate_items (codes "retain_bodies") [] r.retain_bodies
      ++ validate_items (codes "export_bodies") [] r.export_bodies

  unfoldable pub validate_package : Semver → PackageSection → List PackageDiagnostic
  validate_package semver p =
      report_if (is_blank p.name) (at_manifest "package.manifest.missing_name" [] manifest_path)
      ++ (if is_blank p.version
          then at_manifest "package.manifest.missing_version" [] manifest_path ∷ []
          else report_if (is_none (semver.parse p.version)) (
              at_manifest "package.manifest.invalid_package_version" (p.version ∷ [])
                manifest_path))

  -- `if let Some(previous) = import_roots.insert(..)`
  abbrev pub conflict : Text → Text → Option Text → List PackageDiagnostic
  conflict name root none = []
  conflict name root (some previous) =
      at_manifest "package.resolver.import_root_conflict" (previous ∷ name ∷ root ∷ [])
        manifest_path
      ∷ []

  -- The loop over the dependencies. The map has the name of the last dependency of each import root.
  unfoldable pub validate_dependencies :
      Semver → TreeMap Text → TreeMap DependencySpec → List PackageDiagnostic
  validate_dependencies semver import_roots [] = []
  validate_dependencies semver import_roots ((name, dependency) ∷ rest) =
      let root = import_root dependency name in
      report_if (not (is_valid_import_root root))
        (at_manifest "package.manifest.invalid_import_root" (name ∷ root ∷ []) manifest_path)
      ++ (conflict name root (get root import_roots)
          ++ (validate_spec semver name manifest_path dependency
              ++ validate_dependencies semver (insert root name import_roots) rest))

  unfoldable pub validate_bins : List Text → List BinTarget → List PackageDiagnostic
  validate_bins bin_names [] = []
  validate_bins bin_names (bin ∷ bins) =
      report_if (member bin.name bin_names)
        (at_manifest "package.manifest.duplicate_bin" (bin.name ∷ []) manifest_path)
      ++ (report_if (is_blank bin.module_path || is_blank bin.flow)
            (at_manifest "package.manifest.invalid_bin" [] manifest_path)
          ++ validate_bins (bin.name ∷ bin_names) bins)

  unfoldable pub validate_tool : Text × ToolBinding → List PackageDiagnostic
  unfolding provider_name
  validate_tool (tool, binding) =
      report_if (is_blank binding.kind)
        (at_manifest "package.manifest.invalid_tool_binding" (tool ∷ []) manifest_path)
      ++ (report_if (is_none (provider_name binding))
            (at_manifest "package.manifest.invalid_tool_binding" (tool ∷ []) manifest_path)
          ++ report_if (is_empty binding.effects && is_empty binding.actions)
              (at_manifest "package.manifest.invalid_tool_binding" (tool ∷ []) manifest_path))

  unfoldable pub validate_region :
      Text → Text × RuntimeFilesystemRegionProfile → List PackageDiagnostic
  validate_region profile_name (region, config) =
      report_if (not (is_valid_import_root region)) (
        at_manifest "package.manifest.invalid_filesystem_region" (profile_name ∷ region ∷ [])
          manifest_path)
      ++ (report_if (is_empty config.root) (
            at_manifest "package.manifest.invalid_filesystem_region_root"
              (profile_name ∷ region ∷ []) manifest_path)
          ++ report_if (not config.read && not config.write && not config.delete) (
              at_manifest "package.manifest.empty_filesystem_region_authority"
                (profile_name ∷ region ∷ []) manifest_path))

  -- The body of the loop over the profiles; no `filesystem` is its `continue`.
  unfoldable pub validate_filesystem :
      Text → Option RuntimeFilesystemProfile → List PackageDiagnostic
  unfolding validate_region
  validate_filesystem profile_name none = []
  validate_filesystem profile_name (some filesystem) =
      report_if
        (not (is_empty filesystem.regions)
          && (is_some filesystem.mode || is_some filesystem.workspace_root))
        (at_manifest "package.manifest.mixed_filesystem_authority" (profile_name ∷ [])
          manifest_path)
      ++ concat_map (validate_region profile_name) filesystem.regions

  unfoldable pub validate_profile : Text × RuntimeProfile → List PackageDiagnostic
  unfolding validate_filesystem
  validate_profile (profile_name, profile) = validate_filesystem profile_name profile.filesystem

  unfoldable pub validate_all : Semver → Manifest → List PackageDiagnostic
  unfolding validate_reflection validate_package validate_dependencies validate_bins validate_tool
      validate_profile
  validate_all semver m =
      validate_reflection m.reflection
      ++ (validate_package semver m.package_section
          ++ (report_if (is_absolute m.source.root)
                (at_manifest "package.manifest.absolute_source_root" [] manifest_path)
              ++ (validate_dependencies semver [] m.dependencies
                  ++ (validate_bins [] m.bins
                      ++ (concat_map validate_tool m.bindings.tools
                          ++ concat_map validate_profile m.runtime.profiles)))))

unfoldable pub validate : Semver → Text → Manifest → Result PackageError (Unit {0})
unfolding validate_all
validate semver manifest_path m = ok_unless (validate_all manifest_path semver m) tt
