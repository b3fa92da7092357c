-- ===== src/Manifest/Valid.antt =====
-- `Manifest::validate` accepts just the well-formed manifests.
use etas.Base.{Text, Option, none, some, false, not, ◌&&◌, ◌||◌}
use etas.Base.{List, [], ◌∷◌, ◌≡◌, ◌≢◌, ◌↔◌, refl, arith, All, is_some}
use etas.Base.{contains, is_empty, same_text_iff}
use etas.Base.TreeMap.{TreeMap, get, insert, get-insert}
use etas.Base.Distinct.{Away, Distinct, Fresh, Fresh-cons, Fresh-nil, member_iff}
use etas.Diagnostics.{ok, append_iff, report_iff, concat_map_iff, iff_trans, ok_unless_iff}
use etas.Semver.{Semver}
use etas.Manifest.Schema.{
  Manifest, DependencySpec, detailed, BinTarget, ToolBinding, RuntimeProfile,
  RuntimeFilesystemProfile, RuntimeFilesystemRegionProfile, ReflectionSection, PackageSection,
}
use etas.Manifest.Names.{is_blank, is_valid_import_root}
use etas.Manifest.Grammar.{IsDottedPath, is_valid_import_root_iff}
use etas.Manifest.Dependency.{import_root}
use etas.Manifest.Detail.{validate_spec}
use etas.Manifest.WellFormed.{validate_detail_iff}
use etas.Manifest.Validate.{
  validate_items, validate_reflection, validate_package, conflict, validate_dependencies,
  validate_bins, validate_tool, validate_region, validate_filesystem, validate_profile,
  validate_all, validate,
}
use etas.Manifest.Shape.{
  IsValidSpec, IsItem, IsTool, IsRegion, IsFilesystem, IsDependency, import_roots, IsBin, bin_names,
  IsProfile, IsWellFormed,
}

spec_iff :
    (semver : Semver) (name path : Text) (spec : DependencySpec)
    → (validate_spec semver name path spec ≡ []) ↔ IsValidSpec semver spec
unfolding validate_spec
spec_iff semver name path (DependencySpec.version v) = ground arith
spec_iff semver name path (detailed d) = validate_detail_iff semver name path d

IsItem-iff :
    (e : Text) → ((not (is_valid_import_root e) || not (contains e b'.')) ≡ false) ↔ IsItem e
IsItem-iff e = ground (arith, is_valid_import_root_iff e)

root_iff : (t : Text) → (not (is_valid_import_root t) ≡ false) ↔ IsDottedPath t
root_iff t = ground (arith, is_valid_import_root_iff t)

IsBin-iff : (b : BinTarget) → ((is_blank b.module_path || is_blank b.flow) ≡ false) ↔ IsBin b
IsBin-iff b = ground arith

mixed_iff :
    {A : Type 0} (regions : List A) (mode root : Option Text)
    → ((not (is_empty regions) && (is_some mode || is_some root)) ≡ false)
      ↔ (regions ≢ [] → (mode ≡ none) × (root ≡ none))
mixed_iff [] mode root = ground arith
mixed_iff (r ∷ regions) mode root = ground arith

module _ (path : Text) where
  items_iff :
      (setting : Text) (seen entries : List Text)
      → (validate_items path setting seen entries ≡ []) ↔ (All IsItem entries × Fresh seen entries)
  unfolding validate_items
  items_iff setting seen [] = ((λ _. (tt, (tt, tt))), (λ _. refl))
  items_iff setting seen (e ∷ es) =
      let rounds =
        append_iff _ _ (report_iff _ _ (IsItem-iff e))
          (append_iff _ _ (report_iff _ _ (member_iff e seen)) (items_iff setting (e ∷ seen) es)) in
      let fresh = Fresh-cons seen e es in
      iff_trans rounds (
        (λ (i, (a, (is, f))). ((i, is), fresh.0 (a, f))),
        (λ ((i, is), f). (i, ((fresh.1 f).0, (is, (fresh.1 f).1)))),
      )

  IsTool-iff : (t : Text × ToolBinding) → (validate_tool path t ≡ []) ↔ IsTool t
  unfolding validate_tool
  IsTool-iff (tool, b) = ground arith

  IsRegion-iff :
      (profile : Text) (r : Text × RuntimeFilesystemRegionProfile)
      → (validate_region path profile r ≡ []) ↔ IsRegion r
  unfolding validate_region
  IsRegion-iff profile (region, c) = ground (arith, is_valid_import_root_iff region)

  IsFilesystem-iff :
      (profile : Text) (o : Option RuntimeFilesystemProfile)
      → (validate_filesystem path profile o ≡ []) ↔ IsFilesystem o
  unfolding validate_filesystem
  IsFilesystem-iff profile none = ((λ _. tt), (λ _. refl))
  IsFilesystem-iff profile (some f) =
      append_iff _ _ (report_iff _ _ (mixed_iff f.regions f.mode f.workspace_root))
        (concat_map_iff (validate_region path profile) f.regions (IsRegion-iff profile))

  IsProfile-iff : (p : Text × RuntimeProfile) → (validate_profile path p ≡ []) ↔ IsProfile p
  unfolding validate_profile
  IsProfile-iff (name, profile) = IsFilesystem-iff name profile.filesystem

  conflict_iff :
      (name root : Text) (o : Option Text) → (conflict path name root o ≡ []) ↔ (o ≡ none)
  conflict_iff name root none = ground arith
  conflict_iff name root (some previous) = ground arith

  dependencies_iff :
      (semver : Semver) (m : TreeMap Text) (seen : List Text) (deps : TreeMap DependencySpec)
      → ((r : Text) → (get r m ≡ none) ↔ Away seen r)
      → (validate_dependencies path semver m deps ≡ [])
        ↔ (All (IsDependency semver) deps × Fresh seen (import_roots deps))
  unfolding validate_dependencies
  dependencies_iff semver m seen [] tracks = ((λ _. (tt, (tt, tt))), (λ _. refl))
  dependencies_iff semver m seen ((name, spec) ∷ deps) tracks =
      let root = import_root spec name in
      let tracks' : (r : Text) → (get r (insert root name m) ≡ none) ↔ Away (root ∷ seen) r =
        λ r. rw get-insert (ground (arith, same_text_iff root r, tracks r)) in
      let rest = dependencies_iff semver (insert root name m) (root ∷ seen) deps tracks' in
      let rounds = append_iff _ _ (report_iff _ _ (root_iff root)) (
        append_iff _ _ (iff_trans (conflict_iff name root (get root m)) (tracks root))
          (append_iff _ _ (spec_iff semver name path spec) rest)) in
      let fresh = Fresh-cons seen root (import_roots deps) in
      iff_trans rounds (
        (λ (d, (a, (v, (ds, f)))). (((d, v), ds), fresh.0 (a, f))),
        (λ (((d, v), ds), f). (d, ((fresh.1 f).0, (v, (ds, (fresh.1 f).1))))),
      )

  bins_iff :
      (seen : List Text) (bins : List BinTarget)
      → (validate_bins path seen bins ≡ []) ↔ (All IsBin bins × Fresh seen (bin_names bins))
  unfolding validate_bins
  bins_iff seen [] = ((λ _. (tt, (tt, tt))), (λ _. refl))
  bins_iff seen (bin ∷ bins) =
      let rounds =
        append_iff _ _ (report_iff _ _ (member_iff bin.name seen))
          (append_iff _ _ (report_iff _ _ (IsBin-iff bin)) (bins_iff (bin.name ∷ seen) bins)) in
      let fresh = Fresh-cons seen bin.name (bin_names bins) in
      iff_trans rounds (
        (λ (a, (b, (bs, f))). ((b, bs), fresh.0 (a, f))),
        (λ ((b, bs), f). ((fresh.1 f).0, (b, (bs, (fresh.1 f).1)))),
      )

  package_iff :
      (semver : Semver) (p : PackageSection)
      → (validate_package path semver p ≡ []) ↔ (
          (is_blank p.name ≡ false)
          × ((is_blank p.version ≡ false) × (semver.parse p.version ≢ none)))
  unfolding validate_package
  package_iff semver p = ground arith

  reflection_iff :
      (r : ReflectionSection)
      → (validate_reflection path r ≡ []) ↔ (
          (All IsItem r.retain_bodies × Distinct r.retain_bodies)
          × (All IsItem r.export_bodies × Distinct r.export_bodies))
  unfolding validate_reflection
  reflection_iff r = append_iff _ _ (one _ r.retain_bodies) (one _ r.export_bodies)
    where
      one :
          (setting : Text) (entries : List Text)
          → (validate_items path setting [] entries ≡ []) ↔ (All IsItem entries × Distinct entries)
      one setting entries =
          let fresh = Fresh-nil entries in
          iff_trans (items_iff setting [] entries)
            ((λ (i, f). (i, fresh.0 f)), (λ (i, d). (i, fresh.1 d)))

  validate_all_iff :
      (semver : Semver) (m : Manifest) → (validate_all path semver m ≡ []) ↔ IsWellFormed semver m
  unfolding validate_all
  validate_all_iff semver m =
      let deps =
        dependencies_iff semver [] [] m.dependencies
          (λ r. unfold get in ((λ _. tt), (λ _. refl))) in
      let parts = append_iff _ _ (reflection_iff m.reflection) (
        append_iff _ _ (package_iff semver m.package_section) (
          append_iff _ _ (report_iff _ _ ((λ h. h), (λ k. k))) (
            append_iff _ _ deps (
              append_iff _ _ (bins_iff [] m.bins) (
                append_iff _ _ (concat_map_iff (validate_tool path) m.bindings.tools IsTool-iff)
                  (concat_map_iff (validate_profile path) m.runtime.profiles IsProfile-iff)))))) in
      let roots = Fresh-nil (import_roots m.dependencies) in
      let names = Fresh-nil (bin_names m.bins) in
      iff_trans parts (
        (λ ((rs, es), ((n, (v, p)), (a, ((ds, fd), ((bs, fb), (ts, ps)))))). record {
          retained = rs;
          exported = es;
          name = n;
          version = v;
          semantic = p;
          relative = a;
          dependencies = ds;
          roots = roots.0 fd;
          bins = bs;
          names = names.0 fb;
          tools = ts;
          profiles = ps;
        }),
        (λ w. (
          (w.retained, w.exported),
          (
            (w.name, (w.version, w.semantic)),
            (
              w.relative,
              (
                (w.dependencies, roots.1 w.roots),
                ((w.bins, names.1 w.names), (w.tools, w.profiles)),
              ),
            ),
          ),
        )),
      )

-- `Manifest::validate` returns `Ok` exactly for a well-formed manifest: the package has a non-blank
-- name and a semantic version; the source root is relative; every import root and every filesystem
-- region is a dotted path; every dependency specification is valid; import roots are distinct, and so
-- are bin names and the entries of each reflection list; bins name a module and a flow; every tool
-- binding has a kind, a provider and a row; and a profile's regions have a root and an authority, and
-- stand without `mode` and `workspace_root`.
pub validate_iff :
    (semver : Semver) (path : Text) (m : Manifest)
    → (validate semver path m ≡ ok tt) ↔ IsWellFormed semver m
unfolding validate
validate_iff semver path m =
    iff_trans (ok_unless_iff (validate_all path semver m) tt) (validate_all_iff path semver m)
