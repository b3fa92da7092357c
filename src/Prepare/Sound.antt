-- ===== src/Prepare/Sound.antt =====
-- What a prepared package is, whatever the file system has and does.
use etas.Base.{codes, Text, Option, some, true, not, [], ◌≡◌, ◌⊎◌, inl, inr, refl, sym, ap, ◌∙◌}
use mathlib.Core.Path.{subst, transport}
use mathlib.Core.Option
use mathlib.Core.Option.{some-injective}
use etas.Diagnostics.{PackageError, io, manifest_error, Result, ok, err, ok_or, fail_if}
use etas.Semver.{Semver}
use etas.Manifest.Schema.{Manifest}
use etas.Manifest.Validate.{validate}
use etas.Manifest.Shape.{IsWellFormed}
use etas.Manifest.Valid.{validate_iff}
use etas.Lockfile.{Lockfile}
use etas.Lock.Policy.{resolve_lockfile, select_bin}
use etas.Environment.Model.{PackageIndex, PackageEnvironmentMetadata}
use etas.Environment.Payload.{join_path}
use etas.Environment.Build.{World}
use etas.Environment.Owned.{map-some}
use etas.Environment.Dependencies.{AllResolved}
use etas.Environment.Sound.{build_environment-some, build_environment_sound}
use etas.Prepare.{
  Files, PreparePackageOptions, PreparedPackage, Inputs, read_manifest, canonical_package_root,
  read_inputs, prepared, prepare_with, prepare_package, read_package_index, read_lockfile,
  read_text,
}
use etas.Prepare.Parts.{
  bind-eq-ok, ok-injective, refused_lem, ok_or-eq-ok, IsAccepted, resolve_lockfile-IsAccepted,
  resolve_lockfile-cases, IsSelected, select_bin-IsSelected,
}

module _ {K P : Type 0} (files : Files K P) where
  read_manifest-IsWellFormed :
      (semver : Semver) (root : Text) (m : Manifest)
      → read_manifest files semver root ≡ ok m
      → (path : Text) × (validate semver path m ≡ ok tt)
  unfolding read_manifest
  read_manifest-IsWellFormed semver root m h =
      let path = join_path root (codes "etas.toml") in
      let (text, _, k) = bind-eq-ok (read_text files path) _ m h in
      let (m', _, v) =
        bind-eq-ok (ok_or (files.manifest_from_str text) (manifest_error path)) _ m k in
      let (u, w, e) = bind-eq-ok (validate semver path m') _ m v in
      (path, subst (λ x. validate semver path x ≡ ok tt) (ok-injective m' m e) w)

  -- The index is the one of the package, and the packages of the lockfile are those of its file.
  abbrev pub IsLocated : Text → Option (PackageIndex K P) → Lockfile → Type 0
  IsLocated root index lockfile =
      (read_package_index files root ≡ ok index)
      × ((read_lockfile files root ≡ ok (some lockfile)) ⊎ (lockfile.packages ≡ []))

  -- What is read before an environment is built.
  pub record AreRead (semver : Semver) (package_root : Text) (inputs : Inputs K P) : Type 0 where
    pub canonical : files.canonicalize package_root ≡ some inputs.root
    pub well_formed : IsWellFormed semver inputs.manifest
    pub accepted : IsAccepted inputs.manifest inputs.lockfile
    pub located : IsLocated inputs.root inputs.index inputs.lockfile

  read_inputs-AreRead :
      (semver : Semver) (package_root : Text) (inputs : Inputs K P)
      → read_inputs files semver package_root ≡ ok inputs
      → AreRead semver package_root inputs
  unfolding read_inputs canonical_package_root
  read_inputs-AreRead semver package_root inputs h =
      let (root, a, h1) = bind-eq-ok (canonical_package_root files package_root) _ inputs h in
      let (m, b, h2) = bind-eq-ok (read_manifest files semver root) _ inputs h1 in
      let (index, c, h3) = bind-eq-ok (read_package_index files root) _ inputs h2 in
      let (found, f, h4) = bind-eq-ok (read_lockfile files root) _ inputs h3 in
      let (lockfile, d, h5) = bind-eq-ok (resolve_lockfile root m found) _ inputs h4 in
      let e =
        ok-injective (record { root = root; manifest = m; index = index; lockfile = lockfile })
          inputs h5 in
      let (path, v) = read_manifest-IsWellFormed semver root m b in
      subst (AreRead semver package_root) e (record {
        canonical = ok_or-eq-ok (files.canonicalize package_root) (io package_root) root a;
        well_formed = (validate_iff semver path m).0 v;
        accepted = resolve_lockfile-IsAccepted root m found lockfile d;
        located = (
          c,
          elim (resolve_lockfile-cases root m found lockfile d) [
            | inl q ↦ inl (f ∙ ap ok q)
            | inr q ↦ inr q
          ],
        );
      })

  read_inputs_validates :
      (semver : Semver) (package_root : Text) (inputs : Inputs K P)
      → read_inputs files semver package_root ≡ ok inputs
      → validate semver [] inputs.manifest ≡ ok tt
  read_inputs_validates semver package_root inputs h =
      (validate_iff semver [] inputs.manifest).1
        (read_inputs-AreRead semver package_root inputs h).well_formed

  -- Whatever the file system holds and the arguments are, preparing a package ends with a package or an
  -- error: the `expect` of `finish_environment` is never met, since the manifest was validated.
  pub prepare_package-some :
      (world : World K P) (options : PreparePackageOptions)
      → (r : Result PackageError (PreparedPackage K P)) × (prepare_package files world options
          ≡ some r)
  unfolding prepare_package prepare_with
  prepare_package-some world options =
      ends (read_inputs files world.semver options.package_root) refl
    where
      ends :
          (r : Result PackageError (Inputs K P))
          → read_inputs files world.semver options.package_root ≡ r
          → (x : Result PackageError (PreparedPackage K P)) × (prepare_with files world
                options.selected_bin r
              ≡ some x)
      ends (err e) read = (err e, refl)
      ends (ok inputs) read =
          let (r, e) =
            build_environment-some world inputs.root inputs.manifest inputs.lockfile inputs.index []
              (read_inputs_validates world.semver options.package_root inputs read) in
          (
            prepared files options.selected_bin inputs r,
            ap (Option.map (prepared files options.selected_bin inputs)) e,
          )

  -- What a prepared package is.
  pub record IsPrepared (world : World K P) (options : PreparePackageOptions)
      (p : PreparedPackage K P) : Type 0 where
    pub canonical : files.canonicalize options.package_root ≡ some p.package_root
    pub well_formed : IsWellFormed world.semver p.manifest
    pub source : p.source_root ≡ join_path p.package_root p.manifest.source.root
    pub directory : files.is_dir p.source_root ≡ true
    pub bin : IsSelected p.manifest options.selected_bin p.selected_bin
    pub resolved :
        (lockfile : Lockfile) × (index : Option (PackageIndex K P)) × IsAccepted p.manifest lockfile
        × IsLocated p.package_root index lockfile
        × AllResolved world p.package_root p.manifest lockfile index p.manifest.dependencies
            p.environment.dependencies

  prepared-eq-ok :
      (selected : Option Text) (inputs : Inputs K P)
      (built : Result PackageError (PackageEnvironmentMetadata K P)) (p : PreparedPackage K P)
      → prepared files selected inputs built ≡ ok p
      → (built ≡ ok p.environment)
        × (inputs.root ≡ p.package_root)
        × (inputs.manifest ≡ p.manifest)
        × IsSelected inputs.manifest selected p.selected_bin
        × (join_path inputs.root inputs.manifest.source.root ≡ p.source_root)
        × (files.is_dir p.source_root ≡ true)
  unfolding prepared
  prepared-eq-ok selected inputs built p h =
      let (environment, a, h1) = bind-eq-ok built _ p h in
      let (bin, b, h2) = bind-eq-ok (select_bin inputs.manifest selected) _ p h1 in
      let (u, c, h3) =
        bind-eq-ok
          (fail_if (not (files.is_dir (join_path inputs.root inputs.manifest.source.root))) _) _ p
          h2 in
      let whole = ok-injective _ p h3 in
      (
        a ∙ ap (λ (q : PreparedPackage K P). ok q.environment) whole,
        ap (λ (q : PreparedPackage K P). q.package_root) whole,
        ap (λ (q : PreparedPackage K P). q.manifest) whole,
        subst (IsSelected inputs.manifest selected)
            (ap (λ (q : PreparedPackage K P). q.selected_bin) whole)
            (select_bin-IsSelected inputs.manifest selected bin b),
        ap (λ (q : PreparedPackage K P). q.source_root) whole,
        subst (λ x. files.is_dir x ≡ true) (ap (λ (q : PreparedPackage K P). q.source_root) whole)
            (refused_lem (files.is_dir (join_path inputs.root inputs.manifest.source.root)) _ _ c),
      )

  -- Whatever package is prepared, its root is the canonical one, its manifest is well formed, its sources
  -- are in the directory that the manifest names, its bin is the one of the options, by name or flow, or the
  -- default entry; and its dependencies are those of the manifest, in order, each resolved against the index
  -- of the package and a lockfile that is accepted for the manifest, and whose packages, if any, are those of
  -- the lockfile on the disk.
  pub prepare_package_sound :
      (world : World K P) (options : PreparePackageOptions) (p : PreparedPackage K P)
      → prepare_package files world options ≡ some (ok p)
      → IsPrepared world options p
  unfolding prepare_package prepare_with
  prepare_package_sound world options p h =
      from (read_inputs files world.semver options.package_root) refl h
    where
      from :
          (r : Result PackageError (Inputs K P))
          → read_inputs files world.semver options.package_root ≡ r
          → prepare_with files world options.selected_bin r ≡ some (ok p)
          → IsPrepared world options p
      from (err e) read k = absurd (cc (some-injective (err e) (ok p) k))
      from (ok inputs) read k =
          let (built, e, k') = map-some (prepared files options.selected_bin inputs) _ _ k in
          let (env, root, m, bin, source, directory) =
            prepared-eq-ok options.selected_bin inputs built p k' in
          let read' = read_inputs-AreRead world.semver options.package_root inputs read in
          let (all, _) =
            build_environment_sound world inputs.root inputs.manifest inputs.lockfile inputs.index
              p.environment (e ∙ ap some env) in
          record {
            canonical = read'.canonical ∙ ap some root;
            well_formed = subst (IsWellFormed world.semver) m read'.well_formed;
            source = sym source ∙ (λ i. join_path (root i) (m i).source.root);
            directory = directory;
            bin = subst (λ x. IsSelected x options.selected_bin p.selected_bin) m bin;
            resolved = (
              inputs.lockfile,
              inputs.index,
              subst (λ x. IsAccepted x inputs.lockfile) m read'.accepted,
              subst (λ x. IsLocated x inputs.index inputs.lockfile) root read'.located,
              transport
                  (λ i.
                    AllResolved world (root i) (m i) inputs.lockfile inputs.index (m i).dependencies
                      p.environment.dependencies)
                  all,
            );
          }
