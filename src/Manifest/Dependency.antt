-- ===== src/Manifest/Dependency.antt =====
-- `DependencySpec` and `DependencyDetail` of crates/etas_package/src/manifest/mod.rs: what a
-- dependency is called, and its line in the fingerprint that a lockfile is held against.
use etas.Base.{Text, codes, Option, none, some, List, [], ◌∷◌, ◌++◌, ◌||◌, join, is_some}
use etas.Base.{if◌then◌else◌}
use etas.Manifest.Schema.{DependencyDetail, DependencySpec, detailed}

abbrev pub unwrap_or : Option Text → Text → Text
unwrap_or none t = t
unwrap_or (some s) t = s

unfoldable pub version : DependencySpec → Option Text
version (DependencySpec.version v) = some v
version (detailed detail) = detail.version

unfoldable pub import_root : DependencySpec → Text → Text
import_root (DependencySpec.version v) dependency_name = dependency_name
import_root (detailed detail) dependency_name = unwrap_or detail.import dependency_name

unfoldable pub package_name : DependencySpec → Text → Text
package_name (DependencySpec.version v) dependency_name = dependency_name
package_name (detailed detail) dependency_name = unwrap_or detail.package_name dependency_name

-- `None` means that any package name is accepted under the import root.
unfoldable pub package_name_constraint : DependencySpec → Text → Option Text
package_name_constraint (DependencySpec.version v) dependency_name = some dependency_name
package_name_constraint (detailed detail) dependency_name = elim detail.package_name [
  | some name ↦ some name
  | none ↦
      if is_some detail.path || is_some detail.git || is_some detail.github
      then none
      else some dependency_name
]

-- `if let Some(value) = field { parts.push(format!("key={value}")) }`
abbrev pub part : Text → Option Text → List Text
part key none = []
part key (some value) = (key ++ value) ∷ []

unfoldable pub fingerprint_parts : DependencyDetail → List Text
fingerprint_parts d =
    part (codes "package=") d.package_name
    ++ (part (codes "version=") d.version
        ++ (part (codes "import=") d.import
            ++ (part (codes "path=") d.path
                ++ (part (codes "git=") d.git
                    ++ (part (codes "github=") d.github
                        ++ (part (codes "rev=") d.rev
                            ++ (part (codes "tag=") d.tag
                                ++ (part (codes "branch=") d.branch
                                    ++ (part (codes "release=") d.release
                                        ++ (part (codes "asset=") d.asset
                                            ++ (part (codes "checksum=") d.checksum
                                                ++ part (codes "registry=") d.registry)))))))))))

unfoldable pub detail_lock_fingerprint : DependencyDetail → Text
unfolding fingerprint_parts
detail_lock_fingerprint d = join (codes ",") (fingerprint_parts d)

unfoldable pub lock_fingerprint : DependencySpec → Text
unfolding detail_lock_fingerprint
lock_fingerprint (DependencySpec.version v) = codes "version:" ++ v
lock_fingerprint (detailed detail) = detail_lock_fingerprint detail
