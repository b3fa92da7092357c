-- ===== src/Examples/Stores.antt =====
-- The place of a payload in the package store, at a checksum.
use etas.Base.{
  replicate, Text, codes, Option, none, some, Bool, true, false, List, [], ◌∷◌, ◌++◌, ◌≡◌, ◌≢◌, ◌↔◌,
  ◌⊎◌, inl, inr, refl, All,
}
use etas.Diagnostics.{ok}
use etas.Manifest.Names.{is_blake3_checksum}
use etas.Store.{
  is_blake3_checksum-store_path, package_store_relative_path, store_path, IsDigest,
  package_store_relative_path_iff, package_store_relative_path_injective,
}

abbrev checksum : Text
checksum = codes "blake3:0af9"

place : package_store_relative_path checksum ≡ ok (store_path (codes "0af9"))
unfolding package_store_relative_path etas.Base.strip_prefix
place = refl

package_store_relative_path_iff_example :
    (package_store_relative_path checksum ≡ ok (store_path (codes "0af9"))) ↔ (
      (digest : Text) × IsDigest digest
      × (checksum ≡ codes "blake3:" ++ digest)
      × (store_path (codes "0af9") ≡ store_path digest))
package_store_relative_path_iff_example =
    package_store_relative_path_iff checksum (store_path (codes "0af9"))

package_store_relative_path_injective_example : checksum ≡ checksum
package_store_relative_path_injective_example =
    package_store_relative_path_injective checksum checksum (store_path (codes "0af9")) place place

abbrev full_checksum : Text
full_checksum = codes "blake3:" ++ replicate 64 b'a'

accepted : is_blake3_checksum full_checksum ≡ true
unfolding is_blake3_checksum etas.Base.strip_prefix
accepted = refl

is_blake3_checksum-store_path_example :
    (digest : Text) × (full_checksum ≡ codes "blake3:" ++ digest)
    × (package_store_relative_path full_checksum ≡ ok (store_path digest))
is_blake3_checksum-store_path_example = is_blake3_checksum-store_path full_checksum accepted
