-- ===== src/Directory/Manifests.antt =====
-- mcdir/mfs.go: the manifest store.
pub mod Verified
pub mod Sources
use concat.Base.{
  Text, text_eq, codes, ◌==◌, Bool, true, false, Option, none, some, List, [], ◌∷◌, ◌++◌, Result,
  ok, err, panic, ◌>>=◌, has_prefix, has_suffix, drop_last, if◌then◌else◌,
}
use concat.Base.Dict.{Dict, lookup, put, remove_if}
use concat.Directory.Types.{Manifest}

pub record ManifestRecord : Type 0 where
  pub mf : Manifest
  pub src : Text

-- ManifestStoreImpl; a public key is its bytes.
pub record ManifestStore : Type 0 where
  pub mf : Dict Text ManifestRecord
  pub keys : Dict Text Text

abbrev pub new_manifest_store : ManifestStore
new_manifest_store = record { mf = []; keys = [] }

-- The libraries and services that the store calls: the encoding of a manifest, the base 58 text of
-- the hash of some bytes, the lookup of an entity's key, and the check of a signature.
pub record Services : Type 0 where
  pub marshal : Manifest → Result Text
  pub hash : Text → Text
  pub lookup_entity_key : Text → Text → Result Text
  pub verify : Text → Text → Option Text → Result Bool

module _ (sv : Services) where
  unfoldable pub hash_manifest : Manifest → Result Text
  hash_manifest mf = sv.marshal mf >>= λ bytes. ok (sv.hash bytes)

  unfoldable pub verify_manifest : Manifest → Text → Result Bool
  verify_manifest mf pubk = do
    bytes ← sv.marshal (record mf { signature = none })
    sv.verify pubk bytes mf.signature

  -- `mf.Entity + ":" + mf.KeyId`
  abbrev pub key_name : Manifest → Text
  key_name mf = mf.entity ++ (codes ":" ++ mf.key_id)

  -- The key of a manifest: from the cache, or from the lookup, which fills the cache. `none` where
  -- the lookup fails.
  unfoldable pub key_from :
      Option Text → Result Text → Text → ManifestStore → Option (Text × ManifestStore)
  key_from (some pubk) looked name mfs = some (pubk, mfs)
  key_from none (ok pubk) name mfs = some (pubk, record mfs { keys = put mfs.keys name pubk })
  key_from none (err e) name mfs = none
  key_from none panic name mfs = none

  unfoldable pub find_key : Manifest → ManifestStore → Option (Text × ManifestStore)
  unfolding key_from
  find_key mf mfs =
      key_from (lookup mfs.keys (key_name mf)) (sv.lookup_entity_key mf.entity mf.key_id)
        (key_name mf) mfs

  -- The switch on the outcome of the verification.
  unfoldable pub store_verified :
      Result Bool → Text → Manifest → Text → ManifestStore → ManifestStore
  store_verified (ok true) src mf mfh mfs = record mfs {
    mf = put mfs.mf mfh (record { mf = mf; src = src });
  }
  store_verified (ok false) src mf mfh mfs = mfs
  store_verified (err e) src mf mfh mfs = mfs
  store_verified panic src mf mfh mfs = mfs

  -- putManifest behind the hash, for a hash that is stored already or not.
  unfoldable pub put_unless_known :
      Option ManifestRecord
      → Option (Text × ManifestStore)
      → Text
      → Manifest
      → Text
      → ManifestStore
      → ManifestStore
  unfolding store_verified
  put_unless_known (some old) found src mf mfh mfs = mfs
  put_unless_known none none src mf mfh mfs = mfs
  put_unless_known none (some (pubk, mfs')) src mf mfh mfs =
      store_verified (verify_manifest mf pubk) src mf mfh mfs'

  unfoldable pub put_hashed : Result Text → Text → Manifest → ManifestStore → ManifestStore
  unfolding put_unless_known
  put_hashed (ok mfh) src mf mfs =
      put_unless_known (lookup mfs.mf mfh) (find_key mf mfs) src mf mfh mfs
  put_hashed (err e) src mf mfs = mfs
  put_hashed panic src mf mfs = mfs

  -- putManifest, with no other call while the lock is released for the lookup.
  unfoldable pub put_manifest : Text → Manifest → ManifestStore → ManifestStore
  unfolding put_hashed
  put_manifest src mf mfs = put_hashed (hash_manifest mf) src mf mfs

  -- Put
  unfoldable pub put_all : Text → List Manifest → ManifestStore → ManifestStore
  put_all src [] mfs = mfs
  put_all src (mf ∷ lst) mfs = put_all src lst (put_manifest src mf mfs)

-- Remove
unfoldable pub remove_source : Text → ManifestStore → ManifestStore
remove_source src mfs = record mfs { mf = remove_if (λ mfr. mfr.src == src) mfs.mf }

unfoldable pub lookup_manifest : (Manifest → Bool) → Dict Text ManifestRecord → List Manifest
lookup_manifest filter [] = []
lookup_manifest filter ((mfh, mfr) ∷ mfs) =
    let rest = lookup_manifest filter mfs in if filter mfr.mf then mfr.mf ∷ rest else rest

-- Lookup
unfoldable pub lookup_entity : Text → ManifestStore → Result (List Manifest)
unfolding lookup_manifest
lookup_entity entity mfs =
    if entity == []
    then ok (lookup_manifest (λ mf. true) mfs.mf)
    else if entity == codes "*"
    then ok (lookup_manifest (λ mf. true) mfs.mf)
    else if has_suffix entity (codes "*")
    then (elim (drop_last entity) [
      | none ↦ panic
      | some pre ↦ ok (lookup_manifest (λ mf. has_prefix mf.entity pre) mfs.mf)
    ])
    else ok (lookup_manifest (λ mf. mf.entity == entity) mfs.mf)
