-- ===== src/Directory/Manifests/Verified.antt =====
-- What the manifest store holds, whatever calls were made.
use concat.Base.{
  ◌≡◌, refl, sym, subst, Text, text_dec, text_eq, codes, ◌==◌, Bool, true, false, Option, none,
  some, List, [], ◌∷◌, ◌++◌, Result, ok, err, panic, arith,
}
use concat.Base.Dict.{
  lookup, lookup-put, NodupKeys, put-NodupKeys, remove_if-NodupKeys, lookup-remove_if,
}
use concat.Directory.Types.{Manifest}
use concat.Directory.Manifests.{
  ManifestRecord, ManifestStore, Services, hash_manifest, verify_manifest, key_name, find_key,
  key_from, put_unless_known, put_hashed, store_verified, put_manifest, put_all, remove_source,
}

module _ (sv : Services) where
  -- A key that the lookup gave for an entity and a key id which, joined by a colon, have the name.
  pub record IsKey (name pubk : Text) : Type 0 where
    pub entity : Text
    pub key_id : Text
    pub joined : entity ++ (codes ":" ++ key_id) ≡ name
    pub looked_up : sv.lookup_entity_key entity key_id ≡ ok pubk

  -- A manifest under its hash, with a signature that a key of its name verifies.
  pub record IsProven (mfh : Text) (mfr : ManifestRecord) : Type 0 where
    pub pubk : Text
    pub hashed : hash_manifest sv mfr.mf ≡ ok mfh
    pub key : IsKey (key_name sv mfr.mf) pubk
    pub verified : verify_manifest sv mfr.mf pubk ≡ ok true

  pub record IsSound (mfs : ManifestStore) : Type 0 where
    pub proven :
        (mfh : Text) (mfr : ManifestRecord) → lookup mfs.mf mfh ≡ some mfr → IsProven mfh mfr
    pub cached : (name pubk : Text) → lookup mfs.keys name ≡ some pubk → IsKey name pubk
    pub nodup : NodupKeys mfs.mf

  abbrev Found : Manifest → ManifestStore → Option (Text × ManifestStore) → Type 0
  Found mf mfs none = Unit
  Found mf mfs (some (pubk, mfs')) = IsSound mfs' × IsKey (key_name sv mf) pubk × (mfs'.mf ≡ mfs.mf)

  key_from-Found :
      (mf : Manifest) (mfs : ManifestStore) (c : Option Text) (l : Result Text)
      → IsSound mfs
      → lookup mfs.keys (key_name sv mf) ≡ c
      → sv.lookup_entity_key mf.entity mf.key_id ≡ l
      → Found mf mfs (key_from sv c l (key_name sv mf) mfs)
  unfolding key_from
  key_from-Found mf mfs (some pubk) l s ec el = (s, s.cached _ pubk ec, refl)
  key_from-Found mf mfs none (ok pubk) s ec el =
      let key : IsKey (key_name sv mf) pubk = record {
        entity = mf.entity;
        key_id = mf.key_id;
        joined = refl;
        looked_up = el;
      } in
      (
        record {
          proven = s.proven;
          cached = λ name k e. elim (text_dec name (key_name sv mf)) [
            | yes same ↦
                let is : pubk ≡ k =
                  ground (arith, lookup-put mfs.keys (key_name sv mf) pubk name) in
                subst (λ n. IsKey n k) (sym same) (subst (IsKey (key_name sv mf)) is key)
            | no differs ↦
                s.cached name k (ground (arith, lookup-put mfs.keys (key_name sv mf) pubk name))
          ];
          nodup = s.nodup;
        },
        key,
        refl,
      )
  key_from-Found mf mfs none (err e) s ec el = tt
  key_from-Found mf mfs none panic s ec el = tt

  store_verified-IsSound :
      (v : Result Bool) (src : Text) (mf : Manifest) (mfh pubk : Text) (mfs : ManifestStore)
      → IsSound mfs
      → hash_manifest sv mf ≡ ok mfh
      → IsKey (key_name sv mf) pubk
      → verify_manifest sv mf pubk ≡ v
      → IsSound (store_verified sv v src mf mfh mfs)
  unfolding store_verified
  store_verified-IsSound (ok true) src mf mfh pubk mfs s eh key ev =
      let new : ManifestRecord = record { mf = mf; src = src } in
      record {
        proven = λ h r e. elim (text_dec h mfh) [
          | yes same ↦
              let is : new ≡ r = ground (arith, lookup-put mfs.mf mfh new h) in
              subst (λ n. IsProven n r) (sym same)
                (subst (IsProven mfh) is
                  (record { pubk = pubk; hashed = eh; key = key; verified = ev }))
          | no differs ↦ s.proven h r (ground (arith, lookup-put mfs.mf mfh new h))
        ];
        cached = s.cached;
        nodup = put-NodupKeys mfs.mf mfh new s.nodup;
      }
  store_verified-IsSound (ok false) src mf mfh pubk mfs s eh key ev = s
  store_verified-IsSound (err e) src mf mfh pubk mfs s eh key ev = s
  store_verified-IsSound panic src mf mfh pubk mfs s eh key ev = s

  put_unless_known-IsSound :
      (old : Option ManifestRecord) (found : Option (Text × ManifestStore)) (src : Text)
      (mf : Manifest) (mfh : Text) (mfs : ManifestStore)
      → IsSound mfs
      → hash_manifest sv mf ≡ ok mfh
      → Found mf mfs found
      → IsSound (put_unless_known sv old found src mf mfh mfs)
  unfolding put_unless_known
  put_unless_known-IsSound (some old) found src mf mfh mfs s eh f = s
  put_unless_known-IsSound none none src mf mfh mfs s eh f = s
  put_unless_known-IsSound none (some (pubk, mfs')) src mf mfh mfs s eh f =
      store_verified-IsSound (verify_manifest sv mf pubk) src mf mfh pubk mfs' (f.0) eh (f.1) refl

  put_hashed-IsSound :
      (h : Result Text) (src : Text) (mf : Manifest) (mfs : ManifestStore)
      → IsSound mfs
      → hash_manifest sv mf ≡ h
      → IsSound (put_hashed sv h src mf mfs)
  unfolding put_hashed find_key
  put_hashed-IsSound (ok mfh) src mf mfs s eh =
      put_unless_known-IsSound (lookup mfs.mf mfh) (find_key sv mf mfs) src mf mfh mfs s eh
        (key_from-Found mf mfs _ _ s refl refl)
  put_hashed-IsSound (err e) src mf mfs s eh = s
  put_hashed-IsSound panic src mf mfs s eh = s

  pub put_manifest-IsSound :
      (src : Text) (mf : Manifest) (mfs : ManifestStore)
      → IsSound mfs
      → IsSound (put_manifest sv src mf mfs)
  unfolding put_manifest
  put_manifest-IsSound src mf mfs s = put_hashed-IsSound (hash_manifest sv mf) src mf mfs s refl

  -- Putting manifests into a store keeps it so that every manifest stands under its hash, with a
  -- signature that some key verifies which the lookup gave for an entity and a key id that, joined
  -- by a colon, read like those of the manifest, and that every cached key is such a key.
  pub put_all-IsSound :
      (src : Text) (lst : List Manifest) (mfs : ManifestStore)
      → IsSound mfs
      → IsSound (put_all sv src lst mfs)
  unfolding put_all
  put_all-IsSound src [] mfs s = s
  put_all-IsSound src (mf ∷ lst) mfs s =
      put_all-IsSound src lst _ (put_manifest-IsSound src mf mfs s)

  pub remove_source-IsSound :
      (src : Text) (mfs : ManifestStore) → IsSound mfs → IsSound (remove_source src mfs)
  unfolding remove_source
  remove_source-IsSound src mfs s =
      let removed = λ (r : ManifestRecord). r.src == src in
      record {
        proven = λ h r e. s.proven h r (ground (arith, lookup-remove_if removed mfs.mf h s.nodup));
        cached = s.cached;
        nodup = remove_if-NodupKeys removed mfs.mf s.nodup;
      }
