-- ===== src/Directory/Manifests/Sources.antt =====
-- Which manifests of the store come from which peer.
use concat.Base.{
  ◌≡◌, ◌⊎◌, inl, inr, refl, sym, subst, Text, text_dec, text_eq, ◌==◌, Bool, true, false, Option,
  none, some, List, [], ◌∷◌, Result, ok, err, panic, arith,
}
use concat.Base.Dict.{
  Dict, lookup, put, lookup-put, lookup-remove_if, unless, NodupKeys, put-NodupKeys,
}
use concat.Directory.Types.{Manifest}
use concat.Directory.Manifests.{
  ManifestRecord, ManifestStore, Services, key_from, find_key, store_verified, put_unless_known,
  put_hashed, put_manifest, put_all, remove_source, verify_manifest, hash_manifest,
}

abbrev Stored : Type 0
Stored = Dict Text ManifestRecord

-- What the entry of a hash is: the old one, or one of the peer where there was none.
abbrev pub Entry : Text → Stored → Text → Option ManifestRecord → Type 0
Entry src old h entry =
    (entry ≡ lookup old h)
    ⊎ ((lookup old h ≡ none) × ((r : ManifestRecord) × (entry ≡ some r) × (r.src ≡ src)))

-- A store with the entries of another, and entries of one peer that the other has not.
pub record Grown (src : Text) (old new : Stored) : Type 0 where
  pub each : (h : Text) → Entry src old h (lookup new h)
  pub nodup : NodupKeys new

pub Grown-refl : (src : Text) (old : Stored) → NodupKeys old → Grown src old old
Grown-refl src old u = record { each = λ h. inl refl; nodup = u }

module _ (sv : Services) (src : Text) (old : Stored) where
  store_verified-Grown :
      (v : Result Bool) (mf : Manifest) (mfh : Text) (mfs : ManifestStore)
      → lookup mfs.mf mfh ≡ none
      → Grown src old mfs.mf
      → Grown src old (store_verified sv v src mf mfh mfs).mf
  unfolding store_verified
  store_verified-Grown (ok true) mf mfh mfs free g =
      let new : ManifestRecord = record { mf = mf; src = src } in
      record {
        each = λ h. elim (text_dec h mfh) [
          | yes same ↦ inr (
            absent h (g.each h) (rw same free),
            (new, ground (arith, lookup-put mfs.mf mfh new h), refl),
          )
          | no differs ↦
              let same_as : lookup (put mfs.mf mfh new) h ≡ lookup mfs.mf h =
                ground (arith, lookup-put mfs.mf mfh new h) in
              subst (Entry src old h) (sym same_as) (g.each h)
        ];
        nodup = put-NodupKeys mfs.mf mfh new g.nodup;
      }
    where
      absent :
          (h : Text)
          → Entry src old h (lookup mfs.mf h)
          → lookup mfs.mf h ≡ none
          → lookup old h ≡ none
      absent h (inl e) n = ground (arith, e)
      absent h (inr (e, _)) n = e
  store_verified-Grown (ok false) mf mfh mfs free g = g
  store_verified-Grown (err e) mf mfh mfs free g = g
  store_verified-Grown panic mf mfh mfs free g = g

  abbrev Keeps : ManifestStore → Option (Text × ManifestStore) → Type 0
  Keeps mfs none = Unit
  Keeps mfs (some (pubk, mfs')) = mfs'.mf ≡ mfs.mf

  key_from-Keeps :
      (c : Option Text) (l : Result Text) (name : Text) (mfs : ManifestStore)
      → Keeps mfs (key_from sv c l name mfs)
  unfolding key_from
  key_from-Keeps (some pubk) l name mfs = refl
  key_from-Keeps none (ok pubk) name mfs = refl
  key_from-Keeps none (err e) name mfs = tt
  key_from-Keeps none panic name mfs = tt

  put_unless_known-Grown :
      (known : Option ManifestRecord) (found : Option (Text × ManifestStore)) (mf : Manifest)
      (mfh : Text) (mfs : ManifestStore)
      → lookup mfs.mf mfh ≡ known
      → Keeps mfs found
      → Grown src old mfs.mf
      → Grown src old (put_unless_known sv known found src mf mfh mfs).mf
  unfolding put_unless_known
  put_unless_known-Grown (some r) found mf mfh mfs e k g = g
  put_unless_known-Grown none none mf mfh mfs e k g = g
  put_unless_known-Grown none (some (pubk, mfs')) mf mfh mfs e k g =
      store_verified-Grown (verify_manifest sv mf pubk) mf mfh mfs' (rw k e)
        (subst (Grown src old) (sym k) g)

  put_hashed-Grown :
      (h : Result Text) (mf : Manifest) (mfs : ManifestStore)
      → Grown src old mfs.mf
      → Grown src old (put_hashed sv h src mf mfs).mf
  unfolding put_hashed find_key
  put_hashed-Grown (ok mfh) mf mfs g =
      put_unless_known-Grown (lookup mfs.mf mfh) (find_key sv mf mfs) mf mfh mfs refl
        (key_from-Keeps _ _ _ mfs) g
  put_hashed-Grown (err e) mf mfs g = g
  put_hashed-Grown panic mf mfs g = g

  pub put_all-Grown :
      (lst : List Manifest) (mfs : ManifestStore)
      → Grown src old mfs.mf
      → Grown src old (put_all sv src lst mfs).mf
  unfolding put_all put_manifest
  put_all-Grown [] mfs g = g
  put_all-Grown (mf ∷ lst) mfs g =
      put_all-Grown lst _ (put_hashed-Grown (hash_manifest sv mf) mf mfs g)

-- Removing a peer's manifests from a store that grew by that peer leaves the old store without its.
pub remove_source-Grown :
    (src : Text) (old : Stored) (mfs : ManifestStore) (h : Text)
    → Grown src old mfs.mf
    → lookup (remove_source src mfs).mf h ≡ unless (λ r. r.src == src) (lookup old h)
unfolding remove_source
remove_source-Grown src old mfs h g = elim (g.each h) [
  | inl e ↦ rw (lookup-remove_if (λ r. r.src == src) mfs.mf h g.nodup, e)
  | inr (absent, (r, e, own)) ↦
      rw (lookup-remove_if (λ r. r.src == src) mfs.mf h g.nodup, e, absent) (ground arith)
]
