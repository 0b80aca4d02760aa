-- ===== src/Keystore/I2p/Laws.antt =====
-- `i2pKeys` across calls.
use onramp.Prelude.{
  ℕ, ◌≡◌, ◌≢◌, refl, ap, ◌∙◌, ◌⊎◌, inl, inr, Option-cases, Sum-cases, some, [], ◌∷◌, ◌++◌, bytes_eq,
  arith,
}
use mathlib.Core.Path.{subst}
use onramp.Prelude.Map.{Map, lookup, insert}
use onramp.Keystore.{
  Bytes, Disk, Filepath, Os, i2p, KeyError, ensure_keystore_path, stat, read_file,
}
use onramp.Keystore.Paths.{
  Works, IsAbs, ensure-again, in_keystore-inr, in_keystore-at, lookup-insert_self,
}
use onramp.Keystore.I2p.{KeyFile, Sam, i2p_extension, make_keys, load_keys, keys_at, i2p_keys}

module _ {K : Type 0} (kf : KeyFile K) where
  -- The file holds something, which is read as the keys.
  abbrev pub Held : Bytes → K → Map Bytes Bytes → Type 0
  Held path k files =
      (c : ℕ) × (cs : Bytes) × (lookup path files ≡ some (c ∷ cs)) × (kf.loaded (c ∷ cs) ≡ inr k)

  -- What is written for keys is not empty, and is read as these keys.
  abbrev pub Stores : Type 0
  Stores = (k : K) → (kf.loaded (kf.stored k) ≡ inr k) × (kf.stored k ≢ [])

  -- What a call that makes or reads keys comes to: keys that the file holds, the variable as it was.
  abbrev pub Kept : Bytes → Disk → (KeyError ⊎ K) × Disk → Type 0
  Kept path d (inl e, d') = Unit {0}
  Kept path d (inr k, d') = (d'.i2p_path ≡ d.i2p_path) × Held path k d'.files

  nonempty : (l : Bytes) → l ≢ [] → (c : ℕ) × (cs : Bytes) × (l ≡ c ∷ cs)
  nonempty [] n = absurd (n refl)
  nonempty (c ∷ cs) n = (c, cs, refl)

  stored-Held :
      Stores
      → (path : Bytes) (k : K) (files : Map Bytes Bytes)
      → Held path k (insert path (kf.stored k) files)
  stored-Held s path k files =
      let (c, cs, e) = nonempty (kf.stored k) (s k).1 in
      (c, cs, lookup-insert_self path (kf.stored k) files ∙ ap some e, rw (← e) (s k).0)

  make_keys-Kept :
      Stores → (sam : Sam K) (path : Bytes) (d : Disk) → Kept path d (make_keys kf sam path d)
  unfolding make_keys
  make_keys-Kept s sam path d = elim (Option-cases sam.connect) [
    | inr (e, x) ↦ rw (x, make_keys) tt
    | inl x ↦ elim (Sum-cases sam.new_keys) [
      | inl (e, y) ↦ rw (x, make_keys, y) tt
      | inr (k, y) ↦ elim (Option-cases sam.store) [
        | inr ((e, left), z) ↦ rw (x, make_keys, y, z) tt
        | inl z ↦ rw (x, make_keys, y, z) (refl, stored-Held s path k d.files)
      ]
    ]
  ]

  load_keys-Kept :
      (os : Os) (path : Bytes) (d : Disk) (c : ℕ) (cs : Bytes)
      → lookup path d.files ≡ some (c ∷ cs)
      → Kept path d (load_keys kf os path d)
  unfolding load_keys
  load_keys-Kept os path d c cs h = elim (Option-cases (os.answer read_file path)) [
    | inr (e, x) ↦ rw (x, load_keys) tt
    | inl x ↦ elim (Sum-cases (kf.loaded (c ∷ cs))) [
      | inl (e, y) ↦ rw (x, load_keys, h, y) tt
      | inr (k, y) ↦ rw (x, load_keys, h, y) (refl, (c, cs, h, y))
    ]
  ]

  keys_at-Kept :
      Stores
      → (os : Os) (sam : Sam K) (path : Bytes) (d : Disk) → Kept path d (keys_at kf os sam path d)
  unfolding keys_at
  keys_at-Kept s os sam path d = elim (Option-cases (os.answer stat path)) [
    | inr (e, x) ↦ rw (x, keys_at) (make_keys-Kept s sam path d)
    | inl x ↦ elim (Option-cases (lookup path d.files)) [
      | inl y ↦ rw (x, keys_at, y) (make_keys-Kept s sam path d)
      | inr ([], y) ↦ rw (x, keys_at, y) (make_keys-Kept s sam path d)
      | inr (c ∷ cs, y) ↦ rw (x, keys_at, y) (load_keys-Kept os path d c cs y)
    ]
  ]

  Kept-inr :
      (path : Bytes) (d : Disk) (k : K) (r : (KeyError ⊎ K) × Disk)
      → Kept path d r
      → r.0 ≡ inr k
      → (r.1.i2p_path ≡ d.i2p_path) × Held path k r.1.files
  Kept-inr path d k (inl e, d') v h = absurd (ground arith)
  Kept-inr path d k (inr j, d') v h =
      let e : j ≡ k = ground arith in (v.0, subst (λ i. Held path i d'.files) e v.1)

  -- A file that holds keys is read, by a system that works, and nothing is asked of SAM.
  pub keys_at-held :
      (os : Os) (sam : Sam K) (path : Bytes) (d : Disk) (k : K)
      → Works os
      → Held path k d.files
      → keys_at kf os sam path d ≡ (inr k, d)
  unfolding keys_at
  keys_at-held os sam path d k w (c, cs, f, l) =
      rw (w stat path, keys_at, f, load_keys, w read_file path, f, l)

  -- Where `i2pKeys` has given keys for a name, the next call for this name gives the same keys and
  -- changes nothing, whatever SAM would answer, if no call of the system has an error then, absolute
  -- paths are not empty, and what the library writes for keys is not empty and is read as these keys.
  pub i2p_keys_again :
      (fp : Filepath) (os os' : Os) (sam sam' : Sam K) (name : Bytes) (d : Disk) (k : K)
      → Stores
      → IsAbs os
      → Works os'
      → (i2p_keys kf fp os sam name d).0 ≡ inr k
      → let d' = (i2p_keys kf fp os sam name d).1 in i2p_keys kf fp os' sam' name d' ≡ (inr k, d')
  unfolding i2p_keys
  i2p_keys_again fp os os' sam sam' name d k s a w h =
      let at = λ (keystore : Bytes). fp.join keystore (name ++ i2p_extension) in
      let f = λ (keystore : Bytes). keys_at kf os sam (at keystore) in
      let f' = λ (keystore : Bytes). keys_at kf os' sam' (at keystore) in
      let D = (ensure_keystore_path fp os i2p d).1 in
      let (keystore, x, e) = in_keystore-inr fp os i2p f d k h in
      let D' = (f keystore D).1 in
      let kept =
        Kept-inr (at keystore) D k (f keystore D) (keys_at-Kept s os sam (at keystore) D)
          (rw e at h) in
      rw e (
        in_keystore-at fp os' i2p f' D' D' keystore
          (ensure-again fp os os' i2p d D' keystore a w x kept.0)
        ∙ keys_at-held os' sam' (at keystore) D' k w kept.1)
