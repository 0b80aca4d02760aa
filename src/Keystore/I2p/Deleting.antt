-- ===== src/Keystore/I2p/Deleting.antt =====
-- `i2pKeys` after keys or a keystore have been deleted, and what it leaves alone.
use onramp.Prelude.{
  ◌≡◌, ◌≢◌, refl, sym, ap, ◌∙◌, ◌⊎◌, inl, inr, Option, Option-cases, Sum-cases, none, String, [],
  ◌∷◌, ◌++◌, bytes_eq, arith,
}
use mathlib.Core.Path.{subst}
use onramp.Prelude.Map.{Map, lookup, insert, lookup-insert}
use onramp.Keystore.{
  Bytes, Disk, Filepath, Os, remove_tree, i2p, KeyError, in_keystore, ensure_keystore_path, stat,
  read_file, mkdir_all, delete_keystore, get_joined_wd, default_dir,
}
use onramp.Keystore.Paths.{
  without_file, Works, IsAbs, ensure-again, ensured, in_keystore-at, delete_key_file-inr,
  lookup-erase_self,
}
use onramp.Keystore.I2p.{
  KeyFile, Sam, i2p_extension, make_keys, load_keys, keys_at, i2p_keys, delete_garlic_keys,
}
use onramp.Keystore.I2p.Laws.{Held, keys_at-held}

-- The default keystore, where the variable is not set.
unset :
    (fp : Filepath) (os : Os) (keystore : Bytes) (d : Disk)
    → d.i2p_path ≡ []
    → Works os
    → get_joined_wd fp os (default_dir i2p) ≡ inr keystore
    → ensure_keystore_path fp os i2p d ≡ (inr keystore, record d { i2p_path = keystore })
unfolding ensure_keystore_path
unset fp os keystore d e w j = ground (arith, w mkdir_all keystore)

unset_delete :
    (fp : Filepath) (os : Os) (d : Disk) → d.i2p_path ≡ [] → delete_keystore fp os i2p d ≡ (none, d)
unfolding delete_keystore
unset_delete fp os d e = rw (e, delete_keystore, remove_tree)

-- What making or reading keys leaves alone: the connections to SAM, and each other file.
abbrev pub Leaves : {A : Type 0} → (Bytes → Type 0) → Disk → A × Disk → Type 0
Leaves Touched d (r, d') =
    (d'.sam_connections ≡ d.sam_connections)
    × ((q : Bytes) → ¬ Touched q → lookup q d'.files ≡ lookup q d.files)

-- The path of the file of a name.
abbrev pub KeyPath : Filepath → Os → Bytes → Disk → Bytes → Type 0
KeyPath fp os name d q =
    (keystore : Bytes) × ((ensure_keystore_path fp os i2p d).0 ≡ inr keystore)
    × (fp.join keystore (name ++ i2p_extension) ≡ q)

other_file :
    (path q v : Bytes) (files : Map Bytes Bytes)
    → path ≢ q
    → lookup q (insert path v files) ≡ lookup q files
other_file path q v files n =
    rw (lookup-insert path q v files) (ground (arith, bytes_eq.beq_iff path q))

module _ {K : Type 0} (kf : KeyFile K) where
  make_keys-Leaves :
      (sam : Sam K) (path : Bytes) (d : Disk) → Leaves (λ q. path ≡ q) d (make_keys kf sam path d)
  unfolding make_keys
  make_keys-Leaves sam path d = elim (Option-cases sam.connect) [
    | inr (e, x) ↦ rw (x, make_keys) (refl, λ q n. refl)
    | inl x ↦ elim (Sum-cases sam.new_keys) [
      | inl (e, y) ↦ rw (x, make_keys, y) (omega arith, λ q n. refl)
      | inr (k, y) ↦ elim (Option-cases sam.store) [
        | inr ((e, left), z) ↦
            rw (x, make_keys, y, z) (omega arith, λ q n. other_file path q left d.files n)
        | inl z ↦
            rw (x, make_keys, y, z) (omega arith, λ q n. other_file path q (kf.stored k) d.files n)
      ]
    ]
  ]

  load_keys-same : (os : Os) (path : Bytes) (d : Disk) → (load_keys kf os path d).1 ≡ d
  unfolding load_keys
  load_keys-same os path d = elim (Option-cases (os.answer read_file path)) [
    | inr (e, x) ↦ rw (x, load_keys)
    | inl x ↦ elim (Option-cases (lookup path d.files)) [
      | inl y ↦ rw (x, load_keys, y)
      | inr (contents, y) ↦ rw (x, load_keys, y)
    ]
  ]

  keys_at-Leaves :
      (os : Os) (sam : Sam K) (path : Bytes) (d : Disk)
      → Leaves (λ q. path ≡ q) d (keys_at kf os sam path d)
  unfolding keys_at
  keys_at-Leaves os sam path d = elim (Option-cases (os.answer stat path)) [
    | inr (e, x) ↦ rw (x, keys_at) (make_keys-Leaves sam path d)
    | inl x ↦ elim (Option-cases (lookup path d.files)) [
      | inl y ↦ rw (x, keys_at, y) (make_keys-Leaves sam path d)
      | inr ([], y) ↦ rw (x, keys_at, y) (make_keys-Leaves sam path d)
      | inr (c ∷ cs, y) ↦ rw (x, keys_at, y) (rw (load_keys-same os path d) (refl, λ q n. refl))
    ]
  ]

  -- Keys that are missing are made.
  keys_at-missing :
      (os : Os) (sam : Sam K) (path : Bytes) (d : Disk) (k : K)
      → Works os
      → lookup path d.files ≡ none
      → sam.connect ≡ none
      → sam.new_keys ≡ inr k
      → sam.store ≡ none
      → (keys_at kf os sam path d).0 ≡ inr k
  unfolding keys_at
  keys_at-missing os sam path d k w m c g s = rw (w stat path, keys_at, m, make_keys, c, g, s)

  -- Where `DeleteGarlicKeys` has succeeded, the next `i2pKeys` for the name gives the keys that SAM makes
  -- then, if SAM makes keys and they are stored, no call of the system has an error, and absolute paths
  -- are not empty.
  pub i2p_keys-delete_garlic_keys :
      (fp : Filepath) (os os' : Os) (sam : Sam K) (name : Bytes) (d : Disk) (k : K)
      → IsAbs os
      → Works os'
      → sam.connect ≡ none
      → sam.new_keys ≡ inr k
      → sam.store ≡ none
      → (delete_garlic_keys fp os name d).0 ≡ inr tt
      → (i2p_keys kf fp os' sam name (delete_garlic_keys fp os name d).1).0 ≡ inr k
  unfolding i2p_keys delete_garlic_keys
  i2p_keys-delete_garlic_keys fp os os' sam name d k a w c g s h =
      let at = λ (keystore : Bytes). fp.join keystore (name ++ i2p_extension) in
      let f = λ (keystore : Bytes). keys_at kf os' sam (at keystore) in
      let D = (ensure_keystore_path fp os i2p d).1 in
      let (keystore, x, e) = delete_key_file-inr fp os i2p i2p_extension name d h in
      let D' = without_file (at keystore) D in
      rw e (
        ap (λ (r : (KeyError ⊎ K) × Disk). r.0)
          (in_keystore-at fp os' i2p f D' D' keystore
            (ensure-again fp os os' i2p d D' keystore a w x refl))
        ∙ keys_at-missing os' sam (at keystore) D' k w (lookup-erase_self (at keystore) D.files) c g
            s)

  -- `DeleteI2PKeyStore` where the variable is not set reports no error and changes nothing, and the next
  -- `i2pKeys` for a name whose keys are in the default keystore gives these keys, if no call of the system
  -- has an error.
  pub delete_unset_keystore :
      (fp : Filepath) (os os' : Os) (sam : Sam K) (name keystore : Bytes) (d : Disk) (k : K)
      → d.i2p_path ≡ []
      → Works os'
      → get_joined_wd fp os' (default_dir i2p) ≡ inr keystore
      → Held kf (fp.join keystore (name ++ i2p_extension)) k d.files
      → (delete_keystore fp os i2p d ≡ (none, d))
        × ((i2p_keys kf fp os' sam name (delete_keystore fp os i2p d).1).0 ≡ inr k)
  unfolding i2p_keys delete_keystore
  delete_unset_keystore fp os os' sam name keystore d k e w j held =
      let D = record d { i2p_path = keystore } in
      let at = fp.join keystore (name ++ i2p_extension) in
      let ens : ensure_keystore_path fp os' i2p d ≡ (inr keystore, D) =
        unset fp os' keystore d e w j in
      let same : delete_keystore fp os i2p d ≡ (none, d) = unset_delete fp os d e in
      let f = λ (keystore : Bytes). keys_at kf os' sam (fp.join keystore (name ++ i2p_extension)) in
      (
        same,
        subst (λ (x : Option String × Disk). (i2p_keys kf fp os' sam name x.1).0 ≡ inr k) (sym same)
            (ap (λ (r : (KeyError ⊎ K) × Disk). r.0)
              (in_keystore-at fp os' i2p f d D keystore ens
                ∙ keys_at-held kf os' sam at D k w held)),
      )

  -- On every way out, `i2pKeys` has closed the connection to SAM that it has made, and every file but
  -- that of its name in the keystore is as it was.
  pub i2p_keys-Leaves :
      (fp : Filepath) (os : Os) (sam : Sam K) (name : Bytes) (d : Disk)
      → Leaves (KeyPath fp os name d) d (i2p_keys kf fp os sam name d)
  unfolding i2p_keys
  i2p_keys-Leaves fp os sam name d =
      let D = (ensure_keystore_path fp os i2p d).1 in
      let kept = ensured fp os i2p d in
      elim (Sum-cases (ensure_keystore_path fp os i2p d).0) [
        | inl (e, x) ↦ rw (x, in_keystore) (kept.1, λ q n. ap (lookup q) kept.0)
        | inr (keystore, x) ↦
            let path = fp.join keystore (name ++ i2p_extension) in
            let v = keys_at-Leaves os sam path D in
            rw (x, in_keystore)
              (v.0 ∙ kept.1, λ q n. v.1 q (λ e. n (keystore, refl, e)) ∙ ap (lookup q) kept.0)
      ]
