-- ===== src/Keystore/Onion/Laws.antt =====
-- `TorKeys` across calls.
use onramp.Prelude.{
  ◌≡◌, refl, ap, ◌∙◌, ◌⊎◌, inl, inr, Option-cases, Sum-cases, none, some, String, ◌++◌, bytes_eq,
  arith,
}
use mathlib.Core.Path.{subst}
use onramp.Prelude.Map.{Map, lookup}
use onramp.Keystore.{
  Bytes, Disk, Filepath, Os, tor, KeyError, file_error, ensure_keystore_path, stat, create,
  close_file, read_file,
}
use onramp.Keystore.Paths.{
  Works, IsAbs, ensure-again, ensured, in_keystore-inr, in_keystore-at, in_keystore-to,
  delete_key_file-inr, without_file, lookup-erase_self, lookup-insert_self,
}
use onramp.Keystore.Onion.{
  OnionKeys, Generation, tor_extension, from_bytes, close_after, generate_keys, write_keys,
  read_keys, tor_keys_at, tor_keys, with_conf, get_listen_conf, delete_onion_keys,
}

module _ {K : Type 0} (ok : OnionKeys K) where
  -- A file that is there is read, and nothing is made.
  tor_keys_at-there :
      (os : Os) (gen : Generation K) (path contents : Bytes) (d : Disk)
      → Works os
      → lookup path d.files ≡ some contents
      → tor_keys_at ok os gen path d ≡ (from_bytes ok (ok.from_crypto_private_key contents), d)
  unfolding tor_keys_at
  tor_keys_at-there os gen path contents d w h =
      rw (w stat path, tor_keys_at, h, read_keys, w read_file path, h)

  -- What a success leaves in the file: the private key of the keys, or bytes that are read as them.
  abbrev pub Written : Bytes → K → Map Bytes Bytes → Type 0
  Written path k files =
      (contents : Bytes) × (lookup path files ≡ some contents)
      × ((contents ≡ ok.private_key k) ⊎ (ok.from_crypto_private_key contents ≡ some k))

  abbrev Kept : Bytes → Disk → (KeyError ⊎ K) × Disk → Type 0
  Kept path d (inl e, d') = Unit {0}
  Kept path d (inr k, d') = (d'.tor_path ≡ d.tor_path) × Written path k d'.files

  Kept-inr :
      (path : Bytes) (d : Disk) (k : K) (r : (KeyError ⊎ K) × Disk)
      → Kept path d r
      → r.0 ≡ inr k
      → (r.1.tor_path ≡ d.tor_path) × Written path k r.1.files
  Kept-inr path d k (inl e, d') v h = absurd (ground arith)
  Kept-inr path d k (inr j, d') v h =
      let e : j ≡ k = ground arith in (v.0, subst (λ i. Written path i d'.files) e v.1)

  generate_keys-Kept :
      (os : Os) (gen : Generation K) (path : Bytes) (d : Disk)
      → Kept path d (generate_keys ok os gen path d)
  unfolding generate_keys
  generate_keys-Kept os gen path d = elim (Sum-cases gen.generated) [
    | inl (e, x) ↦ rw (x, generate_keys) tt
    | inr (k, x) ↦ elim (Option-cases (os.answer create path)) [
      | inr (e, y) ↦ rw (x, generate_keys, y) tt
      | inl y ↦ elim (Option-cases gen.write) [
        | inr ((e, written), z) ↦ rw (x, generate_keys, y, z) tt
        | inl z ↦ elim (Option-cases (os.answer close_file path)) [
          | inr (e, c) ↦ rw (x, generate_keys, y, z, write_keys, close_after, c) tt
          | inl c ↦
              rw (x, generate_keys, y, z, write_keys, close_after, c)
                (refl, (ok.private_key k, lookup-insert_self path (ok.private_key k) _, inl refl))
        ]
      ]
    ]
  ]

  read_keys-Kept :
      (os : Os) (path contents : Bytes) (d : Disk)
      → lookup path d.files ≡ some contents
      → Kept path d (read_keys ok os path d)
  unfolding read_keys
  read_keys-Kept os path contents d h = elim (Option-cases (os.answer read_file path)) [
    | inr (e, x) ↦ rw (x, read_keys) tt
    | inl x ↦ elim (Option-cases (ok.from_crypto_private_key contents)) [
      | inl y ↦ rw (x, read_keys, h, y) tt
      | inr (k, y) ↦ rw (x, read_keys, h, y) (refl, (contents, h, inr y))
    ]
  ]

  tor_keys_at-Kept :
      (os : Os) (gen : Generation K) (path : Bytes) (d : Disk)
      → Kept path d (tor_keys_at ok os gen path d)
  unfolding tor_keys_at
  tor_keys_at-Kept os gen path d = elim (Option-cases (os.answer stat path)) [
    | inr (e, x) ↦ rw (x, tor_keys_at) tt
    | inl x ↦ elim (Option-cases (lookup path d.files)) [
      | inl y ↦ rw (x, tor_keys_at, y) (generate_keys-Kept os gen path d)
      | inr (contents, y) ↦ rw (x, tor_keys_at, y) (read_keys-Kept os path contents d y)
    ]
  ]

  -- Where `TorKeys` has given keys for a name, the next call for this name makes none and changes
  -- nothing: it gives what `FromCryptoPrivateKey` makes of the bytes in the file, which are the
  -- `PrivateKey` of those keys, or bytes of which it has made them. This holds if no call of the system
  -- has an error then, and absolute paths are not empty.
  pub tor_keys_again :
      (fp : Filepath) (os os' : Os) (gen gen' : Generation K) (name : Bytes) (d : Disk) (k : K)
      → IsAbs os
      → Works os'
      → (tor_keys ok fp os gen name d).0 ≡ inr k
      → let d' = (tor_keys ok fp os gen name d).1 in
        (contents : Bytes) × (tor_keys ok fp os' gen' name d'
          ≡ (from_bytes ok (ok.from_crypto_private_key contents), d'))
        × ((contents ≡ ok.private_key k) ⊎ (ok.from_crypto_private_key contents ≡ some k))
  unfolding tor_keys
  tor_keys_again fp os os' gen gen' name d k a w h =
      let at = λ (keystore : Bytes). fp.join keystore (name ++ tor_extension) in
      let f = λ (keystore : Bytes). tor_keys_at ok os gen (at keystore) in
      let f' = λ (keystore : Bytes). tor_keys_at ok os' gen' (at keystore) in
      let D = (ensure_keystore_path fp os tor d).1 in
      let (keystore, x, e) = in_keystore-inr fp os tor f d k h in
      let D' = (f keystore D).1 in
      let kept =
        Kept-inr (at keystore) D k (f keystore D) (tor_keys_at-Kept os gen (at keystore) D)
          (rw e at h) in
      let (contents, there, read) = kept.1 in
      rw e (
        contents,
        in_keystore-at fp os' tor f' D' D' keystore
              (ensure-again fp os os' tor d D' keystore a w x kept.0)
            ∙ tor_keys_at-there os' gen' (at keystore) contents D' w there,
        read,
      )

  -- A file whose write fails.
  generate_keys-cut_off :
      (os : Os) (gen : Generation K) (path written : Bytes) (d : Disk) (k : K) (e : String)
      → Works os
      → gen.generated ≡ inr k
      → gen.write ≡ some (e, written)
      → lookup path d.files ≡ none
      → let (r, d') = tor_keys_at ok os gen path d in
        (r ≡ inl (file_error e))
        × (d'.tor_path ≡ d.tor_path)
        × (lookup path d'.files ≡ some written)
  unfolding tor_keys_at
  generate_keys-cut_off os gen path written d k e w g f m =
      rw (w stat path, tor_keys_at, m, generate_keys, g, w create path, write_keys, f)
        (refl, refl, lookup-insert_self path written _)

  -- Where there is no key file, no call of the system has an error and absolute paths are not empty, but
  -- the write of new keys fails, `TorKeys` ends with that error and leaves what was written in the file;
  -- every later call, of a system without an error, makes no keys and changes nothing: it gives what
  -- `FromCryptoPrivateKey` makes of the bytes that were written.
  pub tor_keys_never_repaired :
      (fp : Filepath) (os os' : Os) (gen gen' : Generation K) (name keystore written : Bytes)
      (d : Disk) (k : K) (e : String)
      → IsAbs os
      → Works os
      → Works os'
      → gen.generated ≡ inr k
      → gen.write ≡ some (e, written)
      → (ensure_keystore_path fp os tor d).0 ≡ inr keystore
      → lookup (fp.join keystore (name ++ tor_extension)) d.files ≡ none
      → let (r, d') = tor_keys ok fp os gen name d in
        (r ≡ inl (file_error e))
        × (tor_keys ok fp os' gen' name d'
            ≡ (from_bytes ok (ok.from_crypto_private_key written), d'))
  unfolding tor_keys
  tor_keys_never_repaired fp os os' gen gen' name keystore written d k e a w w' g f x m =
      let at = λ (keystore : Bytes). fp.join keystore (name ++ tor_extension) in
      let h = λ (keystore : Bytes). tor_keys_at ok os gen (at keystore) in
      let h' = λ (keystore : Bytes). tor_keys_at ok os' gen' (at keystore) in
      let D = (ensure_keystore_path fp os tor d).1 in
      let D' = (h keystore D).1 in
      let cut =
        generate_keys-cut_off os gen (at keystore) written D k e w g f
          (ap (lookup (at keystore)) (ensured fp os tor d).0 ∙ m) in
      rw (in_keystore-to fp os tor h d keystore x) (
        cut.0,
        in_keystore-at fp os' tor h' D' D' keystore
              (ensure-again fp os os' tor d D' keystore a w' x cut.1)
            ∙ tor_keys_at-there os' gen' (at keystore) written D' w' cut.2,
      )

  -- A file that is made.
  tor_keys_at-generates :
      (os : Os) (gen : Generation K) (path : Bytes) (d : Disk) (k : K)
      → Works os
      → gen.generated ≡ inr k
      → gen.write ≡ none
      → lookup path d.files ≡ none
      → let (r, d') = tor_keys_at ok os gen path d in
        (r ≡ inr k) × (lookup path d'.files ≡ some (ok.private_key k))
  unfolding tor_keys_at
  tor_keys_at-generates os gen path d k w g f m =
      rw
        (
          w stat path,
          tor_keys_at,
          m,
          generate_keys,
          g,
          w create path,
          write_keys,
          f,
          close_after,
          w close_file path,
        )
        (refl, lookup-insert_self path (ok.private_key k) _)

  -- Where an `Onion` has a listen configuration, and `DeleteKeys` has succeeded, `getListenConf` stores new
  -- keys and gives the configuration with the old ones, if keys are generated and written, no call of the
  -- system has an error, and absolute paths are not empty.
  stale_listen_conf :
      (fp : Filepath) (os os' : Os) (gen : Generation K) (name : Bytes) (d : Disk) (old k : K)
      → IsAbs os
      → Works os'
      → gen.generated ≡ inr k
      → gen.write ≡ none
      → (delete_onion_keys fp os name d).0 ≡ inr tt
      → let (r, d') =
          get_listen_conf ok fp os' gen name (some old) (delete_onion_keys fp os name d).1 in
        (r ≡ (inr old, some old))
        × ((path : Bytes) × (lookup path d'.files ≡ some (ok.private_key k))
            × (lookup path (delete_onion_keys fp os name d).1.files ≡ none))
  unfolding get_listen_conf delete_onion_keys
  stale_listen_conf fp os os' gen name d old k a w g f h =
      let at = λ (keystore : Bytes). fp.join keystore (name ++ tor_extension) in
      let f' = λ (keystore : Bytes). tor_keys_at ok os' gen (at keystore) in
      let D = (ensure_keystore_path fp os tor d).1 in
      let (keystore, x, e) = delete_key_file-inr fp os tor tor_extension name d h in
      let D' = without_file (at keystore) D in
      let made =
        tor_keys_at-generates os' gen (at keystore) D' k w g f
          (lookup-erase_self (at keystore) D.files) in
      rw e (
        rw
          (in_keystore-at fp os' tor f' D' D' keystore
            (ensure-again fp os os' tor d D' keystore a w x refl))
          (
            ap (with_conf ok (some old)) made.0,
            (at keystore, made.1, lookup-erase_self (at keystore) D.files),
          ))
