-- ===== src/Keystore/I2p.antt =====
-- `i2pKeys` and `DeleteGarlicKeys` of garlic.go. `KeyFile` is what the library i2pkeys reads and writes; the
-- answers of SAM are an argument.
pub mod Laws
pub mod Deleting
use onramp.Prelude.{
  ℕ, suc, ◌-◌, ◌⊎◌, inl, inr, Option, none, some, String, List, [], ◌∷◌, ◌++◌, bytes_eq,
}
use onramp.Prelude.Map.{insert}
use onramp.Prelude.Text.{codes}
use onramp.Keystore.{
  Bytes, Disk, Filepath, Os, M, i2p, KeyError, sam_error, keygen_error, store_error, load_error,
  in_keystore, ensure_keystore_path, delete_key_file, Stat, missing, exists, unknown, stat_file,
  contents_of,
}

-- `StoreKeys` writes the contents for a key pair, and `LoadKeys` reads what a file holds.
pub record KeyFile (K : Type 0) : Type 0 where
  pub stored : K → Bytes
  pub loaded : Bytes → String ⊎ K

-- What is answered to the making of keys: `createSAMSession`, `sam.NewKeys`, and `StoreKeys`, which beside
-- its error may leave something in the file.
pub record Sam (K : Type 0) : Type 0 where
  pub connect : Option String
  pub new_keys : String ⊎ K
  pub store : Option (String × Bytes)

abbrev pub i2p_extension : Bytes
i2p_extension = codes ".i2p.private"

abbrev pub put_file : Bytes → Bytes → Disk → Disk
put_file path contents d = record d { files = insert path contents d.files }

module _ {K : Type 0} (kf : KeyFile K) where
  -- `StoreKeys`
  abbrev pub store_keys : Sam K → Bytes → K → M KeyError K
  store_keys sam path k d = elim sam.store [
    | some (e, contents) ↦ (inl (store_error e), put_file path contents d)
    | none ↦ (inr k, put_file path (kf.stored k) d)
  ]

  -- `sam.NewKeys`, and the storing of the keys
  abbrev pub generate : Sam K → Bytes → M KeyError K
  generate sam path d = elim sam.new_keys [
    | inl e ↦ (inl (keygen_error e), d)
    | inr k ↦ store_keys sam path k d
  ]

  -- The connection is closed on every way out.
  abbrev pub with_sam : M KeyError K → M KeyError K
  with_sam m d =
      let (r, d') = m (record d { sam_connections = suc d.sam_connections }) in
      (r, record d' { sam_connections = d'.sam_connections - 1 })

  -- The branch of `i2pKeys` that makes new keys.
  unfoldable pub make_keys : Sam K → Bytes → M KeyError K
  make_keys sam path d = elim sam.connect [
    | some e ↦ (inl (sam_error e), d)
    | none ↦ with_sam (generate sam path) d
  ]

  abbrev pub loaded_keys : String ⊎ K → KeyError ⊎ K
  loaded_keys (inl e) = inl (load_error e)
  loaded_keys (inr k) = inr k

  -- `LoadKeys`
  unfoldable pub load_keys : Os → Bytes → M KeyError K
  load_keys os path d = elim (contents_of os path d) [
    | inl e ↦ (inl (load_error e), d)
    | inr contents ↦ (loaded_keys (kf.loaded contents), d)
  ]

  -- `i2pKeys` once the path of the file is known: keys are made where `os.Stat` has an error of whatever
  -- kind, or the file is empty.
  unfoldable pub keys_at : Os → Sam K → Bytes → M KeyError K
  unfolding make_keys load_keys
  keys_at os sam path d = elim (stat_file os path d) [
    | missing ↦ make_keys sam path d
    | unknown e ↦ make_keys sam path d
    | exists [] ↦ make_keys sam path d
    | exists (c ∷ cs) ↦ load_keys os path d
  ]

  -- `i2pKeys`, and so `I2PKeys` and `Keys`
  unfoldable pub i2p_keys : Filepath → Os → Sam K → Bytes → M KeyError K
  unfolding ensure_keystore_path keys_at
  i2p_keys fp os sam name =
      in_keystore fp os i2p λ keystore. keys_at os sam (fp.join keystore (name ++ i2p_extension))

-- `DeleteGarlicKeys`
unfoldable pub delete_garlic_keys : Filepath → Os → Bytes → M KeyError (Unit {0})
unfolding delete_key_file
delete_garlic_keys fp os name = delete_key_file fp os i2p i2p_extension name
