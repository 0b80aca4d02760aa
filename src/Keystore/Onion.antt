-- ===== src/Keystore/Onion.antt =====
-- `TorKeys` and `DeleteOnionKeys` of onion.go, with `getListenConf` and `DeleteKeys` of an `Onion`.
-- `OnionKeys` is what the library bine makes of keys and of bytes.
pub mod Laws
use onramp.Prelude.{◌⊎◌, inl, inr, Option, none, some, String, List, [], ◌∷◌, ◌++◌, bytes_eq}
use onramp.Prelude.Map.{insert}
use onramp.Prelude.Text.{codes}
use onramp.Keystore.{
  Bytes, Disk, Filepath, Os, M, tor, create, close_file, KeyError, keygen_error, file_error,
  stat_error, load_error, panics, in_keystore, ensure_keystore_path, delete_key_file, Stat, missing,
  exists, unknown, stat_file, contents_of,
}
use onramp.Keystore.I2p.{put_file}

-- `PrivateKey()` of a key pair, and `FromCryptoPrivateKey`; `none` is a panic.
pub record OnionKeys (K : Type 0) : Type 0 where
  pub private_key : K → Bytes
  pub from_crypto_private_key : Bytes → Option K

-- What is answered to the making of keys: `ed25519.GenerateKey`, and `f.Write`, with what it has written
-- beside its error.
pub record Generation (K : Type 0) : Type 0 where
  pub generated : String ⊎ K
  pub write : Option (String × Bytes)

abbrev pub tor_extension : Bytes
tor_extension = codes ".tor.private"

module _ {K : Type 0} (ok : OnionKeys K) where
  -- `f.Close`, deferred: its error counts where there is no other.
  abbrev pub close_after : Os → Bytes → KeyError ⊎ K → KeyError ⊎ K
  close_after os path (inl e) = inl e
  close_after os path (inr k) = elim (os.answer close_file path) [
    | some e ↦ inl (file_error e)
    | none ↦ inr k
  ]

  -- `f.Write` to the file that has just been made, and its closing
  abbrev pub write_keys : Os → Generation K → Bytes → K → M KeyError K
  write_keys os gen path k d = elim gen.write [
    | some (e, written) ↦ (close_after os path (inl (file_error e)), put_file path written d)
    | none ↦ (close_after os path (inr k), put_file path (ok.private_key k) d)
  ]

  -- The branch of `TorKeys` that makes new keys; `os.Create` empties the file.
  unfoldable pub generate_keys : Os → Generation K → Bytes → M KeyError K
  generate_keys os gen path d = elim gen.generated [
    | inl e ↦ (inl (keygen_error e), d)
    | inr k ↦ elim (os.answer create path) [
      | some e ↦ (inl (file_error e), d)
      | none ↦ write_keys os gen path k (put_file path [] d)
    ]
  ]

  abbrev pub from_bytes : Option K → KeyError ⊎ K
  from_bytes none = inl panics
  from_bytes (some k) = inr k

  -- The branch that reads the file.
  unfoldable pub read_keys : Os → Bytes → M KeyError K
  read_keys os path d = elim (contents_of os path d) [
    | inl e ↦ (inl (load_error e), d)
    | inr contents ↦ (from_bytes (ok.from_crypto_private_key contents), d)
  ]

  -- `TorKeys` once the path of the file is known.
  unfoldable pub tor_keys_at : Os → Generation K → Bytes → M KeyError K
  unfolding generate_keys read_keys
  tor_keys_at os gen path d = elim (stat_file os path d) [
    | missing ↦ generate_keys os gen path d
    | exists contents ↦ read_keys os path d
    | unknown e ↦ (inl (stat_error e), d)
  ]

  -- `TorKeys`, and so `Keys` of an `Onion`
  unfoldable pub tor_keys : Filepath → Os → Generation K → Bytes → M KeyError K
  unfolding ensure_keystore_path tor_keys_at
  tor_keys fp os gen name =
      in_keystore fp os tor
        λ keystore. tor_keys_at os gen (fp.join keystore (name ++ tor_extension))

  -- The end of `getListenConf`: the configuration that is there, or a new one with the keys.
  abbrev pub with_conf : Option K → KeyError ⊎ K → (KeyError ⊎ K) × Option K
  with_conf conf (inl e) = (inl e, conf)
  with_conf none (inr k) = (inr k, some k)
  with_conf (some k') (inr k) = (inr k', some k')

  -- `getListenConf`: the field `ListenConf` of the `Onion`, here its key, and the files. The keys are read
  -- each time, and used where there is no configuration.
  unfoldable pub get_listen_conf :
      Filepath → Os → Generation K → Bytes → Option K → Disk → ((KeyError ⊎ K) × Option K) × Disk
  unfolding tor_keys
  get_listen_conf fp os gen name conf d =
      let (r, d') = tor_keys fp os gen name d in (with_conf conf r, d')

-- `DeleteOnionKeys`, and so `DeleteKeys` of an `Onion`
unfoldable pub delete_onion_keys : Filepath → Os → Bytes → M KeyError (Unit {0})
unfolding delete_key_file
delete_onion_keys fp os name = delete_key_file fp os tor tor_extension name
