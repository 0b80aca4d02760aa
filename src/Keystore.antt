-- ===== src/Keystore.antt =====
-- The keystores: `GetJoinedWD`, `ensureKeystorePath`, `deleteKeystorePath` and `deleteKeyFile` of
-- common.go, over the package's variables and the files of the disk. What the operating system answers
-- to a call is an argument: `none` is success, else the text of the error. Directories are not part of
-- the state: whether one can be made or used is an answer.
pub mod Paths
pub mod I2p
pub mod Onion
mod Tests
use onramp.Prelude.{
  ℕ, Bool, true, false, not, ◌&&◌, ◌||◌, ◌⊎◌, inl, inr, Option, none, some, String, List, [], ◌∷◌,
  ◌++◌, bytes_eq,
}
use onramp.Prelude.Map.{Map, lookup, insert, erase, retain}
use onramp.Prelude.Text.{codes}

abbrev pub Bytes : Type 0
Bytes = List ℕ

-- I2P_KEYSTORE_PATH, ONION_KEYSTORE_PATH and TLS_KEYSTORE_PATH
pub data Store : Type 0 where
  i2p tor tls : Store

-- The variables, the contents of the files, and how many connections to SAM are open for making keys.
pub record Disk : Type 0 where
  pub i2p_path : Bytes
  pub tor_path : Bytes
  pub tls_path : Bytes
  pub files : Map Bytes Bytes
  pub sam_connections : ℕ

abbrev pub path_of : Store → Disk → Bytes
path_of i2p d = d.i2p_path
path_of tor d = d.tor_path
path_of tls d = d.tls_path

abbrev pub set_path : Store → Bytes → Disk → Disk
set_path i2p p d = record d { i2p_path = p }
set_path tor p d = record d { tor_path = p }
set_path tls p d = record d { tls_path = p }

-- The names of the default directories.
abbrev pub default_dir : Store → Bytes
default_dir i2p = codes "i2pkeys"
default_dir tor = codes "onionkeys"
default_dir tls = codes "tlskeys"

-- Go's package filepath: `Join` of two elements, and whether a path is in the tree of another.
pub record Filepath : Type 0 where
  pub join : Bytes → Bytes → Bytes
  pub is_inside : Bytes → Bytes → Bool

pub data OsCall : Type 0 where
  stat mkdir_all remove remove_all create close_file read_file : OsCall

-- What the system answers during one call of the package. `undeleted` are the files that an `os.RemoveAll`
-- with an error leaves.
pub record Os : Type 0 where
  pub getwd : String ⊎ Bytes
  pub abs : Bytes → String ⊎ Bytes
  pub answer : OsCall → Bytes → Option String
  pub undeleted : Bytes → Bool

-- A call that can fail.
abbrev pub M : Type 0 → Type 0 → Type 0
M E A = Disk → (E ⊎ A) × Disk

abbrev pub mkdir : Os → Bytes → String ⊎ Bytes
mkdir os path = elim (os.answer mkdir_all path) [ some e ↦ inl e | none ↦ inr path ]

-- The end of `GetJoinedWD`: the directory is made where `os.Stat` has an error.
abbrev pub made_dir : Os → Bytes → String ⊎ Bytes
made_dir os path = elim (os.answer stat path) [ none ↦ inr path | some _ ↦ mkdir os path ]

-- `GetJoinedWD`
unfoldable pub get_joined_wd : Filepath → Os → Bytes → String ⊎ Bytes
get_joined_wd fp os dir = elim os.getwd [
  | inl e ↦ inl e
  | inr wd ↦ elim (os.abs (fp.join wd dir)) [ inl e ↦ inl e | inr path ↦ made_dir os path ]
]

-- The end of `ensureKeystorePath`, once the variable is set.
abbrev pub verified : Os → Store → M String Bytes
verified os s d = (mkdir os (path_of s d), d)

-- `ensureKeystorePath`, and so `I2PKeystorePath`, `TorKeystorePath` and `TLSKeystorePath`
unfoldable pub ensure_keystore_path : Filepath → Os → Store → M String Bytes
unfolding get_joined_wd
ensure_keystore_path fp os s d = elim (path_of s d) [
  | c ∷ cs ↦ verified os s d
  | [] ↦ elim (get_joined_wd fp os (default_dir s)) [
    | inl e ↦ (inl e, d)
    | inr path ↦ verified os s (set_path s path d)
  ]
]

-- What `os.RemoveAll` leaves of the files; it does nothing for an empty path. Where it has an error it may
-- have deleted some files of the tree.
abbrev pub without_tree : Filepath → (Bytes → Bool) → Bytes → Map Bytes Bytes → Map Bytes Bytes
without_tree fp kept path = retain λ k v. not (fp.is_inside path k) || kept k

unfoldable pub remove_tree :
    Filepath → Os → Bytes → Map Bytes Bytes → Option String × Map Bytes Bytes
remove_tree fp os [] files = (none, files)
remove_tree fp os (c ∷ cs) files = elim (os.answer remove_all (c ∷ cs)) [
  | some e ↦ (some e, without_tree fp os.undeleted (c ∷ cs) files)
  | none ↦ (none, without_tree fp (λ k. false) (c ∷ cs) files)
]

-- `deleteKeystorePath`, and so `DeleteI2PKeyStore`, `DeleteTorKeyStore` and `DeleteTLSKeyStore`
unfoldable pub delete_keystore : Filepath → Os → Store → Disk → Option String × Disk
unfolding remove_tree
delete_keystore fp os s d =
    let (e, files) = remove_tree fp os (path_of s d) d.files in (e, record d { files = files })

-- The errors of the functions that read, make and delete keys. `panics` is a panic and no error.
pub data KeyError : Type 0 where
  discovery_error sam_error keygen_error store_error load_error stat_error file_error :
      String → KeyError
  panics : KeyError

-- The error of a call on a file that is not there.
abbrev pub not_there : String
not_there = "file does not exist"

-- The keystore's path, with its error wrapped, and what is done with it.
abbrev pub in_keystore :
    {A : Type 0} → Filepath → Os → Store → (Bytes → M KeyError A) → M KeyError A
in_keystore fp os s f d =
    let (r, d') = ensure_keystore_path fp os s d in
    elim r [ inl e ↦ (inl (discovery_error e), d') | inr path ↦ f path d' ]

-- `os.Remove` of a file
abbrev pub remove_file : Os → Bytes → M KeyError (Unit {0})
remove_file os path d = elim (os.answer remove path) [
  | some e ↦ (inl (file_error e), d)
  | none ↦ elim (lookup path d.files) [
    | none ↦ (inl (file_error not_there), d)
    | some _ ↦ (inr tt, record d { files = erase path d.files })
  ]
]

-- `deleteKeyFile`
unfoldable pub delete_key_file : Filepath → Os → Store → Bytes → Bytes → M KeyError (Unit {0})
unfolding ensure_keystore_path
delete_key_file fp os s ext name =
    in_keystore fp os s λ keystore. remove_file os (fp.join keystore (name ++ ext))

-- What `os.Stat` says of a file.
pub data Stat : Type 0 where
  missing : Stat
  exists : Bytes → Stat
  unknown : String → Stat

abbrev pub stat_of : Option Bytes → Stat
stat_of none = missing
stat_of (some contents) = exists contents

abbrev pub stat_file : Os → Bytes → Disk → Stat
stat_file os path d = elim (os.answer stat path) [
  | some e ↦ unknown e
  | none ↦ stat_of (lookup path d.files)
]

-- `os.ReadFile`
abbrev pub contents_of : Os → Bytes → Disk → String ⊎ Bytes
contents_of os path d = elim (os.answer read_file path) [
  | some e ↦ inl e
  | none ↦ elim (lookup path d.files) [ none ↦ inl not_there | some contents ↦ inr contents ]
]
