-- ===== src/Keystore/Paths.antt =====
-- What `ensureKeystorePath` and `deleteKeyFile` of common.go come to.
use onramp.Prelude.{
  ◌≡◌, ◌≢◌, refl, ◌∙◌, inl, inr, Sum-cases, none, some, [], ◌++◌, ◌⊎◌, String, bytes_eq, arith,
}
use onramp.Prelude.Map.{Map, lookup, insert, lookup-insert, erase, lookup-erase}
use onramp.Keystore.{
  Bytes, Store, i2p, tor, tls, Disk, path_of, Filepath, Os, OsCall, mkdir_all, default_dir,
  get_joined_wd, ensure_keystore_path, KeyError, delete_key_file, in_keystore, remove_file, M,
}

-- A system that answers without an error to every call on a path.
abbrev pub Works : Os → Type 0
Works os = (c : OsCall) (path : Bytes) → os.answer c path ≡ none

-- What `ensureKeystorePath` comes to: the path is that of the variable, which an error may have set too;
-- everything else is as it was.
abbrev pub Ensured : Store → Disk → (String ⊎ Bytes) × Disk → Type 0
Ensured s d (r, d') =
    (d'.files ≡ d.files)
    × (d'.sam_connections ≡ d.sam_connections)
    × ((path : Bytes) → r ≡ inr path → path_of s d' ≡ path)

pub ensured :
    (fp : Filepath) (os : Os) (s : Store) (d : Disk) → Ensured s d (ensure_keystore_path fp os s d)
unfolding ensure_keystore_path
ensured fp os i2p d = ground arith
ensured fp os tor d = ground arith
ensured fp os tls d = ground arith

-- Once the variable is set, a system that works gives its path and changes nothing.
ensure-Works :
    (fp : Filepath) (os : Os) (s : Store) (d : Disk)
    → Works os
    → path_of s d ≢ []
    → ensure_keystore_path fp os s d ≡ (inr (path_of s d), d)
unfolding ensure_keystore_path
ensure-Works fp os s d w n = ground (arith, w mkdir_all (path_of s d))

-- `filepath.Abs` gives no empty path.
abbrev pub IsAbs : Os → Type 0
IsAbs os = (path q : Bytes) → os.abs path ≡ inr q → q ≢ []

get_joined_wd-nonempty :
    (fp : Filepath) (os : Os) (dir path : Bytes)
    → IsAbs os
    → get_joined_wd fp os dir ≡ inr path
    → path ≢ []
unfolding get_joined_wd
get_joined_wd-nonempty fp os dir path a h = elim (Sum-cases os.getwd) [
  | inl (e, x) ↦ absurd (ground arith)
  | inr (wd, x) ↦ elim (Sum-cases (os.abs (fp.join wd dir))) [
    | inl (e, y) ↦ absurd (ground arith)
    | inr (q, y) ↦ ground (arith, a (fp.join wd dir) q y)
  ]
]

ensured-nonempty :
    (fp : Filepath) (os : Os) (s : Store) (d : Disk) (path : Bytes)
    → IsAbs os
    → (ensure_keystore_path fp os s d).0 ≡ inr path
    → path ≢ []
unfolding ensure_keystore_path
ensured-nonempty fp os i2p d path a h =
    ground (arith, get_joined_wd-nonempty fp os (default_dir i2p) path a)
ensured-nonempty fp os tor d path a h =
    ground (arith, get_joined_wd-nonempty fp os (default_dir tor) path a)
ensured-nonempty fp os tls d path a h =
    ground (arith, get_joined_wd-nonempty fp os (default_dir tls) path a)

-- A call that has had the path of a keystore has it again, of a system that works, also when the files
-- have changed between.
pub ensure-again :
    (fp : Filepath) (os os' : Os) (s : Store) (d d' : Disk) (path : Bytes)
    → IsAbs os
    → Works os'
    → (ensure_keystore_path fp os s d).0 ≡ inr path
    → path_of s d' ≡ path_of s (ensure_keystore_path fp os s d).1
    → ensure_keystore_path fp os' s d' ≡ (inr path, d')
ensure-again fp os os' s d d' path a w h e =
    let same : path_of s d' ≡ path = e ∙ (ensured fp os s d).2 path h in
    rw (← same) (ensure-Works fp os' s d' w (rw same (ensured-nonempty fp os s d path a h)))

-- What is done in a keystore that has a path.
pub in_keystore-to :
    {A : Type 0} (fp : Filepath) (os : Os) (s : Store) (f : Bytes → M KeyError A) (d : Disk)
    (keystore : Bytes)
    → (ensure_keystore_path fp os s d).0 ≡ inr keystore
    → in_keystore fp os s f d ≡ f keystore (ensure_keystore_path fp os s d).1
in_keystore-to fp os s f d keystore x = rw (x, in_keystore)

-- Where it succeeds, the keystore has a path.
pub in_keystore-inr :
    {A : Type 0} (fp : Filepath) (os : Os) (s : Store) (f : Bytes → M KeyError A) (d : Disk) (a : A)
    → (in_keystore fp os s f d).0 ≡ inr a
    → (keystore : Bytes) × ((ensure_keystore_path fp os s d).0 ≡ inr keystore)
      × (in_keystore fp os s f d ≡ f keystore (ensure_keystore_path fp os s d).1)
in_keystore-inr fp os s f d a h = elim (Sum-cases (ensure_keystore_path fp os s d).0) [
  | inl (e, x) ↦ absurd (ground arith)
  | inr (keystore, x) ↦ (keystore, x, in_keystore-to fp os s f d keystore x)
]

-- What is done in a keystore whose path is known.
pub in_keystore-at :
    {A : Type 0} (fp : Filepath) (os : Os) (s : Store) (f : Bytes → M KeyError A) (d d' : Disk)
    (keystore : Bytes)
    → ensure_keystore_path fp os s d ≡ (inr keystore, d')
    → in_keystore fp os s f d ≡ f keystore d'
in_keystore-at fp os s f d d' keystore e =
    let r : (ensure_keystore_path fp os s d).0 ≡ inr keystore = λ i. (e i).0 in
    let l : (ensure_keystore_path fp os s d).1 ≡ d' = λ i. (e i).1 in rw (r, in_keystore, l)

remove_file-inr :
    (os : Os) (path : Bytes) (d : Disk)
    → (remove_file os path d).0 ≡ inr tt
    → remove_file os path d ≡ (inr tt, record d { files = erase path d.files })
remove_file-inr os path d h = ground arith

pub lookup-erase_self : (k : Bytes) (m : Map Bytes Bytes) → lookup k (erase k m) ≡ none
lookup-erase_self k m = rw (lookup-erase k k m, (bytes_eq.beq_iff k k).1 refl)

-- What a success of `deleteKeyFile` leaves.
abbrev pub without_file : Bytes → Disk → Disk
without_file path d = record d { files = erase path d.files }

-- A success of `deleteKeyFile`: the keystore has a path, and the file goes.
pub delete_key_file-inr :
    (fp : Filepath) (os : Os) (s : Store) (ext name : Bytes) (d : Disk)
    → (delete_key_file fp os s ext name d).0 ≡ inr tt
    → (keystore : Bytes) × ((ensure_keystore_path fp os s d).0 ≡ inr keystore)
      × (delete_key_file fp os s ext name d ≡ (
        inr tt,
        without_file (fp.join keystore (name ++ ext)) (ensure_keystore_path fp os s d).1,
      ))
unfolding delete_key_file
delete_key_file-inr fp os s ext name d h =
    let f : Bytes → M KeyError (Unit {0}) =
      λ keystore. remove_file os (fp.join keystore (name ++ ext)) in
    let (keystore, x, e) = in_keystore-inr fp os s f d tt h in
    (keystore, x, e ∙ remove_file-inr os _ _ (rw e at h))

pub lookup-insert_self : (k v : Bytes) (m : Map Bytes Bytes) → lookup k (insert k v m) ≡ some v
lookup-insert_self k v m = rw (lookup-insert k k v m, (bytes_eq.beq_iff k k).1 refl)
