-- ===== src/Tls/Names.antt =====
-- `NewTLSCertificateAltNames` of tls.go, as far as the names go, and `NewTLSCertificate`. A slice of Go is a
-- view of an array: `hosts` and `template.DNSNames` start in the array of the caller, and an append
-- writes to it as long as there is room.
pub mod Laws
pub mod Overwritten
use onramp.Prelude.{
  ℕ, zero, suc, ◌+◌, ◌==◌, ltb, leb, Bool, true, false, ◌≡◌, Option, none, some, String, List, [],
  ◌∷◌, ◌++◌, if◌then◌else◌, length, take, drop, get_or, set,
}

-- A name is the list of its bytes.
abbrev pub Name : Type 0
Name = List ℕ

-- A slice: from an offset of the caller's array, with its length; or an array that nothing else refers to.
pub data View : Type 0 where
  shared : ℕ → ℕ → View
  own : List Name → View

-- The caller's array up to its capacity, and `template.DNSNames` and `template.IPAddresses`.
pub record Template : Type 0 where
  pub array : List Name
  pub dns_names : View
  pub ip_addresses : List Name

-- The elements of a slice.
abbrev pub elements : List Name → View → List Name
elements array (shared offset n) = take n (drop offset array)
elements array (own xs) = xs

-- `append` of one name to `template.DNSNames`, with room in the caller's array or without.
abbrev pub append_shared : ℕ → ℕ → Name → Template → Template
append_shared offset n h t =
    if ltb (offset + n) (length t.array)
    then record t { array = set t.array (offset + n) h; dns_names = shared offset (suc n) }
    else record t { dns_names = own (take n (drop offset t.array) ++ h ∷ []) }

abbrev pub append_to : View → Name → Template → Template
append_to (shared offset n) h t = append_shared offset n h t
append_to (own xs) h t = record t { dns_names = own (xs ++ h ∷ []) }

-- `strings.Split(host, ",")`
abbrev pub prepend_to_first : ℕ → List Name → List Name
prepend_to_first c [] = (c ∷ []) ∷ []
prepend_to_first c (p ∷ ps) = (c ∷ p) ∷ ps

unfoldable pub split_commas : Name → List Name
split_commas [] = [] ∷ []
split_commas (c ∷ cs) =
    if c == b',' then [] ∷ split_commas cs else prepend_to_first c (split_commas cs)

-- The names of one slice written over the cells of an array, from an index on.
abbrev pub write_from : List Name → ℕ → List Name → List Name
write_from array i [] = array
write_from array i (x ∷ xs) = write_from (set array i x) (suc i) xs

-- How a call ends: it panics, or has an error, or a certificate with its names.
pub data Certificate : Type 0 where
  panics : Certificate
  failed : String → Certificate
  made : Name → List Name → List Name → Certificate

-- `net.ParseIP`, where it gives something
module _ (parse_ip : Name → Option Name) where
  -- The body of the loop over the names.
  unfoldable pub add_name : Name → Template → Template
  add_name h t = elim (parse_ip h) [
    | some ip ↦ record t { ip_addresses = t.ip_addresses ++ ip ∷ [] }
    | none ↦ append_to t.dns_names h t
  ]

  -- The loop over a slice of the caller's array, whose cells are read as the rounds come to them.
  unfoldable pub range_shared : ℕ → ℕ → Template → Template
  unfolding add_name
  range_shared i zero t = t
  range_shared i (suc n) t = range_shared (suc i) n (add_name (get_or t.array i []) t)

  -- The loop over a slice of an array of its own.
  unfoldable pub range_own : List Name → Template → Template
  unfolding add_name
  range_own [] t = t
  range_own (h ∷ hs) t = range_own hs (add_name h t)

  -- `hosts = append(hosts, strings.Split(host, ",")...)` and the loop: `n` is the length of `hosts`.
  unfoldable pub add_names : ℕ → List Name → Template → Template
  unfolding range_shared range_own
  add_names n parts t =
      if leb (n + length parts) (length t.array)
      then range_shared 0 (n + length parts) (record t { array = write_from t.array n parts })
      else range_own (take n t.array ++ parts) t

  -- The end of the call: `x509.CreateCertificate`.
  abbrev pub created : Option String → Name → Template → Certificate
  created (some e) host t = failed e
  created none host t = made host (elements t.array t.dns_names) t.ip_addresses

  -- The call once there is a serial number: `n` names at the start of the caller's array. `hosts[1:]` panics
  -- where there is none.
  unfoldable pub with_serial : Option String → List Name → ℕ → Certificate
  unfolding add_names split_commas
  with_serial create array zero = panics
  with_serial create array (suc n) =
      let host = get_or array 0 [] in
      created create host (
        add_names (suc n) (split_commas host)
          (record { array = array; dns_names = shared 1 n; ip_addresses = [] }))

  -- `NewTLSCertificateAltNames`: `serial` is the error of `rand.Int` and `create` that of
  -- `x509.CreateCertificate`.
  unfoldable pub new_tls_certificate_alt_names :
      Option String → Option String → List Name → ℕ → Certificate
  unfolding with_serial
  new_tls_certificate_alt_names (some e) create array n = failed e
  new_tls_certificate_alt_names none create array n = with_serial create array n

  -- `NewTLSCertificate`: the array is that of the call.
  unfoldable pub new_tls_certificate : Option String → Option String → Name → Certificate
  unfolding new_tls_certificate_alt_names
  new_tls_certificate serial create host = new_tls_certificate_alt_names serial create (host ∷ []) 1
