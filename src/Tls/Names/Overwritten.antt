-- ===== src/Tls/Names/Overwritten.antt =====
-- The names of a certificate where the caller's array has room.
use onramp.Prelude.{
  ℕ, zero, suc, ◌+◌, ◌≤◌, ◌<◌, ◌==◌, ltb, leb, Bool-cases, true, ◌≡◌, refl, ap, ◌∙◌, Option, none,
  inl, inr, List, [], ◌∷◌, length, take, drop, get_or, set, replicate, arith, if◌then◌else◌,
}
use mathlib.Core.Path.{ap₂, subst}
use onramp.Tls.Names.{
  Name, shared, Template, elements, append_shared, write_from, split_commas, made, add_name,
  range_shared, add_names, new_tls_certificate_alt_names,
}

get_or-set :
    (xs : List Name) (i j : ℕ) (v d : Name)
    → i < length xs
    → get_or (set xs i v) j d ≡ (if i == j then v else get_or xs j d)
get_or-set [] i j v d h = absurd (omega arith)
get_or-set (x ∷ xs) zero zero v d h = refl
get_or-set (x ∷ xs) zero (suc j) v d h = ground arith
get_or-set (x ∷ xs) (suc i) zero v d h = ground arith
get_or-set (x ∷ xs) (suc i) (suc j) v d h = ground (arith, get_or-set xs i j v d)

length-set : (xs : List Name) (i : ℕ) (v : Name) → length (set xs i v) ≡ length xs
length-set [] i v = refl
length-set (x ∷ xs) zero v = refl
length-set (x ∷ xs) (suc i) v = ap suc (length-set xs i v)

length-write_from :
    (array : List Name) (i : ℕ) (xs : List Name) → length (write_from array i xs) ≡ length array
length-write_from array i [] = refl
length-write_from array i (x ∷ xs) =
    length-write_from (set array i x) (suc i) xs ∙ length-set array i x

-- The first cell stays.
first-set :
    (array : List Name) (i : ℕ) (v d : Name) → get_or (set array (suc i) v) 0 d ≡ get_or array 0 d
first-set [] i v d = refl
first-set (x ∷ xs) i v d = refl

first-write_from :
    (array : List Name) (i : ℕ) (xs : List Name) (d : Name)
    → get_or (write_from array (suc i) xs) 0 d ≡ get_or array 0 d
first-write_from array i [] d = refl
first-write_from array i (x ∷ xs) d =
    first-write_from (set array (suc i) x) (suc i) xs d ∙ first-set array i x d

take-replicate :
    (n : ℕ) (xs : List Name) (v d : Name)
    → n ≤ length xs
    → ((j : ℕ) → j < n → get_or xs j d ≡ v)
    → take n xs ≡ replicate n v
take-replicate zero xs v d h f = refl
take-replicate (suc n) [] v d h f = absurd (omega arith)
take-replicate (suc n) (x ∷ xs) v d h f =
    ap₂ ◌∷◌ (f 0 (omega arith))
      (take-replicate n xs v d (omega arith) (λ j l. f (suc j) (omega arith)))

tail-replicate :
    (n : ℕ) (xs : List Name) (v d : Name)
    → n < length xs
    → ((j : ℕ) → j ≤ n → get_or xs j d ≡ v)
    → take n (drop 1 xs) ≡ replicate n v
tail-replicate n [] v d h f = absurd (omega arith)
tail-replicate n (x ∷ xs) v d h f =
    take-replicate n xs v d (omega arith) (λ j l. f (suc j) (omega arith))

first_cell : (xs : List Name) (j : ℕ) (v d : Name) → j ≤ 0 → get_or xs 0 d ≡ v → get_or xs j d ≡ v
first_cell xs zero v d l e = e
first_cell xs (suc j) v d l e = absurd (omega arith)

module _ (parse_ip : Name → Option Name) (host : Name) (no_ip : parse_ip host ≡ none) where
  -- After `i` rounds the first cells, one more than rounds, hold the first name.
  record Overwrites (i : ℕ) (t : Template) : Type 0 where
    cells : (j : ℕ) → j ≤ i → get_or t.array j [] ≡ host
    dns : t.dns_names ≡ shared 1 i
    no_ips : t.ip_addresses ≡ []

  written :
      (i : ℕ) (t : Template)
      → suc i < length t.array
      → Overwrites i t
      → add_name parse_ip (get_or t.array i []) t
        ≡ record t { array = set t.array (suc i) host; dns_names = shared 1 (suc i) }
  unfolding add_name
  written i t h v =
      let q : 1 + i ≡ suc i = omega arith in
      let room : ltb (1 + i) (length t.array) ≡ true = ground arith in
      rw (
        v.cells i (omega arith),
        add_name,
        no_ip,
        v.dns,
        append_shared,
        room,
        q,
        v.cells i (omega arith),
      )

  overwritten :
      (i j : ℕ) (t : Template)
      → Overwrites i t
      → j ≤ suc i
      → (if suc i == j then host else get_or t.array j []) ≡ host
  overwritten i j t v l = elim (Bool-cases (suc i == j)) [
    | inl e ↦ rw e
    | inr n ↦ rw n (v.cells j (ground arith))
  ]

  round :
      (i : ℕ) (t : Template)
      → suc i < length t.array
      → Overwrites i t
      → let t' = add_name parse_ip (get_or t.array i []) t in
        Overwrites (suc i) t' × (length t'.array ≡ length t.array)
  unfolding add_name
  round i t h v =
      let after = record t { array = set t.array (suc i) host; dns_names = shared 1 (suc i) } in
      rw (written i t h v) (
        record {
          cells = λ j l. get_or-set t.array (suc i) j host [] h ∙ overwritten i j t v l;
          dns = refl;
          no_ips = v.no_ips;
        },
        length-set t.array (suc i) host,
      )

  rounds :
      (n i j : ℕ) (t : Template)
      → i + n ≡ j
      → j < length t.array
      → Overwrites i t
      → let t' = range_shared parse_ip i n t in Overwrites j t' × (length t'.array ≡ length t.array)
  unfolding range_shared
  rounds zero i j t e h v =
      let q : i ≡ j = omega arith in (subst (λ (k : ℕ). Overwrites k t) q v, refl)
  rounds (suc n) i j t e h v =
      let (v', l) = round i t (omega arith) v in
      let t' = add_name parse_ip (get_or t.array i []) t in
      let (v'', l') = rounds n (suc i) j t' (omega arith) (rw l h) v' in (v'', l' ∙ l)

  taken :
      (n : ℕ) (t : Template)
      → Overwrites n t
      → n < length t.array
      → elements t.array t.dns_names ≡ replicate n host
  taken n t v h = rw v.dns (tail-replicate n t.array host [] h v.cells)

  -- The parts are written over the cells behind the name.
  in_place :
      (spare : List Name)
      → suc (length (split_commas host)) ≤ length spare
      → add_names parse_ip 1
          (split_commas host)
          (record { array = host ∷ spare; dns_names = shared 1 0; ip_addresses = [] })
        ≡ range_shared parse_ip 0 (suc (length (split_commas host))) (record {
          array = write_from (host ∷ spare) 1 (split_commas host);
          dns_names = shared 1 0;
          ip_addresses = [];
        })
  unfolding add_names
  in_place spare h =
      let k = length (split_commas host) in
      let q : 1 + k ≡ suc k = omega arith in
      let fits : leb (suc k) (suc (length spare)) ≡ true = ground arith in rw (add_names, q, fits)

  -- Where one name is given in an array with room for its parts between commas and one more, the name is
  -- no address and no step fails, the names of the DNS in the certificate are the name itself, once for
  -- itself and once for each part, whatever the parts are.
  pub alt_names-overwritten :
      (spare : List Name)
      → suc (length (split_commas host)) ≤ length spare
      → new_tls_certificate_alt_names parse_ip none none (host ∷ spare) 1
        ≡ made host (replicate (suc (length (split_commas host))) host) []
  unfolding new_tls_certificate_alt_names
  alt_names-overwritten spare h =
      let parts = split_commas host in
      let k = length parts in
      let t : Template = record {
        array = host ∷ spare;
        dns_names = shared 1 0;
        ip_addresses = [];
      } in
      let array = write_from (host ∷ spare) 1 parts in
      let t' : Template = record { array = array; dns_names = shared 1 0; ip_addresses = [] } in
      let size : length array ≡ suc (length spare) = length-write_from (host ∷ spare) 1 parts in
      let start : Overwrites 0 t' = record {
        cells = λ j l. first_cell array j host [] l (first-write_from (host ∷ spare) 0 parts []);
        dns = refl;
        no_ips = refl;
      } in
      let (v, l) = rounds (suc k) 0 (suc k) t' (omega arith) (omega arith) start in
      let e : add_names parse_ip 1 parts t ≡ range_shared parse_ip 0 (suc k) t' =
        in_place spare h in
      rw e (
        ap₂ (made host) (taken (suc k) (range_shared parse_ip 0 (suc k) t') v (omega arith))
          v.no_ips)
