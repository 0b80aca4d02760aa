-- ===== src/Tls/Names/Laws.antt =====
-- The names of a certificate where the caller's array has no room.
use onramp.Prelude.{
  ℕ, suc, ◌+◌, ◌≤◌, leb, false, ◌≡◌, refl, sym, ap, ◌∙◌, Option, Option-cases, none, some, inl, inr,
  List, [], ◌∷◌, ◌++◌, length, take, arith,
}
use mathlib.Core.Path.{ap₂}
use mathlib.Core.List.{append_assoc, append-nil}
use onramp.Tls.Names.{
  Name, View, shared, own, Template, elements, append_to, split_commas, made, add_name, range_own,
  add_names, new_tls_certificate_alt_names,
}

longer : (a b : ℕ) → 1 ≤ b → leb (a + b) a ≡ false
longer a b h = ground arith

module _ (parse_ip : Name → Option Name) where
  -- The names that are addresses, as these, and those that are not.
  abbrev pub ips_of : List Name → List Name
  ips_of [] = []
  ips_of (h ∷ hs) = elim (parse_ip h) [ some ip ↦ ip ∷ ips_of hs | none ↦ ips_of hs ]

  abbrev pub dns_of : List Name → List Name
  dns_of [] = []
  dns_of (h ∷ hs) = elim (parse_ip h) [ some ip ↦ dns_of hs | none ↦ h ∷ dns_of hs ]

  -- An append to the slice leaves the caller's array alone.
  abbrev HasNoRoom : List Name → View → Type 0
  HasNoRoom array (shared offset n) = length array ≤ offset + n
  HasNoRoom array (own xs) = Unit

  append_to-own :
      (v : View) (h : Name) (t : Template)
      → HasNoRoom t.array v
      → append_to v h t ≡ record t { dns_names = own (elements t.array v ++ h ∷ []) }
  append_to-own (shared offset n) h t r = ground arith
  append_to-own (own xs) h t r = refl

  -- The loop over names of their own.
  range_own-lem :
      (hs : List Name) (t : Template)
      → HasNoRoom t.array t.dns_names
      → let t' = range_own parse_ip hs t in
        (elements t'.array t'.dns_names ≡ elements t.array t.dns_names ++ dns_of hs)
        × (t'.ip_addresses ≡ t.ip_addresses ++ ips_of hs)
  unfolding range_own
  range_own-lem [] t r = (sym (append-nil _), sym (append-nil _))
  range_own-lem (h ∷ hs) t r = elim (Option-cases (parse_ip h)) [
    | inr (ip, x) ↦
        let t' = record t { ip_addresses = t.ip_addresses ++ ip ∷ [] } in
        let e : add_name parse_ip h t ≡ t' = rw (x, add_name) in
        let v = range_own-lem hs t' r in
        rw (e, range_own, dns_of, x, ips_of)
          (v.0, v.1 ∙ append_assoc t.ip_addresses (ip ∷ []) (ips_of hs))
    | inl x ↦
        let xs = elements t.array t.dns_names ++ h ∷ [] in
        let t' = record t { dns_names = own xs } in
        let e : add_name parse_ip h t ≡ t' = rw (x, add_name) (append_to-own t.dns_names h t r) in
        let v = range_own-lem hs t' tt in
        rw (e, range_own, dns_of, x, ips_of)
          (v.0 ∙ append_assoc (elements t.array t.dns_names) (h ∷ []) (dns_of hs), v.1)
  ]

take-all : (xs : List Name) → take (length xs) xs ≡ xs
take-all [] = refl
take-all (x ∷ xs) = ap (λ ys. x ∷ ys) (take-all xs)

pub split_commas-nonempty : (h : Name) → 1 ≤ length (split_commas h)
unfolding split_commas
split_commas-nonempty [] = omega arith
split_commas-nonempty (c ∷ cs) = ground (arith, split_commas-nonempty cs)

module _ (parse_ip : Name → Option Name) where
  -- Without room, the appended names go to an array of their own.
  add_names-fresh :
      (host : Name) (rest : List Name) (t : Template)
      → t.array ≡ host ∷ rest
      → add_names parse_ip (suc (length rest)) (split_commas host) t
        ≡ range_own parse_ip ((host ∷ rest) ++ split_commas host) t
  unfolding add_names
  add_names-fresh host rest t a =
      let full =
        longer (suc (length rest)) (length (split_commas host)) (split_commas-nonempty host) in
      rw (a, add_names, full, take-all rest)

  -- Where the names, of which there is one at least, fill the array of the caller and no step fails, the
  -- certificate has of the names and the parts of the first name between commas those that are addresses
  -- as addresses, and as names of the DNS the names but the first, and then those that are no addresses.
  pub alt_names-fresh :
      (host : Name) (rest : List Name)
      → let hosts = host ∷ rest in
        let names = hosts ++ split_commas host in
        new_tls_certificate_alt_names parse_ip none none hosts (length hosts)
        ≡ made host (rest ++ dns_of parse_ip names) (ips_of parse_ip names)
  unfolding new_tls_certificate_alt_names
  alt_names-fresh host rest =
      let names = (host ∷ rest) ++ split_commas host in
      let t : Template = record {
        array = host ∷ rest;
        dns_names = shared 1 (length rest);
        ip_addresses = [];
      } in
      let v = range_own-lem parse_ip names t (omega arith) in
      let e : add_names parse_ip (suc (length rest)) (split_commas host) t
          ≡ range_own parse_ip names t =
        add_names-fresh host rest t refl in
      rw e (ap₂ (made host) (v.0 ∙ ap (λ xs. xs ++ dns_of parse_ip names) (take-all rest)) v.1)
