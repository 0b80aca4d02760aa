-- ===== src/Garlic/Naming/Laws.antt =====
-- The ids of the sessions of a `Garlic`, and what is left of its identity.
use onramp.Prelude.{
  ℕ, zero, suc, ◌+◌, ◌*◌, ◌-◌, ◌/◌, ◌%◌, ◌<◌, ltb, Bool, Bool-cases, false, ◌≡◌, refl, sym, ap, ◌∙◌,
  inl, inr, none, some, some-injective, [], ◌∷◌, ◌++◌, arith,
}
use mathlib.Core.Path.{ap₂}
use onramp.Prelude.Text.{codes}
use onramp.Garlic.{Garlic, Outside}
use onramp.Garlic.Ports.{Bytes, has_byte, split_first}
use onramp.Garlic.Sessions.{setup_primary_session}
use onramp.Garlic.Closing.{delete_keys}
use onramp.Garlic.Naming.{
  get_name, digits, decimal, SubSession, stream, hybrid2, hybrid1, stream_by_port, ports_text,
  suffix, sub_id, AddressTexts, string,
}

-- The number that digits stand for, from a first part on.
read_from : ℕ → Bytes → ℕ
read_from acc [] = acc
read_from acc (c ∷ cs) = read_from (acc * 10 + (c - b'0')) cs

digits-read :
    (fuel n : ℕ) (out : Bytes) → n < fuel → read_from 0 (digits fuel n out) ≡ read_from n out
unfolding digits read_from
digits-read zero n out h = absurd (omega arith)
digits-read (suc fuel) n out h = elim (Bool-cases (ltb n 10)) [
  | inl one ↦ rw (one, digits) (ap (λ (m : ℕ). read_from m out) (omega arith))
  | inr more ↦
      rw (more, digits)
        (digits-read fuel (n / 10) ((b'0' + n % 10) ∷ out) (ground arith)
          ∙ ap (λ (m : ℕ). read_from m out) (omega arith))
]

decimal-read : (n : ℕ) → read_from 0 (decimal n) ≡ n
unfolding decimal read_from
decimal-read n = digits-read (suc n) n [] (omega arith)

digits-no_dash :
    (fuel n : ℕ) (out : Bytes)
    → has_byte b'-' out ≡ false
    → has_byte b'-' (digits fuel n out) ≡ false
unfolding digits
digits-no_dash zero n out h = h
digits-no_dash (suc fuel) n out h = elim (Bool-cases (ltb n 10)) [
  | inl one ↦ rw (one, digits) (ground arith)
  | inr more ↦
      rw (more, digits) (digits-no_dash fuel (n / 10) ((b'0' + n % 10) ∷ out) (ground arith))
]

decimal-no_dash : (n : ℕ) → has_byte b'-' (decimal n) ≡ false
unfolding decimal
decimal-no_dash n = digits-no_dash (suc n) n [] refl

split_first-append :
    (c : ℕ) (s t : Bytes) → has_byte c s ≡ false → split_first c (s ++ c ∷ t) ≡ some (s, t)
unfolding split_first
split_first-append c [] t h = ground arith
split_first-append c (x ∷ s) t h = ground (arith, split_first-append c s t)

ports_text-injective : (a b a' b' : ℕ) → ports_text a b ≡ ports_text a' b' → (a ≡ a') × (b ≡ b')
ports_text-injective a b a' b' h =
    let e : some (decimal a, decimal b) ≡ some (decimal a', decimal b') =
      sym (split_first-append b'-' (decimal a) (decimal b) (decimal-no_dash a))
      ∙ ap (split_first b'-') h
      ∙ split_first-append b'-' (decimal a') (decimal b') (decimal-no_dash a') in
    let p : (decimal a, decimal b) ≡ (decimal a', decimal b') = some-injective _ _ e in
    (
      sym (decimal-read a) ∙ ap (λ (x : Bytes × Bytes). read_from 0 x.0) p ∙ decimal-read a',
      sym (decimal-read b) ∙ ap (λ (x : Bytes × Bytes). read_from 0 x.1) p ∙ decimal-read b',
    )

append-cancel : (xs ys zs : Bytes) → xs ++ ys ≡ xs ++ zs → ys ≡ zs
append-cancel [] ys zs h = h
append-cancel (x ∷ xs) ys zs h = append-cancel xs ys zs (ground arith)

suffix-injective : (s s' : SubSession) → suffix s ≡ suffix s' → s ≡ s'
suffix-injective stream stream h = refl
suffix-injective hybrid2 hybrid2 h = refl
suffix-injective hybrid1 hybrid1 h = refl
suffix-injective (stream_by_port a b) (stream_by_port a' b') h =
    let (p, q) =
      ports_text-injective a b a' b'
        (append-cancel (codes "-stream-") (ports_text a b) (ports_text a' b') h) in
    ap₂ stream_by_port p q
suffix-injective _ _ h = absurd (ground arith)

-- The sessions under the PRIMARY session of one `Garlic` have different ids.
pub sub_id-injective : (name : Bytes) (s s' : SubSession) → sub_id name s ≡ sub_id name s' → s ≡ s'
unfolding sub_id
sub_id-injective name s s' h =
    suffix-injective s s' (append-cancel (get_name name) (suffix s) (suffix s') h)

-- Where `DeleteKeys` has succeeded on a `Garlic` with a PRIMARY session, that session is used on without
-- asking for keys or for anything else, and `String` is empty in every mode.
pub delete_keys-keeps :
    (out : Outside) (l : AddressTexts) (mode : ℕ) (torrent_mode : Bool) (g : Garlic) (p : ℕ)
    → g.primary ≡ some p
    → let g' = (delete_keys none g).1 in
      (setup_primary_session out g' ≡ (inr p, g')) × (string l mode torrent_mode g' ≡ [])
unfolding setup_primary_session string
delete_keys-keeps out l mode torrent_mode g p h = (ground arith, refl)
