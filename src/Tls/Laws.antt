-- ===== src/Tls/Laws.antt =====
-- What `CreateTLSCertificate` of tls.go leaves in the keystore.
use onramp.Prelude.{
  ◌≡◌, refl, ◌⊎◌, inl, inr, Option, Option-cases, none, some, String, List, [], ◌∷◌,
}
use onramp.Tls.{
  TlsStep, keystore_path, stat_cert, stat_key, open_key, marshal_parameters, encode_parameters,
  marshal_key, encode_key, encode_key_cert, close_key, Block, certificate, ec_parameters,
  ec_private_key, Files, Answer, Written, ◌and◌, appended, encoded, close_with_err, fill_key,
  write_key, create_tls_certificate,
}

-- The contents of a key file that is written wholly.
abbrev pub whole_key : List Block
whole_key = ec_parameters ∷ ec_private_key ∷ certificate ∷ []

-- What is written where there is no error, and that the key file is there in any case.
abbrev KeyFilled : Files → Written → Type 0
KeyFilled f (none, f') = (f'.cert ≡ f.cert) × (f'.key ≡ some whole_key)
KeyFilled f (some e, f') = (f'.cert ≡ f.cert) × ((bs : List Block) × (f'.key ≡ some bs))

fill_key-KeyFilled :
    (answer : Answer) (f : Files) → KeyFilled f (fill_key answer (record f { key = some [] }))
unfolding fill_key
fill_key-KeyFilled answer f =
    go (answer marshal_parameters) (answer encode_parameters) (answer marshal_key)
      (answer encode_key) (answer encode_key_cert)
  where
    go :
        (a b c d e : Option String)
        → KeyFilled f (
            (a, record f { key = some [] })
            and (λ g. (b, record g { key = appended (encoded b ec_parameters) g.key }))
            and (λ g. (c, g))
            and (λ g. (d, record g { key = appended (encoded d ec_private_key) g.key }))
            and (λ g. (e, record g { key = appended (encoded e certificate) g.key })))
    go (some x) b c d e = (refl, (_, refl))
    go none (some x) c d e = (refl, (_, refl))
    go none none (some x) d e = (refl, (_, refl))
    go none none none (some x) e = (refl, (_, refl))
    go none none none none (some x) = (refl, (_, refl))
    go none none none none none = (refl, refl)

-- What a call comes to once the certificate is in its file: the key is whole; or there is an error, and the
-- key file was left as it was, or is there.
abbrev pub KeyWritten : Files → Written → Type 0
KeyWritten f (none, f') = (f'.cert ≡ f.cert) × (f'.key ≡ some whole_key)
KeyWritten f (some e, f') =
    (f'.cert ≡ f.cert) × ((f'.key ≡ f.key) ⊎ ((bs : List Block) × (f'.key ≡ some bs)))

closed-KeyWritten :
    (answer : Answer) (s : TlsStep) (f : Files) (x : Written)
    → KeyFilled f x
    → KeyWritten f (close_with_err answer s x)
closed-KeyWritten answer s f (some e, f') (c, k) = (c, inr k)
closed-KeyWritten answer s f (none, f') (c, k) = elim (Option-cases (answer s)) [
  | inl a ↦ rw a (c, k)
  | inr (e, a) ↦ rw a (c, inr (whole_key, k))
]

pub write_key-KeyWritten : (answer : Answer) (f : Files) → KeyWritten f (write_key answer f)
unfolding write_key
write_key-KeyWritten answer f = elim (Option-cases (answer open_key)) [
  | inl a ↦ rw (a, write_key) (closed-KeyWritten answer close_key f _ (fill_key-KeyFilled answer f))
  | inr (e, a) ↦ rw (a, write_key) (refl, inl refl)
]

-- Files that are both seen are not generated again.
pub create_tls_certificate-skips :
    (answer : Answer) (f : Files) (cert key : List Block)
    → f.cert ≡ some cert
    → f.key ≡ some key
    → answer stat_cert ≡ none
    → answer stat_key ≡ none
    → create_tls_certificate answer f ≡ (answer keystore_path, f)
unfolding create_tls_certificate
create_tls_certificate-skips answer f cert key c k s t =
    elim (Option-cases (answer keystore_path)) [
      | inl a ↦ rw (a, create_tls_certificate, s, c, t, k) refl
      | inr (e, a) ↦ rw (a, create_tls_certificate) refl
    ]
