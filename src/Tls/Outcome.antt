-- ===== src/Tls/Outcome.antt =====
-- How `CreateTLSCertificate` of tls.go ends.
use onramp.Prelude.{◌≡◌, refl, Bool, true, false, Option, none, some, String, List, [], ◌∷◌}
use onramp.Tls.{
  keystore_path, stat_cert, stat_key, encode_key, Block, certificate, ec_parameters, ec_private_key,
  x509_crl, cut_off, Files, Answer, Written, write_key, persist_tls_cert_files, generate,
  create_tls_certificate,
}
use onramp.Tls.Laws.{whole_key, create_tls_certificate-skips}

-- The certificate and the key are whole where there is no error.
abbrev Stored : Written → Type 0
Stored (none, f) = (f.cert ≡ some (certificate ∷ [])) × (f.key ≡ some whole_key)
Stored (some e, f) = Unit {0}

-- The three files are whole where there is no error.
abbrev pub Whole : Written → Type 0
Whole (none, f) =
    (f.cert ≡ some (certificate ∷ [])) × (f.key ≡ some whole_key) × (f.crl ≡ some (x509_crl ∷ []))
Whole (some e, f) = Unit {0}

-- What a call comes to: files that were both seen stay as they were, else they are whole where there is
-- no error.
abbrev pub Leaves : Answer → Files → Bool → Written → Type 0
Leaves answer f true x = x ≡ (answer keystore_path, f)
Leaves answer f false x = Whole x

-- Everything works but the writing of the key.
abbrev pub key_fails : String → Answer
key_fails e encode_key = some e
key_fails e s = none

-- Where there is no certificate and everything works but the encoding of the private key,
-- `CreateTLSCertificate` ends with that error and leaves a key file in which the private key is
-- cut off; every later call in which `os.Stat` has no error changes nothing and has no error but
-- that of the keystore's path.
pub key_never_repaired :
    (e : String) (key crl : Option (List Block)) (answer : Answer)
    → answer stat_cert ≡ none
    → answer stat_key ≡ none
    → let (r, f) =
        create_tls_certificate (key_fails e) (record { cert = none; key = key; crl = crl }) in
      (r ≡ some e)
      × (f.key ≡ some (ec_parameters ∷ cut_off ec_private_key ∷ []))
      × (create_tls_certificate answer f ≡ (answer keystore_path, f))
unfolding create_tls_certificate write_key persist_tls_cert_files generate
key_never_repaired e key crl answer sc sk =
    let f =
      (create_tls_certificate (key_fails e) (record { cert = none; key = key; crl = crl })).1 in
    (
      refl,
      refl,
      create_tls_certificate-skips answer f (certificate ∷ [])
          (ec_parameters ∷ cut_off ec_private_key ∷ []) refl refl sc sk,
    )
