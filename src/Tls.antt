-- ===== src/Tls.antt =====
-- The files of a certificate in tls.go: `CreateTLSCertificate`, `createTLSCertificate`,
-- `persistTLSCertFiles` and `persistTLSCRL`. Each step of Go's packages crypto, encoding and os has an
-- answer, which is an argument: `none` is success, else the text of its error.
pub mod Laws
pub mod Outcome
pub mod Names
pub mod Loading
mod Tests
use onramp.Prelude.{◌≡◌, Bool, true, false, ◌&&◌, Option, none, some, String, List, [], ◌∷◌, ◌++◌}

-- The steps, in the order of the code.
pub data TlsStep : Type 0 where
  keystore_path stat_cert stat_key generate_key new_certificate : TlsStep
  create_cert encode_cert : TlsStep
  open_key marshal_parameters encode_parameters marshal_key encode_key encode_key_cert : TlsStep
  close_key close_cert : TlsStep
  open_crl parse_cert create_list parse_list encode_list close_crl : TlsStep

-- A block of PEM in a file; `cut_off` is what is left of a block whose encoding has failed.
pub data Block : Type 0 where
  certificate ec_parameters ec_private_key x509_crl : Block
  cut_off : Block → Block

-- The files of one host in the keystore, if they are there: .crt, .pem and .crl.
pub record Files : Type 0 where
  pub cert : Option (List Block)
  pub key : Option (List Block)
  pub crl : Option (List Block)

abbrev pub Answer : Type 0
Answer = TlsStep → Option String

-- The error of a call, if any, and the files that it leaves.
abbrev pub Written : Type 0
Written = Option String × Files

-- The next step of a call, unless there is an error.
infixl 5 ◌and◌
abbrev pub ◌and◌ : Written → (Files → Written) → Written
(some e, f) and k = (some e, f)
(none, f) and k = k f

-- A step that writes no file.
abbrev pub check : Answer → TlsStep → Files → Written
check answer s f = (answer s, f)

-- `closeWithErr`, deferred: an error of `Close` counts where there is no other.
abbrev pub close_with_err : Answer → TlsStep → Written → Written
close_with_err answer s (some e, f) = (some e, f)
close_with_err answer s (none, f) = (answer s, f)

abbrev pub appended : Block → Option (List Block) → Option (List Block)
appended b none = none
appended b (some bs) = some (bs ++ b ∷ [])

-- `pem.Encode` to a file: the block, or what is left of it.
abbrev pub encoded : Option String → Block → Block
encoded none b = b
encoded (some e) b = cut_off b

abbrev pub encode_to_cert : Answer → TlsStep → Block → Files → Written
encode_to_cert answer s b f = (answer s, record f { cert = appended (encoded (answer s) b) f.cert })

abbrev pub encode_to_key : Answer → TlsStep → Block → Files → Written
encode_to_key answer s b f = (answer s, record f { key = appended (encoded (answer s) b) f.key })

abbrev pub encode_to_crl : Answer → TlsStep → Block → Files → Written
encode_to_crl answer s b f = (answer s, record f { crl = appended (encoded (answer s) b) f.crl })

-- The part of `persistTLSCertFiles` once the key file is open.
unfoldable pub fill_key : Answer → Files → Written
fill_key answer f =
    check answer marshal_parameters f
    and encode_to_key answer encode_parameters ec_parameters
    and check answer marshal_key
    and encode_to_key answer encode_key ec_private_key
    and encode_to_key answer encode_key_cert certificate

-- The part of `persistTLSCertFiles` once the certificate is written; `os.OpenFile` empties the file.
unfoldable pub write_key : Answer → Files → Written
unfolding fill_key
write_key answer f = elim (answer open_key) [
  | some e ↦ (some e, f)
  | none ↦ close_with_err answer close_key (fill_key answer (record f { key = some [] }))
]

-- `persistTLSCertFiles`
unfoldable pub persist_tls_cert_files : Answer → Files → Written
unfolding write_key
persist_tls_cert_files answer f = elim (answer create_cert) [
  | some e ↦ (some e, f)
  | none ↦ close_with_err answer close_cert (
      encode_to_cert answer encode_cert certificate (record f { cert = some [] })
      and write_key answer)
]

-- `persistTLSCRL`
unfoldable pub persist_tls_crl : Answer → Files → Written
persist_tls_crl answer f = elim (answer open_crl) [
  | some e ↦ (some e, f)
  | none ↦ close_with_err answer close_crl (
      check answer parse_cert (record f { crl = some [] })
      and check answer create_list
      and check answer parse_list
      and encode_to_crl answer encode_list x509_crl)
]

-- `createTLSCertificate`
unfoldable pub generate : Answer → Files → Written
unfolding persist_tls_cert_files persist_tls_crl
generate answer f =
    check answer generate_key f
    and check answer new_certificate
    and check answer keystore_path
    and persist_tls_cert_files answer
    and persist_tls_crl answer

-- Whether `os.Stat` of a file has no error: the file is there, and the call does not fail otherwise.
abbrev pub is_seen : Option String → Option (List Block) → Bool
is_seen (some e) file = false
is_seen none none = false
is_seen none (some bs) = true

-- The branch of `CreateTLSCertificate`: an error of either `os.Stat`, of whatever kind, has the files
-- generated.
abbrev pub generate_if_missing : Answer → Bool → Files → Written
generate_if_missing answer true f = (none, f)
generate_if_missing answer false f = generate answer f

-- Whether both files are seen.
abbrev pub both_seen : Answer → Files → Bool
both_seen answer f = is_seen (answer stat_cert) f.cert && is_seen (answer stat_key) f.key

-- `CreateTLSCertificate`
unfoldable pub create_tls_certificate : Answer → Files → Written
unfolding generate
create_tls_certificate answer f =
    check answer keystore_path f and λ f. generate_if_missing answer (both_seen answer f) f
