-- ===== src/Tls/Loading.antt =====
-- `TLSKeys` of tls.go: the certificate is made if need be, and loaded from the two files.
use onramp.Prelude.{
  Bool, true, false, ◌&&◌, Option, none, some, String, List, [], ◌∷◌, if◌then◌else◌,
}
use onramp.Tls.{Block, certificate, ec_private_key, Files, Answer, Written, create_tls_certificate}

-- What `tls.LoadX509KeyPair` looks for in the two files: a certificate and a private key; other blocks are
-- passed over.
abbrev pub has_certificate : List Block → Bool
has_certificate [] = false
has_certificate (certificate ∷ bs) = true
has_certificate (b ∷ bs) = has_certificate bs

abbrev pub has_private_key : List Block → Bool
has_private_key [] = false
has_private_key (ec_private_key ∷ bs) = true
has_private_key (b ∷ bs) = has_private_key bs

abbrev pub no_pem : String
no_pem = "tls: failed to find any PEM data"

-- `tls.LoadX509KeyPair`: `load` is the error of reading the files or of matching the key.
abbrev pub load_pair : Option String → Option (List Block) → Option (List Block) → Option String
load_pair load none key = some no_pem
load_pair load (some c) none = some no_pem
load_pair load (some c) (some k) =
    if has_certificate c && has_private_key k then load else some no_pem

-- The end of `TLSKeys`: `path` is the error of the keystore's path.
abbrev pub loaded : Option String → Option String → Written → Written
loaded path load (some e, f) = (some e, f)
loaded (some e) load (none, f) = (some e, f)
loaded none load (none, f) = (load_pair load f.cert f.key, f)

-- `TLSKeys`: its error, if any.
unfoldable pub tls_keys : Answer → Option String → Option String → Files → Written
unfolding create_tls_certificate
tls_keys answer path load f = loaded path load (create_tls_certificate answer f)
