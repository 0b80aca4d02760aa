-- ===== src/Tls/Tests.antt =====
-- The theorems on tls.go at concrete values.
use onramp.Prelude.{leb, ◌&&◌, if◌then◌else◌, ◌≡◌, Option, none, some, [], ◌∷◌}
use onramp.Prelude.Text.{codes}
use onramp.Tls.{certificate, Files, Answer}
use onramp.Tls.Names.{Name, made, split_commas, new_tls_certificate_alt_names}
use onramp.Tls.Names.Laws.{alt_names-fresh}

-- A keystore with a certificate and no key, and a disk that works.
abbrev half : Files
half = record { cert = some (certificate ∷ []); key = none; crl = none }

abbrev works : Answer
works s = none

-- "a,1", and names that are addresses where they start with a digit.
abbrev host : Name
host = codes "a,1"

abbrev parse_ip : Name → Option Name
parse_ip [] = none
parse_ip (c ∷ cs) = if leb b'0' c && leb c b'9' then some (c ∷ cs) else none

alt_names-fresh_example :
    new_tls_certificate_alt_names parse_ip none none (host ∷ codes "b" ∷ []) 2
    ≡ made host (codes "b" ∷ host ∷ codes "b" ∷ codes "a" ∷ []) (codes "1" ∷ [])
unfolding split_commas
alt_names-fresh_example = alt_names-fresh parse_ip host (codes "b" ∷ [])
