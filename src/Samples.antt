-- ===== src/Samples.antt =====
-- Values at which the modules of tests apply the theorems.
use onramp.Prelude.{
  ℕ, ◌+◌, ◌*◌, ◌/◌, ◌==◌, ltb, if◌then◌else◌, String, Option, none, some, List, [], ◌∷◌, ◌++◌, take,
  length, inr, bytes_eq, false, string_eq,
}
use onramp.Prelude.Float.{Floats}
use onramp.Keys.{Keys}
use onramp.Prelude.Text.{codes}
use onramp.Keystore.{Bytes, Filepath, Os}
use onramp.Keystore.Onion.{OnionKeys}

-- Floating-point numbers in thousandths.
abbrev pub floats : Floats
floats = record {
  Float = ℕ;
  zero_f = 0;
  one_f = 1000;
  nine_tenths = 900;
  one_tenth = 100;
  mul_f = λ a b. a * b / 1000;
  add_f = ◌+◌;
  eq_f = ◌==◌;
  gt_f = λ a b. ltb b a;
}

-- Two addresses that have bytes, and no others.
abbrev pub address_bytes : String → Option (List ℕ)
address_bytes addr =
    if string_eq.beq addr "alice"
    then some (1 ∷ [])
    else if string_eq.beq addr "bob"
    then some (2 ∷ [])
    else none

abbrev pub keys : Keys
keys = record {
  base64 = λ addr. addr;
  base32 = λ addr. addr;
  to_bytes = address_bytes;
  sha256 = λ bytes. bytes;
}

-- Paths with slashes.
abbrev pub filepath : Filepath
filepath = record {
  join = λ a b. a ++ b'/' ∷ b;
  is_inside = λ a b. bytes_eq.beq (take (length a) b) a;
}

-- A system without errors.
abbrev pub system : Os
system = record {
  getwd = inr (codes "home");
  abs = λ path. inr (b'/' ∷ path);
  answer = λ c path. none;
  undeleted = λ path. false;
}

-- Onion keys are a byte, which is written twice and read once.
abbrev from_first : Bytes → Option ℕ
from_first [] = none
from_first (c ∷ cs) = some c

abbrev pub onion_keys : OnionKeys ℕ
onion_keys = record { private_key = λ k. k ∷ k ∷ []; from_crypto_private_key = from_first }
