-- ===== src/Keys.antt =====
-- What the sources take from elsewhere about addresses: the methods of `i2pkeys.I2PAddr`, which is a
-- string type of a third-party package, and SHA-256.
use onramp.Prelude.{ℕ, String, List, Option}

pub record Keys : Type 0 where
  -- `addr.Base64()`, `addr.Base32()`
  pub base64 : String → String
  pub base32 : String → String
  -- `addr.ToBytes()`, `none` where it fails
  pub to_bytes : String → Option (List ℕ)
  -- `h := sha256.New(); h.Write(b); h.Sum(nil)`
  pub sha256 : List ℕ → List ℕ
