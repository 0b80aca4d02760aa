-- ===== src/Keystore/Tests.antt =====
-- The theorems on the keystores at concrete values.
use onramp.Prelude.{ℕ, ◌≡◌, refl, inl, inr, ◌⊎◌, none, some, String, [], ◌∷◌, bytes_eq, arith}
use onramp.Prelude.Text.{codes}
use onramp.Keystore.{Bytes, Disk, ensure_keystore_path, file_error}
use onramp.Samples.{filepath, system, onion_keys}
use onramp.Keystore.I2p.{KeyFile, Sam, i2p_keys}
use onramp.Keystore.I2p.Laws.{i2p_keys_again}
use onramp.Keystore.I2p.Deleting.{Leaves, KeyPath, i2p_keys-Leaves}
use onramp.Keystore.Onion.{Generation, from_bytes, tor_keys}
use onramp.Keystore.Onion.Laws.{tor_keys_never_repaired}

-- Keys are a byte, and a file holds this byte.
abbrev first_byte : Bytes → String ⊎ ℕ
first_byte [] = inl "no keys"
first_byte (c ∷ cs) = inr c

abbrev key_file : KeyFile ℕ
key_file = record { stored = λ k. k ∷ []; loaded = first_byte }

abbrev sam_gives : ℕ → Sam ℕ
sam_gives k = record { connect = none; new_keys = inr k; store = none }

abbrev new_disk : Disk
new_disk = record { i2p_path = []; tor_path = []; tls_path = []; files = []; sam_connections = 0 }

abbrev after_first : Disk
after_first = (i2p_keys key_file filepath system (sam_gives 7) (codes "shop") new_disk).1

-- The second call, in which SAM would make other keys.
i2p_keys_again_example :
    i2p_keys key_file filepath system (sam_gives 8) (codes "shop") after_first
    ≡ (inr 7, after_first)
unfolding i2p_keys
i2p_keys_again_example =
    i2p_keys_again key_file filepath system system (sam_gives 7) (sam_gives 8) (codes "shop")
      new_disk 7 (λ k. (refl, λ h. ground arith)) (λ path q h. ground arith) (λ c path. refl) refl

i2p_keys-Leaves_example :
    Leaves
      (KeyPath filepath system (codes "shop") new_disk)
      new_disk
      (i2p_keys key_file filepath system (sam_gives 7) (codes "shop") new_disk)
i2p_keys-Leaves_example =
    i2p_keys-Leaves key_file filepath system (sam_gives 7) (codes "shop") new_disk

-- A write that fails with nothing written, and one that works.
abbrev full : Generation ℕ
full = record { generated = inr 7; write = some ("full", []) }

abbrev generates : Generation ℕ
generates = record { generated = inr 8; write = none }

tor_keys_never_repaired_example :
    let (r, d) = tor_keys onion_keys filepath system full (codes "shop") new_disk in
    (r ≡ inl (file_error "full"))
    × (tor_keys onion_keys filepath system generates (codes "shop") d
        ≡ (from_bytes onion_keys none, d))
unfolding ensure_keystore_path
tor_keys_never_repaired_example =
    tor_keys_never_repaired onion_keys filepath system system full generates (codes "shop")
      (codes "/home/onionkeys") [] new_disk 7 "full" (λ path q h. ground arith) (λ c path. refl)
      (λ c path. refl) refl refl refl refl
