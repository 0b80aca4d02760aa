-- ===== src/Hybrid2/Receiver.antt =====
-- `ReceiverState` of hybrid2/receiver.go: the table from sender hashes to destinations. A `SenderHash`
-- is the list of its 32 bytes. Each method takes its reading of the clock; `rs.mu` makes it one step.
pub mod Table
pub mod Soundness
use onramp.Prelude.{
  ℕ, Bool, not, Option, none, some, String, List, replicate, ltb, length, if◌then◌else◌, bytes_eq,
}
use onramp.Prelude.Map.{Map, lookup, insert, retain}
use onramp.Prelude.Clock.{since}
use onramp.Keys.{Keys}
use onramp.Hybrid2.Config.{hash_expiry_duration}

abbrev pub SenderHash : Type 0
SenderHash = List ℕ

-- The hash that `var hash SenderHash` starts with.
abbrev pub zero_hash : SenderHash
zero_hash = replicate 32 0

-- `ComputeSenderHash`
unfoldable pub compute_sender_hash : Keys → String → SenderHash
compute_sender_hash k addr = elim (k.to_bytes addr) [
  | none ↦ zero_hash
  | some bytes ↦ k.sha256 bytes
]

pub record ReceiverMappingEntry : Type 0 where
  pub hash : SenderHash
  pub destination : String
  pub first_seen : ℕ
  pub last_refresh : ℕ

abbrev pub Mappings : Type 0
Mappings = Map SenderHash ReceiverMappingEntry

-- `isExpired`
unfoldable pub is_expired : ℕ → ReceiverMappingEntry → Bool
is_expired now r = ltb hash_expiry_duration (since now r.last_refresh)

-- `refresh`
abbrev pub refresh : ℕ → ReceiverMappingEntry → ReceiverMappingEntry
refresh now r = record r { last_refresh = now }

-- `removeExpiredMappings`
unfoldable pub remove_expired_mappings : ℕ → Mappings → Mappings
remove_expired_mappings now m = retain (λ _ r. not (is_expired now r)) m

-- `RegisterSender`
unfoldable pub register_sender : ℕ → SenderHash → String → Mappings → Mappings
register_sender now hash dest m = elim (lookup hash m) [
  | some entry ↦ insert hash (refresh now entry) m
  | none ↦
      insert hash (record { hash = hash; destination = dest; first_seen = now; last_refresh = now })
        m
]

-- An entry that `LookupSender` has found in the table.
abbrev pub resolved : ℕ → Option ReceiverMappingEntry → Option String
resolved now none = none
resolved now (some entry) = if is_expired now entry then none else some entry.destination

-- `ReceiverState.LookupSender`; `none` stands for the empty address and `false`.
unfoldable pub lookup_sender : ℕ → SenderHash → Mappings → Option String
lookup_sender now hash m = resolved now (lookup hash m)

-- `MappingCount`
abbrev pub mapping_count : Mappings → ℕ
mapping_count = length
