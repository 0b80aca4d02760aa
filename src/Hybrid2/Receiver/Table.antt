-- ===== src/Hybrid2/Receiver/Table.antt =====
-- The table of hybrid2/receiver.go seen through `LookupSender`.
use onramp.Prelude.{
  ℕ, ◌≤◌, ◌≡◌, inl, inr, Option-cases, none, some, String, not, if◌then◌else◌, bytes_eq, bytes_beq,
  arith,
}
use onramp.Prelude.Map.{IsMap, lookup, insert-IsMap, retain-IsMap, lookup-insert, lookup-retain}
use onramp.Hybrid2.Receiver.{
  SenderHash, Mappings, ReceiverMappingEntry, is_expired, refresh, remove_expired_mappings,
  register_sender, lookup_sender,
}

-- The destination that a hash has once a datagram2 has come in: the first one that was registered.
abbrev pub registered : SenderHash → String → Mappings → String
registered hash dest m = elim (lookup hash m) [ none ↦ dest | some entry ↦ entry.destination ]

-- After a registration, a lookup at the same time finds under its hash the destination that the
-- table had there or else the new one, and elsewhere what it found before.
pub lookup-register_sender :
    (now : ℕ) (hash j : SenderHash) (dest : String) (m : Mappings)
    → lookup_sender now j (register_sender now hash dest m)
      ≡ (if bytes_beq hash j then some (registered hash dest m) else lookup_sender now j m)
unfolding lookup_sender register_sender is_expired
lookup-register_sender now hash j dest m = elim (Option-cases (lookup hash m)) [
  | inl e ↦
      rw (e, register_sender)
        (ground (
          arith,
          lookup-insert {V = ReceiverMappingEntry} hash j
              (record { hash = hash; destination = dest; first_seen = now; last_refresh = now }) m,
        ))
  | inr (entry, e) ↦
      rw (e, register_sender) (ground (arith, lookup-insert hash j (refresh now entry) m))
]

-- On a table in which each hash stands once, a cleanup changes the result of no lookup at its
-- time or later.
lookup-remove_expired_mappings :
    (now later : ℕ) (j : SenderHash) (m : Mappings)
    → IsMap m
    → now ≤ later
    → lookup_sender later j (remove_expired_mappings now m) ≡ lookup_sender later j m
unfolding lookup_sender remove_expired_mappings is_expired
lookup-remove_expired_mappings now later j m v h =
    ground (arith, lookup-retain (λ _ r. not (is_expired now r)) j m v)

pub register_sender-IsMap :
    (now : ℕ) (hash : SenderHash) (dest : String) (m : Mappings)
    → IsMap m
    → IsMap (register_sender now hash dest m)
unfolding register_sender
register_sender-IsMap now hash dest m v = elim (Option-cases (lookup hash m)) [
  | inl e ↦ rw (e, register_sender) (insert-IsMap hash _ m v)
  | inr (entry, e) ↦ rw (e, register_sender) (insert-IsMap hash _ m v)
]

pub remove_expired_mappings-IsMap :
    (now : ℕ) (m : Mappings) → IsMap m → IsMap (remove_expired_mappings now m)
unfolding remove_expired_mappings
remove_expired_mappings-IsMap now m v = retain-IsMap (λ _ r. not (is_expired now r)) m v
