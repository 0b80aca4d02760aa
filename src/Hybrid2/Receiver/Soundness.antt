-- ===== src/Hybrid2/Receiver/Soundness.antt =====
-- The hashes and the addresses of the table of hybrid2/receiver.go.
use onramp.Prelude.{ℕ, ◌≡◌, refl, inl, inr, Option-cases, some, String, not, bytes_eq, arith}
use onramp.Prelude.Map.{AllEntries, lookup, insert-AllEntries, retain-AllEntries, lookup-AllEntries}
use onramp.Keys.{Keys}
use onramp.Hybrid2.Receiver.{
  SenderHash, Mappings, ReceiverMappingEntry, compute_sender_hash, is_expired, refresh,
  remove_expired_mappings, register_sender, lookup_sender,
}

-- An entry is kept under its hash, which is that of its destination.
abbrev pub Genuine : Keys → SenderHash → ReceiverMappingEntry → Type 0
Genuine k hash r = (r.hash ≡ hash) × (compute_sender_hash k r.destination ≡ hash)

abbrev pub IsSound : Keys → Mappings → Type 0
IsSound k m = AllEntries (Genuine k) m

module _ (k : Keys) where
  pub register_sender-IsSound :
      (now : ℕ) (hash : SenderHash) (dest : String) (m : Mappings)
      → compute_sender_hash k dest ≡ hash
      → IsSound k m
      → IsSound k (register_sender now hash dest m)
  unfolding register_sender
  register_sender-IsSound now hash dest m own v = elim (Option-cases (lookup hash m)) [
    | inl e ↦ rw (e, register_sender) (insert-AllEntries (Genuine k) hash _ m (refl, own) v)
    | inr (entry, e) ↦
        rw (e, register_sender)
          (insert-AllEntries (Genuine k) hash (refresh now entry) m
            (lookup-AllEntries (Genuine k) hash entry m v e) v)
  ]

  pub remove_expired_mappings-IsSound :
      (now : ℕ) (m : Mappings) → IsSound k m → IsSound k (remove_expired_mappings now m)
  unfolding remove_expired_mappings
  remove_expired_mappings-IsSound now m v =
      retain-AllEntries (Genuine k) (λ _ r. not (is_expired now r)) m v

  pub lookup_sender-IsSound :
      (now : ℕ) (hash : SenderHash) (dest : String) (m : Mappings)
      → IsSound k m
      → lookup_sender now hash m ≡ some dest
      → compute_sender_hash k dest ≡ hash
  unfolding lookup_sender
  lookup_sender-IsSound now hash dest m v found = elim (Option-cases (lookup hash m)) [
    | inl e ↦ ground arith
    | inr (entry, e) ↦ ground (arith, lookup-AllEntries (Genuine k) hash entry m v e)
  ]
