-- ===== src/Prelude/Map.antt =====
-- Go's maps as association lists in which each key stands once.
use Prim.Native.Nat.{◌≤◌}
use mathlib.Core.Path.{◌≡◌, refl, sym, subst, subst₂}
use mathlib.Core.Logic.{inl, inr}
use mathlib.Core.Bool.{Bool, true, false}
use mathlib.Core.Option.{Option, none, some, some-injective}
use mathlib.Core.List.{List, [], ◌∷◌}
use native.Mathlib.Omega.{arith}
use onramp.Prelude.Tests.{Eq, Bool-cases, if◌then◌else◌}
use onramp.Prelude.Lists.{length}

abbrev pub Map {ℓ κ} : Type ℓ → Type κ → Type (ℓ ⊔ κ)
Map K V = List (K × V)

module _ {ℓ κ} {K : Type ℓ} {V : Type κ} ⦃e : Eq K⦄ where
  -- `m[k]`
  abbrev pub lookup : K → Map K V → Option V
  lookup k [] = none
  lookup k ((j, v) ∷ m) = if e.beq j k then some v else lookup k m

  -- `_, ok := m[k]`
  abbrev pub contains : K → Map K V → Bool
  contains k m = elim (lookup k m) [ none ↦ false | some _ ↦ true ]

  -- `m[k] = v`
  abbrev pub insert : K → V → Map K V → Map K V
  insert k v [] = (k, v) ∷ []
  insert k v ((j, w) ∷ m) = if e.beq j k then (j, v) ∷ m else (j, w) ∷ insert k v m

  -- `delete(m, k)`
  abbrev pub erase : K → Map K V → Map K V
  erase k [] = []
  erase k ((j, w) ∷ m) = if e.beq j k then erase k m else (j, w) ∷ erase k m

  pub lookup-insert :
      (k j : K) (v : V) (m : Map K V)
      → lookup j (insert k v m) ≡ (if e.beq k j then some v else lookup j m)
  lookup-insert k j v [] = refl
  lookup-insert k j v ((i, w) ∷ m) =
      ground (arith, e.beq_iff k j, e.beq_iff i k, e.beq_iff i j, lookup-insert k j v m)

  pub lookup-erase :
      (k j : K) (m : Map K V) → lookup j (erase k m) ≡ (if e.beq k j then none else lookup j m)
  lookup-erase k j [] = ground arith
  lookup-erase k j ((i, w) ∷ m) =
      ground (arith, e.beq_iff k j, e.beq_iff i k, e.beq_iff i j, lookup-erase k j m)

  -- Each key stands once.
  abbrev pub IsMap : Map K V → Type (ℓ ⊔ κ)
  IsMap [] = Unit
  IsMap ((k, v) ∷ m) = (lookup k m ≡ none) × IsMap m

-- Deleting entries while ranging over a map.
module _ {ℓ κ} {K : Type ℓ} {V : Type κ} ⦃e : Eq K⦄ (p : K → V → Bool) where
  -- The entries that pass the test stay.
  abbrev pub retain : Map K V → Map K V
  retain [] = []
  retain ((k, v) ∷ m) = if p k v then (k, v) ∷ retain m else retain m

  -- What is left of an entry that is found.
  abbrev pub retained : K → Option V → Option V
  retained k none = none
  retained k (some v) = if p k v then some v else none

  lookup-retain-none : (k : K) (m : Map K V) → lookup k m ≡ none → lookup k (retain m) ≡ none
  lookup-retain-none k [] h = refl
  lookup-retain-none k ((j, w) ∷ m) h = ground (arith, lookup-retain-none k m)

  pub lookup-retain :
      (k : K) (m : Map K V) → IsMap m → lookup k (retain m) ≡ retained k (lookup k m)
  lookup-retain k [] h = refl
  lookup-retain k ((j, w) ∷ m) h =
      ground (arith, e.beq_iff j k, lookup-retain k m h.1, lookup-retain-none j m h.0)

  pub retain-IsMap : (m : Map K V) → IsMap m → IsMap (retain m)
  retain-IsMap [] h = tt
  retain-IsMap ((k, v) ∷ m) h = ground (arith, retain-IsMap m h.1, lookup-retain-none k m h.0)

  pub length-retain-le : (m : Map K V) → length (retain m) ≤ length m
  length-retain-le [] = omega arith
  length-retain-le ((k, v) ∷ m) = ground (arith, length-retain-le m)

module _ {ℓ κ} {K : Type ℓ} {V : Type κ} ⦃e : Eq K⦄ where
  pub insert-IsMap : (k : K) (v : V) (m : Map K V) → IsMap m → IsMap (insert k v m)
  insert-IsMap k v [] h = (refl, tt)
  insert-IsMap k v ((j, w) ∷ m) h =
      ground (arith, e.beq_iff j k, e.beq_iff k j, insert-IsMap k v m h.1, lookup-insert k j v m)

  -- A predicate of every entry.
  abbrev pub AllEntries {ρ} : (K → V → Type ρ) → Map K V → Type ρ
  AllEntries P [] = Unit
  AllEntries P ((k, v) ∷ m) = P k v × AllEntries P m

  pub lookup-AllEntries {ρ} :
      (P : K → V → Type ρ) (k : K) (v : V) (m : Map K V)
      → AllEntries P m
      → lookup k m ≡ some v
      → P k v
  lookup-AllEntries P k v [] h q = cc
  lookup-AllEntries P k v ((j, w) ∷ m) h q = elim (Bool-cases (e.beq j k)) [
    | inl hit ↦ subst₂ P ((e.beq_iff j k).0 hit) (some-injective w v (rw hit at q)) h.0
    | inr miss ↦ lookup-AllEntries P k v m h.1 (rw miss at q)
  ]

  pub insert-AllEntries {ρ} :
      (P : K → V → Type ρ) (k : K) (v : V) (m : Map K V)
      → P k v
      → AllEntries P m
      → AllEntries P (insert k v m)
  insert-AllEntries P k v [] p h = (p, tt)
  insert-AllEntries P k v ((j, w) ∷ m) p h = elim (Bool-cases (e.beq j k)) [
    | inl hit ↦ rw hit (subst (λ i. P i v) (sym ((e.beq_iff j k).0 hit)) p, h.1)
    | inr miss ↦ rw miss (h.0, insert-AllEntries P k v m p h.1)
  ]

  pub retain-AllEntries {ρ} :
      (P : K → V → Type ρ) (p : K → V → Bool) (m : Map K V)
      → AllEntries P m
      → AllEntries P (retain p m)
  retain-AllEntries P p [] h = tt
  retain-AllEntries P p ((j, w) ∷ m) h = elim (Bool-cases (p j w)) [
    | inl kept ↦ rw kept (h.0, retain-AllEntries P p m h.1)
    | inr gone ↦ rw gone (retain-AllEntries P p m h.1)
  ]
