-- ===== src/Hybridcommon/Maps/Threads.antt =====
-- Any number of threads in `GetOrCreateMapValue` of internal/hybridcommon/maps.go at once. A critical
-- section is one step, and the steps come in any order.
use onramp.Prelude.{
  ℕ, ◌≡◌, sym, ◌∙◌, inl, inr, Bool-cases, none, some, some-injective, ◌==◌, if◌then◌else◌, Eq,
  arith,
}
use onramp.Prelude.Map.{Map, lookup, lookup-insert}
use onramp.Hybridcommon.Maps.{create_locked}

-- Where a thread stands, with its key: before the read, after a read that found nothing, or back with a
-- value. Before it is back it holds what it would create.
pub data Stage {ℓ κ} (K : Type ℓ) (V : Type κ) : Type (ℓ ⊔ κ) where
  start : K → V → Stage K V
  missed : K → V → Stage K V
  back : K → V → Stage K V

pub record World {ℓ κ} (K : Type ℓ) (V : Type κ) : Type (ℓ ⊔ κ) where
  pub values : Map K V
  pub stage : ℕ → Stage K V

module _ {ℓ κ} {K : Type ℓ} {V : Type κ} where
  abbrev pub update : (ℕ → Stage K V) → ℕ → Stage K V → ℕ → Stage K V
  update f i s j = if i == j then s else f j

module _ {ℓ κ} {K : Type ℓ} {V : Type κ} ⦃e : Eq K⦄ where
  -- One critical section of one thread.
  pub data Step (w w' : World K V) : Type (ℓ ⊔ κ) where
    hits :
        (i : ℕ) (key : K) (created value : V)
        → w.stage i ≡ start key created
        → lookup key w.values ≡ some value
        → w' ≡ record w { stage = update w.stage i (back key value) }
        → Step w w'
    misses :
        (i : ℕ) (key : K) (created : V)
        → w.stage i ≡ start key created
        → lookup key w.values ≡ none
        → w' ≡ record w { stage = update w.stage i (missed key created) }
        → Step w w'
    creates :
        (i : ℕ) (key : K) (created : V)
        → w.stage i ≡ missed key created
        → w' ≡ record {
          values = (create_locked key created w.values).1;
          stage = update w.stage i (back key (create_locked key created w.values).0);
        }
        → Step w w'

  pub data Reach (w : World K V) : World K V → Type (ℓ ⊔ κ) where
    here : Reach w w
    next : {v u : World K V} → Reach w v → Step v u → Reach w u

  -- A thread that is back has the value that the map holds.
  abbrev pub Agrees : Map K V → Stage K V → Type κ
  Agrees m (start key created) = Unit
  Agrees m (missed key created) = Unit
  Agrees m (back key value) = lookup key m ≡ some value

  abbrev pub AllAgree : World K V → Type κ
  AllAgree w = (i : ℕ) → Agrees w.values (w.stage i)

  -- What is in the map stays, and the value that comes back is in it.
  create_locked-keeps :
      (key j : K) (created value : V) (m : Map K V)
      → lookup j m ≡ some value
      → lookup j (create_locked key created m).1 ≡ some value
  unfolding create_locked
  create_locked-keeps key j created value m h =
      ground (arith, e.beq_iff key j, lookup-insert key j created m)

  create_locked-returns :
      (key : K) (created : V) (m : Map K V)
      → let (value, m') = create_locked key created m in lookup key m' ≡ some value
  unfolding create_locked
  create_locked-returns key created m =
      ground (arith, e.beq_iff key key, lookup-insert key key created m)

  Agrees-keeps :
      (key : K) (created : V) (m : Map K V) (s : Stage K V)
      → Agrees m s
      → Agrees (create_locked key created m).1 s
  Agrees-keeps key created m (start k v) h = tt
  Agrees-keeps key created m (missed k v) h = tt
  Agrees-keeps key created m (back k v) h = create_locked-keeps key k created v m h

  update-Agrees :
      (m : Map K V) (f : ℕ → Stage K V) (i j : ℕ) (s : Stage K V)
      → Agrees m s
      → Agrees m (f j)
      → Agrees m (update f i s j)
  update-Agrees m f i j s h k = elim (Bool-cases (i == j)) [ inl q ↦ rw q h | inr q ↦ rw q k ]

  Step-AllAgree : {w w' : World K V} → Step w w' → AllAgree w → AllAgree w'
  Step-AllAgree {w} (hits i key created value s found q) h =
      rw q (λ j. update-Agrees w.values w.stage i j (back key value) found (h j))
  Step-AllAgree {w} (misses i key created s absent q) h =
      rw q (λ j. update-Agrees w.values w.stage i j (missed key created) tt (h j))
  Step-AllAgree {w} (creates i key created s q) h = rw q (λ j.
      update-Agrees _ w.stage i j _ (create_locked-returns key created w.values)
        (Agrees-keeps key created w.values (w.stage j) (h j)))

  Reach-AllAgree : {w w' : World K V} → AllAgree w → Reach w w' → AllAgree w'
  Reach-AllAgree h here = h
  Reach-AllAgree h (next r s) = Step-AllAgree s (Reach-AllAgree h r)

  -- Whatever the order of the critical sections of any number of threads, from a state in which
  -- each thread that is back has the value of the map, two threads that come back with one key
  -- have one value.
  pub same_value :
      {w w' : World K V} (i j : ℕ) (key : K) (a b : V)
      → AllAgree w
      → Reach w w'
      → w'.stage i ≡ back key a
      → w'.stage j ≡ back key b
      → a ≡ b
  same_value {w} {w'} i j key a b h r p q =
      let all = Reach-AllAgree h r in some-injective a b (sym (rw p at (all i)) ∙ rw q at (all j))
