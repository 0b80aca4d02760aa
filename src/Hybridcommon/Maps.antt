-- ===== src/Hybridcommon/Maps.antt =====
-- internal/hybridcommon/maps.go: `GetOrCreateMapValue`, with its two critical sections.
pub mod Threads
use onramp.Prelude.{◌≡◌, Option, none, some, if◌then◌else◌, Eq, Option-cases, inl, inr, arith}
use onramp.Prelude.Map.{Map, lookup, insert, insert-IsMap, IsMap, lookup-insert}

-- The value that a lookup finds, or else the one that is created.
abbrev pub or_else {κ} : {V : Type κ} → V → Option V → V
or_else created none = created
or_else created (some value) = value

module _ {ℓ κ} {K : Type ℓ} {V : Type κ} ⦃e : Eq K⦄ where
  -- What follows `mu.Lock()`: the value is looked up again, and created if it is still not there.
  unfoldable pub create_locked : K → V → Map K V → V × Map K V
  create_locked key created values = elim (lookup key values) [
    | some value ↦ (value, values)
    | none ↦ (created, insert key created values)
  ]

  -- `GetOrCreateMapValue`, where no other thread comes between. `created` is `create()`.
  unfoldable pub get_or_create_map_value : K → V → Map K V → V × Map K V
  unfolding create_locked
  get_or_create_map_value key created values = elim (lookup key values) [
    | some value ↦ (value, values)
    | none ↦ create_locked key created values
  ]

  -- Where no other thread comes between, the value that comes back is the one that the map held
  -- under the key, or else the created one; afterwards the map holds it under the key, and
  -- elsewhere what it held before.
  pub get_or_create_map_value_lem :
      (key j : K) (created : V) (m : Map K V)
      → let (value, m') = get_or_create_map_value key created m in
        (value ≡ or_else created (lookup key m))
        × (lookup j m' ≡ (if e.beq key j then some value else lookup j m))
  unfolding get_or_create_map_value
  get_or_create_map_value_lem key j created m =
      ground (arith, e.beq_iff key j, lookup-insert key j created m)

  pub get_or_create_map_value-IsMap :
      (key : K) (created : V) (m : Map K V)
      → IsMap m
      → IsMap (get_or_create_map_value key created m).1
  unfolding get_or_create_map_value
  get_or_create_map_value-IsMap key created m v = ground (arith, insert-IsMap key created m v)
