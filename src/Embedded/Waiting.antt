-- ===== src/Embedded/Waiting.antt =====
-- The end of `waitForSAMReady` of garlic_sam_embed.go.
use onramp.Prelude.{
  ℕ, zero, suc, ◌+◌, ◌-◌, ◌*◌, ◌≤◌, ◌<◌, ◌≡◌, inl, inr, Bool, Bool-cases, true, false, sym, ◌∙◌,
  leb, leb→le, ◌==◌, ==_iff, ltb, ltb→lt, lt→ltb, some, arith,
}
use mathlib.Core.Path.{subst}
use onramp.Embedded.{poll_interval, wait_from, wait_for_sam_ready}

-- A round that fails sleeps for the interval before the next one reads the clock.
abbrev pub Advances : (ℕ → ℕ) → Type 0
Advances now = (i : ℕ) → now i + poll_interval ≤ now (suc i)

-- How the wait ends: at a round before the deadline in which the address takes the connection, or at one
-- that is not before it; in no earlier round was one taken.
abbrev pub Ends : (ℕ → ℕ) → (ℕ → Bool) → ℕ → ℕ → Bool → Type 0
Ends now dials deadline first true =
    (i : ℕ) × (first ≤ i)
    × (now i < deadline)
    × (dials i ≡ true)
    × ((j : ℕ) → first ≤ j → j < i → dials j ≡ false)
Ends now dials deadline first false =
    (i : ℕ) × (first ≤ i) × (deadline ≤ now i) × ((j : ℕ) → first ≤ j → j < i → dials j ≡ false)

before : (a b : ℕ) → leb a b ≡ false → b < a
before a b h = ground arith

absurd_Bool : true ≡ false → ⊥
absurd_Bool h = cc

module _ (now : ℕ → ℕ) (dials : ℕ → Bool) (deadline : ℕ) where
  -- In a round that fails no connection was taken, so what the later rounds say is said of all.
  none_before :
      (i k : ℕ)
      → dials i ≡ false
      → ((j : ℕ) → suc i ≤ j → j < k → dials j ≡ false)
      → (j : ℕ) → i ≤ j
      → j < k
      → dials j ≡ false
  none_before i k d f j a b = elim (Bool-cases (i == j)) [
    | inl e ↦ subst (λ (t : ℕ). dials t ≡ false) ((==_iff i j).0 e) d
    | inr n ↦ f j (ground arith) b
  ]

  earlier :
      (i : ℕ) (r : Bool)
      → dials i ≡ false
      → Ends now dials deadline (suc i) r
      → Ends now dials deadline i r
  earlier i true d (k, a, b, c, f) = (k, omega arith, b, c, none_before i k d f)
  earlier i false d (k, a, b, f) = (k, omega arith, b, none_before i k d f)

  wait_from-Ends :
      (fuel i : ℕ)
      → Advances now
      → (deadline - now i) + poll_interval ≤ fuel * poll_interval
      → (r : Bool) × (wait_from now dials deadline fuel i ≡ some r) × Ends now dials deadline i r
  unfolding wait_from
  wait_from-Ends zero i a h = absurd (omega arith)
  wait_from-Ends (suc fuel) i a h = elim (Bool-cases (ltb (now i) deadline)) [
    | inr late ↦
        (false, rw (late, wait_from), (i, omega arith, ground arith, λ j p q. absurd (omega arith)))
    | inl early ↦ elim (Bool-cases (dials i)) [
      | inl taken ↦ (
        true,
        rw (early, wait_from, taken),
        (i, omega arith, ltb→lt (now i) deadline early, taken, λ j p q. absurd (omega arith)),
      )
      | inr refused ↦
          let (r, e, v) =
            wait_from-Ends fuel (suc i) a (omega (arith, a i, ltb→lt (now i) deadline early)) in
          (r, rw (early, wait_from, refused) e, earlier i r refused v)
    ]
  ]

  wait_from-takes :
      (fuel i takes lag : ℕ)
      → Advances now
      → ((j : ℕ) → takes ≤ now j → dials j ≡ true)
      → ((j : ℕ) → now (suc j) ≤ now j + lag)
      → takes + lag < deadline
      → now i ≤ takes + lag
      → (deadline - now i) + poll_interval ≤ fuel * poll_interval
      → wait_from now dials deadline fuel i ≡ some true
  unfolding wait_from
  wait_from-takes zero i takes lag a t l d n h = absurd (omega arith)
  wait_from-takes (suc fuel) i takes lag a t l d n h =
      let early : ltb (now i) deadline ≡ true = lt→ltb (now i) deadline (omega arith) in
      elim (Bool-cases (dials i)) [
        | inl taken ↦ rw (early, wait_from, taken)
        | inr refused ↦ elim (Bool-cases (leb takes (now i))) [
          | inl there ↦ absurd (absurd_Bool (sym (t i (leb→le takes (now i) there)) ∙ refused))
          | inr not_yet ↦
              rw (early, wait_from, refused)
                (wait_from-takes fuel (suc i) takes lag a t l d
                  (omega (arith, l i, before takes (now i) not_yet)) (omega (arith, a i)))
        ]
      ]

-- The wait for a bridge ends, if a round that fails takes at least the time of its sleep and there is fuel
-- for one round more than the intervals of the timeout: with success exactly at the first round in which
-- the address takes the connection, if that round is before the deadline, and with an error where no
-- round before the deadline does.
pub wait_for_sam_ready-Ends :
    (now : ℕ → ℕ) (dials : ℕ → Bool) (start timeout fuel : ℕ)
    → Advances now
    → start ≤ now 0
    → timeout + poll_interval ≤ fuel * poll_interval
    → (r : Bool) × (wait_for_sam_ready now dials start timeout fuel ≡ some r)
      × Ends now dials (start + timeout) 0 r
unfolding wait_for_sam_ready
wait_for_sam_ready-Ends now dials start timeout fuel a s f =
    wait_from-Ends now dials (start + timeout) fuel 0 a (omega arith)

-- The wait for a bridge succeeds if the address takes every connection from some time on, a round takes
-- at least the time of its sleep and at most some lag, the first one begins within the lag of that
-- time, the lag after it is over before the deadline, and there is fuel for one round more than the
-- intervals of the timeout.
wait_for_sam_ready-takes :
    (now : ℕ → ℕ) (dials : ℕ → Bool) (start timeout fuel takes lag : ℕ)
    → Advances now
    → start ≤ now 0
    → timeout + poll_interval ≤ fuel * poll_interval
    → ((j : ℕ) → takes ≤ now j → dials j ≡ true)
    → ((j : ℕ) → now (suc j) ≤ now j + lag)
    → now 0 ≤ takes + lag
    → takes + lag < start + timeout
    → wait_for_sam_ready now dials start timeout fuel ≡ some true
unfolding wait_for_sam_ready
wait_for_sam_ready-takes now dials start timeout fuel takes lag a s f t l n d =
    wait_from-takes now dials (start + timeout) fuel 0 takes lag a t l d n (omega arith)
