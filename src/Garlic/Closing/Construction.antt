-- ===== src/Garlic/Closing/Construction.antt =====
-- What `newGarlic` of garlic.go ends with.
use onramp.Prelude.{
  ℕ, ◌≡◌, refl, ◌⊎◌, inl, inr, Bool, true, false, Option-cases, none, some, sym, String, [], ◌∷◌,
}
use mathlib.Core.Path.{ap, subst}
use onramp.Garlic.{connection, Garlic, connect, Error, refused, Outside, new_fields, request}
use onramp.Garlic.Chains.{bind-stop, bind-ok, request-error, request-ok}
use onramp.Garlic.Sessions.{sam_session, opened_sam}
use onramp.Garlic.Sessions.Owned.{IsOwned}
use onramp.Garlic.Sessions.Owned.Steps.{opened_sam-IsOwned}
use onramp.Garlic.Sessions.Owned.Setup.{asked-IsOwned}
use onramp.Garlic.Closing.{connected, Bridge, no_bridge, no_start, no_answer, runs, new_garlic}

-- A `Garlic` whose fields are empty but for the bridge.
pub empty-IsOwned : (b : Bool) → IsOwned (record new_fields { bridge_running = b })
empty-IsOwned b = record {
  owned = tt;
  primary_live = tt;
  stream_live = tt;
  ports_live = tt;
  hybrid2_live = tt;
  hybrid1_live = tt;
  port_ephemeral = inl refl;
}

-- What the constructor ends with.
abbrev pub Constructed : (Error ⊎ ℕ) × Garlic → Type 0
Constructed (inl e, g) = IsOwned g × (g.open_handles ≡ []) × (g.bridge_running ≡ false)
Constructed (inr n, g) = IsOwned g × (g.sam ≡ some n) × (g.open_handles ≡ connection n ∷ [])

-- `connected`, by what `samSession` gives.
connected-sam_session :
    (out : Outside) (g : Garlic) (x : (Error ⊎ ℕ) × Garlic)
    → sam_session out g ≡ x
    → connected out g ≡ elim x.0 as (λ _. (Error ⊎ ℕ) × Garlic) [
      | inl e ↦ (inl e, record x.1 { bridge_running = false })
      | inr n ↦ (inr n, x.1)
    ]
connected-sam_session out g x v =
    ap
      (λ (y : (Error ⊎ ℕ) × Garlic). elim y.0 as (λ _. (Error ⊎ ℕ) × Garlic) [
        | inl e ↦ (inl e, record y.1 { bridge_running = false })
        | inr n ↦ (inr n, y.1)
      ])
      v

connected-error :
    (out : Outside) (b : Bool) (e : String)
    → out.answer connect ≡ some e
    → connected out (record new_fields { bridge_running = b })
      ≡ (inl (refused e), record new_fields { requests = connect ∷ [] })
unfolding sam_session
connected-error out b e a =
    let g = record new_fields { bridge_running = b } in
    let g' = record g { requests = connect ∷ [] } in
    connected-sam_session out g (inl (refused e), g')
      (bind-stop (request out connect) (λ (u : Unit {0}) g'. (inr g'.next, opened_sam g')) g g'
        (refused e) (request-error out connect g e a))

connected-ok :
    (out : Outside) (b : Bool)
    → out.answer connect ≡ none
    → connected out (record new_fields { bridge_running = b })
      ≡ (inr 0, opened_sam (record new_fields { bridge_running = b; requests = connect ∷ [] }))
unfolding sam_session
connected-ok out b a =
    let g = record new_fields { bridge_running = b } in
    let g' = record g { requests = connect ∷ [] } in
    connected-sam_session out g (inr 0, opened_sam g')
      (bind-ok (request out connect) (λ (u : Unit {0}) g'. (inr g'.next, opened_sam g')) g g' tt
        (request-ok out connect g a))

connected-Constructed :
    (out : Outside) (b : Bool)
    → Constructed (connected out (record new_fields { bridge_running = b }))
connected-Constructed out b = elim (Option-cases (out.answer connect)) [
  | inl a ↦
      let owned =
        opened_sam-IsOwned (record new_fields { bridge_running = b; requests = connect ∷ [] }) refl
          (asked-IsOwned (connect ∷ []) (record new_fields { bridge_running = b })
            (empty-IsOwned b)) in
      subst Constructed (sym (connected-ok out b a)) (owned, refl, refl)
  | inr (e, a) ↦
      let owned = asked-IsOwned (connect ∷ []) new_fields (empty-IsOwned false) in
      subst Constructed (sym (connected-error out b e a)) (owned, refl, refl)
]

pub Constructed-IsOwned : (x : (Error ⊎ ℕ) × Garlic) → Constructed x → IsOwned x.1
Constructed-IsOwned (inl e, g) v = v.0
Constructed-IsOwned (inr n, g) v = v.0

-- The constructor of a `Garlic` ends with an error, nothing open and no bridge that runs, or with
-- a connection in its field that is all it has open; either way the fields agree with what is
-- open.
pub new_garlic-Constructed : (out : Outside) (b : Bridge) → Constructed (new_garlic out b)
unfolding new_garlic
new_garlic-Constructed out no_bridge = connected-Constructed out false
new_garlic-Constructed out (no_start e) = (empty-IsOwned false, refl, refl)
new_garlic-Constructed out (no_answer e) = (empty-IsOwned false, refl, refl)
new_garlic-Constructed out runs = connected-Constructed out true
