-- ===== src/Hybridcommon/Integration/Laws.antt =====
-- What the constructors of an integration (internal/hybridcommon/integration.go) leave open, and what its
-- `Close` closes.
use onramp.Prelude.{
  ◌≡◌, refl, ◌⊎◌, inl, inr, true, false, Option, Option-cases, none, some, String, List, [], ◌∷◌,
  arith, if◌then◌else◌,
}
use mathlib.Core.Path.{ap}
use onramp.Hybridcommon.Integration.{
  Resource, sam_connection, key_pair, primary_session, child_session, SetupError, creating, Setup,
  setup_primary, setup_managed_primary, nil, not_closed, nil_pointer, pointer, Closed, Closes,
  close_managed_resources, with_child, setup_managed_integration, GarlicIntegration, integration_of,
  new_garlic_integration, close_integration,
}

-- The errors of the calls of `Close` on some resources, in their order.
unfoldable pub errors_of : Closes → List Resource → List (Resource × String)
errors_of c [] = []
errors_of c (r ∷ rs) = elim (c.error r) [ none ↦ errors_of c rs | some e ↦ (r, e) ∷ errors_of c rs ]

abbrev owned : List Resource
owned = child_session ∷ primary_session ∷ sam_connection ∷ []

-- An integration that owns its connection closes everything, whatever fails.
abbrev ClosesAll : Closes → Closed → Type 0
ClosesAll c d = (d.calls ≡ owned) × (d.errors ≡ errors_of c owned) × (d.panicked ≡ false)

owned-ClosesAll : (c : Closes) → ClosesAll c (close_managed_resources c pointer true pointer)
unfolding close_managed_resources errors_of
owned-ClosesAll c = ground arith

-- What the end of the constructor is: an error, and nothing to close, or an integration whose `Close`
-- closes what there is to close.
abbrev pub Closable : {T : Type 0} → Closes → Setup (GarlicIntegration T) → Type 0
Closable {T = T} c s =
    ((e : SetupError) × (s.result ≡ inl e) × (s.unclosed ≡ []))
    ⊎ ((gi : GarlicIntegration T) × (s.result ≡ inr gi)
        × (s.unclosed ≡ owned)
        × ClosesAll c (close_integration c gi))

-- What `SetupManagedPrimary` ends with.
abbrev PrimarySet : SetupError ⊎ Unit {0} → List Resource → Type 0
PrimarySet (inl e) unclosed = unclosed ≡ []
PrimarySet (inr u) unclosed = unclosed ≡ primary_session ∷ sam_connection ∷ []

IsSetUp : Setup (Unit {0}) → Type 0
IsSetUp s = PrimarySet s.result s.unclosed

setup_primary-IsSetUp :
    (answer : Resource → Option String) (keys : Option String) → IsSetUp (setup_primary answer keys)
unfolding IsSetUp
setup_primary-IsSetUp answer keys = go (answer primary_session)
  where
    go :
        (a : Option String)
        → IsSetUp (elim a as (λ _. Setup (Unit {0})) [
          | some e ↦ record {
            result = inl (creating primary_session e);
            keys = keys;
            unclosed = [];
          }
          | none ↦ record {
            result = inr tt;
            keys = keys;
            unclosed = primary_session ∷ sam_connection ∷ [];
          }
        ])
    go none = refl
    go (some e) = refl

setup_managed_primary-IsSetUp :
    (answer : Resource → Option String) (generated : String) (keys : Option String)
    → IsSetUp (setup_managed_primary answer generated keys)
unfolding IsSetUp setup_managed_primary
setup_managed_primary-IsSetUp answer generated keys = elim (Option-cases (answer sam_connection)) [
  | inr (e, q) ↦ rw (q, setup_managed_primary) refl
  | inl q ↦ elim (Option-cases keys) [
    | inr (k, r) ↦ rw (q, setup_managed_primary, r) (setup_primary-IsSetUp answer (some k))
    | inl r ↦ elim (Option-cases (answer key_pair)) [
      | inr (e, t) ↦ rw (q, setup_managed_primary, r, t) refl
      | inl t ↦ rw (q, setup_managed_primary, r, t) (setup_primary-IsSetUp answer (some generated))
    ]
  ]
]

with_child-Closable :
    {T : Type 0} (result : SetupError ⊎ Unit {0}) (keys : Option String) (unclosed : List Resource)
    (child : SetupError ⊎ T) (c : Closes)
    → PrimarySet result unclosed
    → Closable c (
        integration_of
          (with_child c (record { result = result; keys = keys; unclosed = unclosed }) child))
unfolding close_integration with_child close_managed_resources
with_child-Closable (inl e) keys unclosed child c v = inl (e, refl, v)
with_child-Closable (inr u) keys unclosed (inl e) c v =
    let calls = (close_managed_resources c nil true pointer).calls in
    inl (e, refl, ap (not_closed calls) v)
with_child-Closable (inr u) keys unclosed (inr session) c v =
    inr (_, refl, ap (λ rs. child_session ∷ rs) v, owned-ClosesAll c)

pub new_garlic_integration-Closable :
    {T : Type 0} (answer : Resource → Option String) (generated : String) (keys : Option String)
    (child : SetupError ⊎ T) (c : Closes)
    → Closable c (new_garlic_integration c answer generated keys child)
unfolding new_garlic_integration setup_managed_integration IsSetUp
new_garlic_integration-Closable answer generated keys child c =
    let s = setup_managed_primary answer generated keys in
    with_child-Closable s.result s.keys s.unclosed child c
      (setup_managed_primary-IsSetUp answer generated keys)

pub from_primary-closes :
    {T : Type 0} (session : T) (c : Closes)
    → let gi : GarlicIntegration T = record {
      sam = nil_pointer;
      primary = true;
      hybrid = session;
      keys = none;
    } in
      ((close_integration c gi).panicked ≡ c.nil_panics)
      × ((close_integration c gi).calls
          ≡ child_session ∷ primary_session ∷ (if c.nil_panics then [] else sam_connection ∷ []))
unfolding close_integration
from_primary-closes session c = (ground arith, ground arith)
