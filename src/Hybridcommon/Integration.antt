-- ===== src/Hybridcommon/Integration.antt =====
-- internal/hybridcommon/integration.go, but for `NewSessionFromSAM`: `SetupManagedPrimary`,
-- `SetupManagedIntegration` and `CloseManagedResources`, with the two constructors of a `GarlicIntegration`
-- and its `Close`, which hybrid1/integration.go and hybrid2/integration.go have alike. What the SAM library
-- answers to each request, and to each `Close`, is an argument: `none` is success, else the text of its
-- error.
pub mod Laws
pub mod Packages
use onramp.Prelude.{
  ℕ, ◌==◌, ◌||◌, ◌⊎◌, inl, inr, Bool, true, false, Option, none, some, String, List, [], ◌∷◌, ◌++◌,
  if◌then◌else◌,
}

-- What is asked of the library.
pub data Resource : Type 0 where
  sam_connection key_pair primary_session child_session : Resource

-- The step that failed, with the text of its error.
pub data SetupError : Type 0 where
  creating : Resource → String → SetupError

-- The end of a constructor: the error or what was made, the keys of the caller's variable, and what was
-- opened and has not been given to `Close`, the latest first.
pub record Setup (T : Type 0) : Type 0 where
  pub result : SetupError ⊎ T
  pub keys : Option String
  pub unclosed : List Resource

-- `SetupManagedPrimary`, once there are keys.
abbrev pub setup_primary : (Resource → Option String) → Option String → Setup (Unit {0})
setup_primary answer keys = elim (answer primary_session) [
  | some e ↦ record { result = inl (creating primary_session e); keys = keys; unclosed = [] }
  | none ↦ record { result = inr tt; keys = keys; unclosed = primary_session ∷ sam_connection ∷ [] }
]

-- `SetupManagedPrimary`; `generated` are the keys that the library makes.
unfoldable pub setup_managed_primary :
    (Resource → Option String) → String → Option String → Setup (Unit {0})
setup_managed_primary answer generated keys = elim (answer sam_connection) [
  | some e ↦ record { result = inl (creating sam_connection e); keys = keys; unclosed = [] }
  | none ↦ elim keys [
    | some k ↦ setup_primary answer (some k)
    | none ↦ elim (answer key_pair) [
      | some e ↦ record { result = inl (creating key_pair e); keys = none; unclosed = [] }
      | none ↦ setup_primary answer (some generated)
    ]
  ]
]

-- A value of the type io.Closer: nil, a nil pointer with its type, or a pointer.
pub data Closer : Type 0 where
  nil nil_pointer pointer : Closer

-- The calls of `Close`, in their order, and their errors; `panicked` where one of them panicked.
pub record Closed : Type 0 where
  pub calls : List Resource
  pub errors : List (Resource × String)
  pub panicked : Bool

-- What `Close` of the library comes to: its errors, and what it does on a nil pointer: `true` is a
-- panic.
pub record Closes : Type 0 where
  pub error : Resource → Option String
  pub nil_panics : Bool

-- One `Close` after others, joined with `errors.Join`.
abbrev pub close_one : Closes → Resource → Closed → Closed
close_one c r d = if d.panicked then d else record {
  calls = d.calls ++ r ∷ [];
  errors = elim (c.error r) [ none ↦ d.errors | some e ↦ d.errors ++ (r, e) ∷ [] ];
  panicked = false;
}

-- A `Close` on an interface value that is not nil.
abbrev pub close_closer : Closes → Resource → Closer → Closed → Closed
close_closer c r nil d = d
close_closer c r pointer d = close_one c r d
close_closer c r nil_pointer d =
    if c.nil_panics
    then record { calls = d.calls; errors = d.errors; panicked = true }
    else close_one c r d

-- The part of `CloseManagedResources` under `sam != nil`; `primary` is whether the PRIMARY session is not
-- nil.
abbrev pub close_owned : Closes → Bool → Closer → Closed → Closed
close_owned c primary nil d = d
close_owned c primary sam d =
    close_closer c sam_connection sam (if primary then close_one c primary_session d else d)

abbrev pub nothing_closed : Closed
nothing_closed = record { calls = []; errors = []; panicked = false }

-- `CloseManagedResources`
unfoldable pub close_managed_resources : Closes → Closer → Bool → Closer → Closed
close_managed_resources c session primary sam =
    close_owned c primary sam (close_closer c child_session session nothing_closed)

abbrev pub rank : Resource → ℕ
rank sam_connection = 0
rank key_pair = 1
rank primary_session = 2
rank child_session = 3

abbrev pub is_among : Resource → List Resource → Bool
is_among r [] = false
is_among r (s ∷ rs) = rank r == rank s || is_among r rs

-- What is left of the open resources after calls of `Close`.
abbrev pub not_closed : List Resource → List Resource → List Resource
not_closed calls [] = []
not_closed calls (r ∷ rs) =
    if is_among r calls then not_closed calls rs else r ∷ not_closed calls rs

-- The end of `SetupManagedIntegration`, over what `createSession` gives.
unfoldable pub with_child : {T : Type 0} → Closes → Setup (Unit {0}) → SetupError ⊎ T → Setup T
unfolding close_managed_resources
with_child c s child = elim s.result [
  | inl e ↦ record { result = inl e; keys = s.keys; unclosed = s.unclosed }
  | inr u ↦ elim child [
    -- `CloseManagedResources` is called with a nil session; its error is dropped.
    | inl e ↦ record {
      result = inl e;
      keys = s.keys;
      unclosed = not_closed (close_managed_resources c nil true pointer).calls s.unclosed;
    }
    | inr session ↦ record {
      result = inr session;
      keys = s.keys;
      unclosed = child_session ∷ s.unclosed;
    }
  ]
]

-- `SetupManagedIntegration`
unfoldable pub setup_managed_integration :
    {T : Type 0}
    → Closes
    → (Resource → Option String)
    → String
    → Option String
    → SetupError ⊎ T
    → Setup T
unfolding setup_managed_primary with_child
setup_managed_integration c answer generated keys child =
    with_child c (setup_managed_primary answer generated keys) child

-- `GarlicIntegration`, with its pointers as interface values.
pub record GarlicIntegration (T : Type 0) : Type 0 where
  pub sam : Closer
  pub primary : Bool
  pub hybrid : T
  pub keys : Option String

-- The result of a constructor, with a function on what it made.
abbrev pub map_result : {S T : Type 0} → (S → T) → SetupError ⊎ S → SetupError ⊎ T
map_result f (inl e) = inl e
map_result f (inr a) = inr (f a)

-- The end of `NewGarlicIntegration`: the pointers and the keys are put in the fields.
abbrev pub integration_of : {T : Type 0} → Setup T → Setup (GarlicIntegration T)
integration_of s = record {
  result =
      map_result
        (λ session. record { sam = pointer; primary = true; hybrid = session; keys = s.keys })
        s.result;
  keys = s.keys;
  unclosed = s.unclosed;
}

-- `NewGarlicIntegration`
unfoldable pub new_garlic_integration :
    {T : Type 0}
    → Closes
    → (Resource → Option String)
    → String
    → Option String
    → SetupError ⊎ T
    → Setup (GarlicIntegration T)
unfolding setup_managed_integration
new_garlic_integration c answer generated keys child =
    integration_of (setup_managed_integration c answer generated keys child)

-- `NewGarlicIntegrationFromPrimary`, on a PRIMARY session of the caller.
abbrev pub new_garlic_integration_from_primary :
    {T : Type 0} → SetupError ⊎ T → SetupError ⊎ GarlicIntegration T
new_garlic_integration_from_primary child =
    map_result
      (λ session. record { sam = nil_pointer; primary = true; hybrid = session; keys = none }) child

-- `GarlicIntegration.Close`
unfoldable pub close_integration : {T : Type 0} → Closes → GarlicIntegration T → Closed
unfolding close_managed_resources
close_integration c gi = close_managed_resources c pointer gi.primary gi.sam
