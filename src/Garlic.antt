-- ===== src/Garlic.antt =====
-- `Garlic` of garlic.go: its fields, what it has open at the SAM library, and the errors of its calls. A
-- session of the library is a number; a call asks the library for each kind of thing at most once, and
-- `answer` says what it is told: `none` is success, else the text of the error.
pub mod Ports
pub mod Chains
pub mod Sessions
pub mod Calls
pub mod Closing
pub mod Histories
pub mod Naming
pub mod Listening
pub mod Managed
mod Tests
use onramp.Prelude.{
  ℕ, suc, ◌==◌, ◌&&◌, Bool, true, false, ◌≡◌, ◌↔◌, ◌⊎◌, inl, inr, Option, none, some, String, List,
  [], ◌∷◌, ◌++◌, Eq, ==_iff, if◌then◌else◌, arith,
}
use onramp.Prelude.Map.{Map}
use onramp.Garlic.Ports.{Bytes, AddrError}

-- `streamPortTuple`: from and to.
abbrev pub StreamPortTuple : Type 0
StreamPortTuple = ℕ × ℕ

abbrev pub tuple_beq : StreamPortTuple → StreamPortTuple → Bool
tuple_beq (a, b) (c, d) = a == c && b == d

pub tuple_beq_iff : (s t : StreamPortTuple) → (tuple_beq s t ≡ true) ↔ (s ≡ t)
tuple_beq_iff (a, b) (c, d) = ground arith

instance abbrev pub tuple_eq : Eq StreamPortTuple
tuple_eq = record { beq = tuple_beq; beq_iff = tuple_beq_iff }

-- What is open at the library: a connection, a PRIMARY session, and the sessions under a PRIMARY
-- session, whose number comes second.
pub data Handle : Type 0 where
  connection : ℕ → Handle
  primary_session : ℕ → Handle
  stream_session : ℕ → ℕ → Handle
  hybrid2_session : ℕ → ℕ → Handle
  hybrid1_session : ℕ → ℕ → Handle

-- What is asked of the library: a connection; a PRIMARY session on a connection; a stream session on a
-- PRIMARY session, with its ports; a hybrid session on a PRIMARY session; a listener on a stream
-- session; and a connection to an address over a stream session.
pub data Request : Type 0 where
  connect : Request
  new_primary : ℕ → Request
  new_stream : ℕ → StreamPortTuple → Request
  new_hybrid2 new_hybrid1 : ℕ → Request
  listen : ℕ → Request
  dial : ℕ → Bytes → Request

-- The fields, less those that the constructor sets once, with what is open, the next number, and what
-- has been asked of the library, the latest first.
pub record Garlic : Type 0 where
  pub service_keys : Option String
  pub sam : Option ℕ
  pub primary : Option ℕ
  pub stream_sub : Option ℕ
  pub stream_subs_by_port : Map StreamPortTuple ℕ
  -- 0 until it is chosen
  pub persistent_from_port : ℕ
  pub hybrid2_sub : Option ℕ
  pub hybrid1_sub : Option ℕ
  -- whether there is an embedded bridge that runs
  pub bridge_running : Bool
  pub open_handles : List Handle
  pub next : ℕ
  pub requests : List Request

-- `panics` is a panic and no error.
pub data Error : Type 0 where
  refused : String → Error
  bad_address : AddrError → Error
  bad_from_port too_many_from_ports : Error
  panics : Error

-- What the outside gives to one call: the answers of the library, `g.Keys()`, and the random number of
-- `randomEphemeralPort`.
pub record Outside : Type 0 where
  pub answer : Request → Option String
  pub keys : String ⊎ String
  pub random : String ⊎ ℕ

-- A call: its result, and the fields that it leaves.
abbrev pub M : Type 0 → Type 0
M A = Garlic → (Error ⊎ A) × Garlic

abbrev pub pure : {A : Type 0} → A → M A
pure a g = (inr a, g)

abbrev pub raise : {A : Type 0} → Error → M A
raise e g = (inl e, g)

infixl 5 ◌>>=◌ ◌>>◌
abbrev pub ◌>>=◌ : {A B : Type 0} → M A → (A → M B) → M B
◌>>=◌ m f g = let (r, g') = m g in elim r [ inl e ↦ (inl e, g') | inr a ↦ f a g' ]

abbrev pub ◌>>◌ : {A B : Type 0} → M A → M B → M B
m >> k = m >>= λ _. k

-- A request: its answer, and that it has been made.
unfoldable pub request : Outside → Request → M (Unit {0})
request out r g = elim (out.answer r) [
  | some e ↦ (inl (refused e), record g { requests = r ∷ g.requests })
  | none ↦ (inr tt, record g { requests = r ∷ g.requests })
]

-- The fields of `new(Garlic)`.
abbrev pub new_fields : Garlic
new_fields = record {
  service_keys = none;
  sam = none;
  primary = none;
  stream_sub = none;
  stream_subs_by_port = [];
  persistent_from_port = 0;
  hybrid2_sub = none;
  hybrid1_sub = none;
  bridge_running = false;
  open_handles = [];
  next = 0;
  requests = [];
}
