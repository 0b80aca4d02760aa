-- ===== src/Garlic/Sessions/Owned.antt =====
-- What a `Garlic` (garlic.go) has open, and its fields.
pub mod Steps
pub mod Setup
use onramp.Prelude.{
  ℕ, suc, ◌+◌, ◌≤◌, ◌<◌, ◌≡◌, refl, ◌⊎◌, inl, inr, Option, none, some, List, [], ◌∷◌, All, arith,
  Eq,
}
use onramp.Prelude.Map.{Map, AllEntries, lookup, insert, insert-AllEntries}
use onramp.Garlic.{
  StreamPortTuple, tuple_eq, Handle, connection, primary_session, stream_session, hybrid2_session,
  hybrid1_session, Garlic,
}
use onramp.Garlic.Ports.{max_port}
use onramp.Garlic.Calls.{min_port}

-- A number stands in the map.
abbrev pub HasValue : ℕ → Map StreamPortTuple ℕ → Type 0
HasValue n [] = ⊥
HasValue n ((ports, m) ∷ rest) = (m ≡ n) ⊎ HasValue n rest

-- A handle is that of a field, or stands under the PRIMARY session of the field and is that of another.
abbrev pub HeldBy :
    Option ℕ → Option ℕ → Option ℕ → Map StreamPortTuple ℕ → Option ℕ → Option ℕ → Handle → Type 0
HeldBy sam primary stream by_port two one (connection n) = sam ≡ some n
HeldBy sam primary stream by_port two one (primary_session n) = primary ≡ some n
HeldBy sam primary stream by_port two one (stream_session n p) =
    (primary ≡ some p) × ((stream ≡ some n) ⊎ HasValue n by_port)
HeldBy sam primary stream by_port two one (hybrid2_session n p) =
    (primary ≡ some p) × (two ≡ some n)
HeldBy sam primary stream by_port two one (hybrid1_session n p) =
    (primary ≡ some p) × (one ≡ some n)

abbrev pub Held : Garlic → Handle → Type 0
Held g = HeldBy g.sam g.primary g.stream_sub g.stream_subs_by_port g.hybrid2_sub g.hybrid1_sub

abbrev pub IsOpen : Handle → List Handle → Type 0
IsOpen h [] = ⊥
IsOpen h (j ∷ hs) = (j ≡ h) ⊎ IsOpen h hs

-- The PRIMARY session of the field, if any, is open.
abbrev pub LivePrimary : Option ℕ → List Handle → Type 0
LivePrimary none hs = Unit {0}
LivePrimary (some p) hs = IsOpen (primary_session p) hs

-- What a field holds is open under the PRIMARY session of the field.
abbrev pub LiveUnder : (ℕ → ℕ → Handle) → List Handle → Option ℕ → Option ℕ → Type 0
LiveUnder mk hs primary none = Unit {0}
LiveUnder mk hs none (some n) = ⊥
LiveUnder mk hs (some p) (some n) = IsOpen (mk n p) hs

abbrev pub LiveEntry : List Handle → Option ℕ → StreamPortTuple → ℕ → Type 0
LiveEntry hs primary ports n = LiveUnder stream_session hs primary (some n)

-- The port is not chosen, or lies in the range for random ports.
abbrev pub IsEphemeral : ℕ → Type 0
IsEphemeral port = (port ≡ 0) ⊎ ((min_port ≤ port) × (port ≤ max_port))

-- Everything open is held by a field, and the sessions of the fields are open.
pub record IsOwned (g : Garlic) : Type 0 where
  pub owned : All (Held g) g.open_handles
  pub primary_live : LivePrimary g.primary g.open_handles
  pub stream_live : LiveUnder stream_session g.open_handles g.primary g.stream_sub
  pub ports_live : AllEntries (LiveEntry g.open_handles g.primary) g.stream_subs_by_port
  pub hybrid2_live : LiveUnder hybrid2_session g.open_handles g.primary g.hybrid2_sub
  pub hybrid1_live : LiveUnder hybrid1_session g.open_handles g.primary g.hybrid1_sub
  pub port_ephemeral : IsEphemeral g.persistent_from_port

pub All-mono :
    {P Q : Handle → Type 0} (hs : List Handle) → ((h : Handle) → P h → Q h) → All P hs → All Q hs
All-mono [] f v = tt
All-mono (h ∷ hs) f v = (f h v.0, All-mono hs f v.1)

-- What is open stays open when one more is opened.
pub LiveUnder-cons :
    (mk : ℕ → ℕ → Handle) (h : Handle) (hs : List Handle) (primary sub : Option ℕ)
    → LiveUnder mk hs primary sub
    → LiveUnder mk (h ∷ hs) primary sub
LiveUnder-cons mk h hs primary none v = tt
LiveUnder-cons mk h hs none (some n) v = v
LiveUnder-cons mk h hs (some p) (some n) v = inr v

pub LivePrimary-cons :
    (h : Handle) (hs : List Handle) (primary : Option ℕ)
    → LivePrimary primary hs
    → LivePrimary primary (h ∷ hs)
LivePrimary-cons h hs none v = tt
LivePrimary-cons h hs (some p) v = inr v

pub LiveEntries-cons :
    (h : Handle) (hs : List Handle) (primary : Option ℕ) (m : Map StreamPortTuple ℕ)
    → AllEntries (LiveEntry hs primary) m
    → AllEntries (LiveEntry (h ∷ hs) primary) m
LiveEntries-cons h hs primary [] v = tt
LiveEntries-cons h hs primary ((ports, n) ∷ m) v =
    (LiveUnder-cons stream_session h hs primary (some n) v.0, LiveEntries-cons h hs primary m v.1)

-- With no PRIMARY session there is nothing under it.
pub LiveUnder-fresh :
    (mk : ℕ → ℕ → Handle) (hs js : List Handle) (n : ℕ) (primary sub : Option ℕ)
    → primary ≡ none
    → LiveUnder mk hs primary sub
    → LiveUnder mk js (some n) sub
LiveUnder-fresh mk hs js n primary none e v = tt
LiveUnder-fresh mk hs js n none (some k) e v = absurd v
LiveUnder-fresh mk hs js n (some p) (some k) e v = cc

pub LiveEntries-fresh :
    (hs js : List Handle) (n : ℕ) (primary : Option ℕ) (m : Map StreamPortTuple ℕ)
    → primary ≡ none
    → AllEntries (LiveEntry hs primary) m
    → AllEntries (LiveEntry js (some n)) m
LiveEntries-fresh hs js n primary [] e v = tt
LiveEntries-fresh hs js n primary ((ports, k) ∷ m) e v = (
  LiveUnder-fresh stream_session hs js n primary (some k) e v.0,
  LiveEntries-fresh hs js n primary m e v.1,
)

-- A field is written only where it is empty.
abbrev pub Fits : Option ℕ → Option ℕ → Type 0
Fits old new = (old ≡ none) ⊎ (old ≡ new)

pub HeldBy-mono :
    {sam sam' primary primary' stream stream' two two' one one' : Option ℕ}
    (by by' : Map StreamPortTuple ℕ)
    → Fits sam sam'
    → Fits primary primary'
    → Fits stream stream'
    → ((n : ℕ) → HasValue n by → HasValue n by')
    → Fits two two'
    → Fits one one'
    → (h : Handle) → HeldBy sam primary stream by two one h
    → HeldBy sam' primary' stream' by' two' one' h
HeldBy-mono by by' a b c d e f (connection n) v = ground arith
HeldBy-mono by by' a b c d e f (primary_session n) v = ground arith
HeldBy-mono by by' a b c d e f (stream_session n p) v = ground (arith, d n)
HeldBy-mono by by' a b c d e f (hybrid2_session n p) v = ground arith
HeldBy-mono by by' a b c d e f (hybrid1_session n p) v = ground arith

pub HasValue-insert :
    (ports : StreamPortTuple) (n : ℕ) (m : Map StreamPortTuple ℕ)
    → lookup ports m ≡ none
    → HasValue n (insert ports n m)
HasValue-insert ports n [] e = inl refl
HasValue-insert ports n ((q, k) ∷ m) e = ground (arith, HasValue-insert ports n m)

pub HasValue-insert_other :
    (ports : StreamPortTuple) (n j : ℕ) (m : Map StreamPortTuple ℕ)
    → lookup ports m ≡ none
    → HasValue j m
    → HasValue j (insert ports n m)
HasValue-insert_other ports n j [] e v = absurd v
HasValue-insert_other ports n j ((q, k) ∷ m) e v = ground (arith, HasValue-insert_other ports n j m)
