-- ===== src/Garlic/Closing/Laws.antt =====
-- What `Close` of garlic.go closes, and what a closed `Garlic` does.
use onramp.Prelude.{
  ℕ, ==_iff, ◌≡◌, refl, inl, inr, Bool, Bool-cases, Option, Option-cases, none, some, ◌∙◌, String,
  List, [], ◌∷◌, All, arith,
}
use mathlib.Core.Path.{ap}
use onramp.Garlic.{
  Handle, connection, primary_session, stream_session, hybrid2_session, hybrid1_session, Garlic,
  Request, new_primary, listen, new_stream, new_hybrid2, refused, Outside, ◌>>=◌, ◌>>◌, request,
}
use onramp.Garlic.Chains.{bind-error, bind-ok}
use onramp.Garlic.Sessions.{
  sam_session, setup_primary_session, setup_stream_sub_session, setup_hybrid2_session, make,
  opened_primary, set_keys, make_primary, under_primary, opened_stream, opened_hybrid2,
}
use onramp.Garlic.Sessions.Owned.{Held, IsOwned}
use onramp.Garlic.Closing.{
  belongs_to, is_connection, is_hybrid2, is_hybrid1, without, Closes, close_one, close,
}
use onramp.Garlic.Calls.{listen_stream, listen_packet, use_stream}

-- The library closes all of them.
abbrev pub all_close : Closes
all_close = record {
  hybrid2_error = none;
  hybrid1_error = none;
  primary_error = none;
  sam_error = none;
}

without-All :
    (P : Handle → Type 0) (p : Handle → Bool) (hs : List Handle) → All P hs → All P (without p hs)
without-All P p [] v = tt
without-All P p (h ∷ hs) v = elim (Bool-cases (p h)) [
  | inl e ↦ rw e (without-All P p hs v.1)
  | inr e ↦ rw e (v.0, without-All P p hs v.1)
]

close_one-All :
    (P : Handle → Type 0) (sub : Option ℕ) (p : ℕ → Handle → Bool) (hs : List Handle)
    (es : List String)
    → All P hs
    → All P (close_one sub none p (hs, es)).0
close_one-All P none p hs es v = v
close_one-All P (some n) p hs es v = without-All P (p n) hs v

-- The connection of the field, and nothing else.
abbrev IsConnectionOf : Option ℕ → Handle → Type 0
IsConnectionOf sam (connection n) = sam ≡ some n
IsConnectionOf sam h = ⊥

under_none :
    (g : Garlic) (hs : List Handle)
    → g.primary ≡ none
    → All (Held g) hs
    → All (IsConnectionOf g.sam) hs
under_none g [] e v = tt
under_none g (connection n ∷ hs) e v = (v.0, under_none g hs e v.1)
under_none g (primary_session n ∷ hs) e v = absurd (ground arith)
under_none g (stream_session n p ∷ hs) e v = absurd (ground arith)
under_none g (hybrid2_session n p ∷ hs) e v = absurd (ground arith)
under_none g (hybrid1_session n p ∷ hs) e v = absurd (ground arith)

without_primary :
    (g : Garlic) (p : ℕ) (hs : List Handle)
    → g.primary ≡ some p
    → All (Held g) hs
    → All (IsConnectionOf g.sam) (without (belongs_to p) hs)
without_primary g p [] e v = tt
without_primary g p (connection n ∷ hs) e v = (v.0, without_primary g p hs e v.1)
without_primary g p (primary_session n ∷ hs) e v =
    ground (arith, ==_iff n p, without_primary g p hs e v.1)
without_primary g p (stream_session n q ∷ hs) e v =
    ground (arith, ==_iff q p, without_primary g p hs e v.1)
without_primary g p (hybrid2_session n q ∷ hs) e v =
    ground (arith, ==_iff q p, without_primary g p hs e v.1)
without_primary g p (hybrid1_session n q ∷ hs) e v =
    ground (arith, ==_iff q p, without_primary g p hs e v.1)

close_primary-All :
    (g : Garlic) (hs : List Handle) (es : List String)
    → All (Held g) hs
    → All (IsConnectionOf g.sam) (close_one g.primary none belongs_to (hs, es)).0
close_primary-All g hs es v = elim (Option-cases g.primary) [
  | inl e ↦ rw e (under_none g hs e v)
  | inr (p, e) ↦ rw e (without_primary g p hs e v)
]

close_sam-nil :
    (sam : Option ℕ) (hs : List Handle) (es : List String)
    → All (IsConnectionOf sam) hs
    → (close_one sam none is_connection (hs, es)).0 ≡ []
close_sam-nil none [] es v = refl
close_sam-nil none (connection n ∷ hs) es v = absurd (ground arith)
close_sam-nil none (primary_session n ∷ hs) es v = absurd v.0
close_sam-nil none (stream_session n p ∷ hs) es v = absurd v.0
close_sam-nil none (hybrid2_session n p ∷ hs) es v = absurd v.0
close_sam-nil none (hybrid1_session n p ∷ hs) es v = absurd v.0
close_sam-nil (some c) [] es v = refl
close_sam-nil (some c) (connection n ∷ hs) es v =
    ground (arith, ==_iff n c, close_sam-nil (some c) hs es v.1)
close_sam-nil (some c) (primary_session n ∷ hs) es v = absurd v.0
close_sam-nil (some c) (stream_session n p ∷ hs) es v = absurd v.0
close_sam-nil (some c) (hybrid2_session n p ∷ hs) es v = absurd v.0
close_sam-nil (some c) (hybrid1_session n p ∷ hs) es v = absurd v.0

pub close-nil : (g : Garlic) → IsOwned g → (close all_close g).1.open_handles ≡ []
unfolding close
close-nil g v =
    let two = close_one g.hybrid2_sub none is_hybrid2 (g.open_handles, []) in
    let one = close_one g.hybrid1_sub none is_hybrid1 two in
    let first = close_one-All (Held g) g.hybrid2_sub is_hybrid2 g.open_handles [] v.owned in
    let second = close_one-All (Held g) g.hybrid1_sub is_hybrid1 two.0 two.1 first in
    let third = close_primary-All g one.0 one.1 second in
    let last = close_one g.primary none belongs_to one in close_sam-nil g.sam last.0 last.1 third

All-nil : (P : Handle → Type 0) (hs : List Handle) → hs ≡ [] → All P hs
All-nil P [] e = tt
All-nil P (h ∷ hs) e = cc

-- The fields are empty, and nothing is open.
pub close-IsOwned : (g : Garlic) → IsOwned g → IsOwned (close all_close g).1
unfolding close
close-IsOwned g v =
    let g' = (close all_close g).1 in
    record {
      owned = All-nil (Held g') g'.open_handles (close-nil g v);
      primary_live = tt;
      stream_live = tt;
      ports_live = tt;
      hybrid2_live = tt;
      hybrid1_live = tt;
      port_ephemeral = inl refl;
    }

sam_session-some :
    (out : Outside) (g : Garlic) (c : ℕ) → g.sam ≡ some c → sam_session out g ≡ (inr c, g)
unfolding sam_session
sam_session-some out g c e = rw e refl

make-refused :
    (out : Outside) (r : Request) (opened : Garlic → Garlic) (g : Garlic) (e : String)
    → out.answer r ≡ some e
    → (make out r opened g).0 ≡ inl (refused e)
unfolding request
make-refused out r opened g e a = rw (a, request) refl

set_keys-ok :
    (out : Outside) (g : Garlic) (address : String)
    → out.keys ≡ inr address
    → set_keys out g ≡ (inr tt, record g { service_keys = some address })
set_keys-ok out g address k = rw k refl

make_primary-some :
    (out : Outside) (g : Garlic) (c : ℕ)
    → g.sam ≡ some c
    → make_primary out g ≡ make out (new_primary c) opened_primary g
make_primary-some out g c e = rw e refl

setup_primary_session-none :
    (out : Outside) (g : Garlic)
    → g.primary ≡ none
    → setup_primary_session out g ≡ (set_keys out >> make_primary out) g
unfolding setup_primary_session
setup_primary_session-none out g e = rw e refl

primary-refused :
    (out : Outside) (g : Garlic) (c : ℕ) (address e : String)
    → g.primary ≡ none
    → g.sam ≡ some c
    → out.keys ≡ inr address
    → out.answer (new_primary c) ≡ some e
    → (setup_primary_session out g).0 ≡ inl (refused e)
primary-refused out g c address e p is_sam k a =
    let g' = record g { service_keys = some address } in
    let keyed =
      bind-ok (set_keys out) (λ _. make_primary out) g g' tt (set_keys-ok out g address k) in
    let whole = setup_primary_session-none out g p ∙ keyed ∙ make_primary-some out g' c is_sam in
    ap (λ r. r.0) whole ∙ make-refused out (new_primary c) opened_primary g' e a

-- Where a `Garlic` with a connection is as its invariant says, its keys can be read and the
-- library refuses a PRIMARY session on that connection, then after a `Close` that closes
-- everything nothing is open, and each `ListenStream` and `ListenPacket` ends with that refusal:
-- the closed connection is asked, and no new one is made.
pub reopened_on_closed :
    (out : Outside) (g : Garlic) (c : ℕ) (address e : String)
    → IsOwned g
    → g.sam ≡ some c
    → out.keys ≡ inr address
    → out.answer (new_primary c) ≡ some e
    → let g' = (close all_close g).1 in
      (g'.open_handles ≡ [])
      × ((listen_stream out g').0 ≡ inl (refused e))
      × ((listen_packet out g').0 ≡ inl (refused e))
unfolding close listen_stream listen_packet setup_stream_sub_session setup_hybrid2_session
reopened_on_closed out g c address e v is_sam k a =
    let g' = (close all_close g).1 in
    let keep = sam_session-some out g' c is_sam in
    let refusal = primary-refused out g' c address e refl is_sam k a in
    let stream = λ (n : ℕ). under_primary out (λ p. new_stream p (0, 0)) opened_stream in
    let packet = λ (n : ℕ). under_primary out new_hybrid2 opened_hybrid2 in
    let sub = bind-error (setup_primary_session out) stream g' (refused e) refusal in
    let listener =
      bind-error (setup_stream_sub_session out) (use_stream out listen) g' (refused e) sub in
    (
      close-nil g v,
      ap (λ r. r.0)
            (bind-ok (sam_session out)
              (λ (n : ℕ). setup_stream_sub_session out >>= use_stream out listen) g' g' c keep)
          ∙ listener,
      ap (λ r. r.0) (bind-ok (sam_session out) (λ (n : ℕ). setup_hybrid2_session out) g' g' c keep)
          ∙ bind-error (setup_primary_session out) packet g' (refused e) refusal,
    )
