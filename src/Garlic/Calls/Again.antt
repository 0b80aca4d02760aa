-- ===== src/Garlic/Calls/Again.antt =====
-- The steps of `DialContextToPort` of garlic.go, each called again on what it left.
use onramp.Prelude.{
  ℕ, ◌+◌, ◌≡◌, ◌≢◌, refl, sym, ◌∙◌, ◌⊎◌, inl, inr, ◌==◌, ◌&&◌, not, Bool, true, false, Bool-cases,
  Option, Option-cases, none, some, ==_iff, ◌↔◌, String, List, if◌then◌else◌, arith,
}
use mathlib.Core.Path.{ap, subst}
use onramp.Prelude.Int.{ℤ, pos, negsuc}
use onramp.Garlic.{
  StreamPortTuple, tuple_eq, Request, connect, Garlic, Error, refused, Outside, request,
}
use onramp.Garlic.Ports.{validate_sam_virtual_port}
use onramp.Garlic.Sessions.{sam_session, setup_stream_sub_session_with_ports, make, opened_sam}
use onramp.Garlic.Chains.{Gives}
use onramp.Garlic.Sessions.Reuse.{
  make-Gives, Sub, stream, hybrid2, hybrid1, by_port, setup, kept, setup-kept,
}
use onramp.Garlic.Calls.{get_or_create_persistent_from_port, select_from_port, min_port}

-- Where the stream session for a pair of ports is kept.
abbrev pub sub_of : StreamPortTuple → Sub
sub_of (from, to) = if from == 0 && to == 0 then stream else by_port (from, to)

pub with_ports-setup :
    (out : Outside) (from to : ℕ) (g : Garlic)
    → setup_stream_sub_session_with_ports out (from, to) g ≡ setup (sub_of (from, to)) out g
unfolding setup_stream_sub_session_with_ports setup
with_ports-setup out from to g = elim (Bool-cases (from == 0 && to == 0)) [
  | inl e ↦ rw e refl
  | inr e ↦ rw e refl
]

-- A local port that has been chosen stays, and is not 0.
persistent-Gives :
    (out : Outside) (g h : Garlic) (from : ℕ)
    → Gives (get_or_create_persistent_from_port out g) from h
    → (h.persistent_from_port ≡ from) × (from ≢ 0)
unfolding get_or_create_persistent_from_port
persistent-Gives out g h from v =
    go (g.persistent_from_port == 0) out.random (==_iff g.persistent_from_port 0) v
  where
    go :
        (b : Bool) (r : String ⊎ ℕ)
        → ((b ≡ true) ↔ (g.persistent_from_port ≡ 0))
        → Gives
            (if not b
              then (inr g.persistent_from_port, g)
              else elim r as (λ _. (Error ⊎ ℕ) × Garlic) [
                | inl e ↦ (inl (refused e), g)
                | inr n ↦ (inr (min_port + n), record g { persistent_from_port = min_port + n })
              ])
            from
            h
        → (h.persistent_from_port ≡ from) × (from ≢ 0)
    go true (inl e) t w = absurd (ground (arith, w.0))
    go true (inr n) t w =
        (ap (λ j. j.persistent_from_port) (sym w.1) ∙ ground (arith, w.0), ground (arith, w.0))
    go false r t w =
        (ap (λ j. j.persistent_from_port) (sym w.1) ∙ ground (arith, w.0), ground (arith, w.0, t))

persistent-again :
    (out : Outside) (g : Garlic) (from : ℕ)
    → g.persistent_from_port ≡ from
    → from ≢ 0
    → get_or_create_persistent_from_port out g ≡ (inr from, g)
unfolding get_or_create_persistent_from_port
persistent-again out g from e ne =
    let tested : (g.persistent_from_port == 0) ≡ false = ground arith in
    rw tested (ap (λ (n : ℕ). (inr n, g)) e)

-- The choice of the local port leaves the connection alone, and is the same again.
pub select-Gives :
    (out out' : Outside) (to : ℕ) (port : Option ℤ) (g h j : Garlic) (from : ℕ)
    → Gives (select_from_port out to port g) from h
    → j.persistent_from_port ≡ h.persistent_from_port
    → select_from_port out' to port j ≡ (inr from, j)
unfolding select_from_port
select-Gives out out' to none g h j from v e = elim (Bool-cases (to == 0)) [
  | inl t ↦ rw t (ap (λ (n : ℕ). (inr n, j)) (ground arith))
  | inr t ↦
      let (p, ne) = persistent-Gives out g h from (
        subst
          (λ b.
            Gives (if not b then get_or_create_persistent_from_port out g else (inr 0, g)) from h)
          t v) in
      rw t (persistent-again out' j from (e ∙ p) ne)
]
select-Gives out out' to (some (pos p)) g h j from v e =
    elim (Bool-cases (validate_sam_virtual_port (pos p))) [
      | inl t ↦ rw t (ap (λ (n : ℕ). (inr n, j)) (ground arith))
      | inr t ↦ absurd (ground arith)
    ]
select-Gives out out' to (some (negsuc n)) g h j from v e = absurd (ground (arith, v.0))

-- `samSession` gives the connection of the field that it leaves.
pub sam_session-Gives :
    (out : Outside) (g h : Garlic) (c : ℕ) → Gives (sam_session out g) c h → h.sam ≡ some c
unfolding sam_session
sam_session-Gives out g h c v = go g.sam refl v
  where
    go :
        (sam : Option ℕ)
        → g.sam ≡ sam
        → Gives
            (elim sam as (λ _. (Error ⊎ ℕ) × Garlic) [
              | some n ↦ (inr n, g)
              | none ↦ make out connect opened_sam g
            ])
            c
            h
        → h.sam ≡ some c
    go none t w =
        let (j, e, f) = make-Gives out connect opened_sam g h c w in
        ap (λ k. k.sam) (sym f) ∙ ap some e
    go (some n) t w = ap (λ k. k.sam) (sym w.1) ∙ t ∙ ground (arith, w.0)

pub sam_session-again :
    (out : Outside) (g : Garlic) (c : ℕ) → g.sam ≡ some c → sam_session out g ≡ (inr c, g)
unfolding sam_session
sam_session-again out g c e = rw e refl

make-port :
    (out : Outside) (r : Request) (g : Garlic)
    → (make out r opened_sam g).1.persistent_from_port ≡ g.persistent_from_port
unfolding request
make-port out r g = elim (Option-cases (out.answer r)) [
  | inl e ↦ rw (e, make, request) refl
  | inr (s, e) ↦ rw (e, make, request) refl
]

pub sam_session-port :
    (out : Outside) (g : Garlic)
    → (sam_session out g).1.persistent_from_port ≡ g.persistent_from_port
unfolding sam_session
sam_session-port out g = elim (Option-cases g.sam) [
  | inl e ↦ rw (e, sam_session) (make-port out connect g)
  | inr (c, e) ↦ rw (e, sam_session) refl
]

pub kept-requests :
    (s : Sub) (g : Garlic) (rs : List Request) → kept s (record g { requests = rs }) ≡ kept s g
kept-requests stream g rs = refl
kept-requests hybrid2 g rs = refl
kept-requests hybrid1 g rs = refl
kept-requests (by_port ports) g rs = refl

pub setup_again-kept :
    (out : Outside) (from to : ℕ) (g : Garlic) (n : ℕ)
    → kept (sub_of (from, to)) g ≡ some n
    → setup_stream_sub_session_with_ports out (from, to) g ≡ (inr n, g)
setup_again-kept out from to g n e =
    with_ports-setup out from to g ∙ setup-kept (sub_of (from, to)) out g ∙ rw e refl
