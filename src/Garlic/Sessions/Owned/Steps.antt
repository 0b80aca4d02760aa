-- ===== src/Garlic/Sessions/Owned/Steps.antt =====
-- The functions of garlic.go that make sessions, and what a `Garlic` has open.
use onramp.Prelude.{
  ap, sym, some-injective, ℕ, ◌≡◌, refl, ◌⊎◌, inl, inr, Option, none, some, List, ◌∷◌,
}
use onramp.Prelude.Map.{lookup, insert-AllEntries}
use onramp.Garlic.{
  StreamPortTuple, tuple_eq, Handle, connection, primary_session, stream_session, hybrid2_session,
  hybrid1_session, Garlic, Error, M, ◌>>=◌,
}
use onramp.Garlic.Sessions.{
  opened_sam, opened_primary, opened_stream, opened_stream_by_port, opened_hybrid2, opened_hybrid1,
}
use onramp.Garlic.Sessions.Owned.{
  LiveUnder, LiveEntry, IsOwned, All-mono, LiveUnder-cons, LivePrimary-cons, LiveEntries-cons,
  LiveUnder-fresh, LiveEntries-fresh, HeldBy-mono, HasValue-insert, HasValue-insert_other,
}

-- A call keeps the invariant, whatever its result.
abbrev pub Keeps : {A : Type 0} → M A → Type 0
Keeps m = (g : Garlic) → IsOwned g → IsOwned (m g).1

settle-IsOwned :
    {A B : Type 0} (f : A → M B) (k : (a : A) → Keeps (f a)) (r : Error ⊎ A) (g : Garlic)
    → IsOwned g
    → IsOwned (elim r as (λ _. (Error ⊎ B) × Garlic) [ inl e ↦ (inl e, g) | inr a ↦ f a g ]).1
settle-IsOwned f k (inl e) g v = v
settle-IsOwned f k (inr a) g v = k a g v

pub bind-Keeps :
    {A B : Type 0} (m : M A) (f : A → M B) → Keeps m → ((a : A) → Keeps (f a)) → Keeps (m >>= f)
bind-Keeps m f h k g v = settle-IsOwned f k (m g).0 (m g).1 (h g v)

pub opened_sam-IsOwned : (g : Garlic) → g.sam ≡ none → IsOwned g → IsOwned (opened_sam g)
opened_sam-IsOwned g e v =
    let h = connection g.next in
    let hs = g.open_handles in
    record {
      owned = (
        refl,
        All-mono hs (HeldBy-mono _ _ (inl e) (inr refl) (inr refl) (λ n w. w) (inr refl) (inr refl))
            v.owned,
      );
      primary_live = LivePrimary-cons h hs g.primary v.primary_live;
      stream_live = LiveUnder-cons stream_session h hs g.primary g.stream_sub v.stream_live;
      ports_live = LiveEntries-cons h hs g.primary g.stream_subs_by_port v.ports_live;
      hybrid2_live = LiveUnder-cons hybrid2_session h hs g.primary g.hybrid2_sub v.hybrid2_live;
      hybrid1_live = LiveUnder-cons hybrid1_session h hs g.primary g.hybrid1_sub v.hybrid1_live;
      port_ephemeral = v.port_ephemeral;
    }

pub opened_primary-IsOwned :
    (g : Garlic) → g.primary ≡ none → IsOwned g → IsOwned (opened_primary g)
opened_primary-IsOwned g e v =
    let hs = g.open_handles in
    let js = primary_session g.next ∷ hs in
    record {
      owned = (
        refl,
        All-mono hs (HeldBy-mono _ _ (inr refl) (inl e) (inr refl) (λ n w. w) (inr refl) (inr refl))
            v.owned,
      );
      primary_live = inl refl;
      stream_live =
          LiveUnder-fresh stream_session hs js g.next g.primary g.stream_sub e v.stream_live;
      ports_live = LiveEntries-fresh hs js g.next g.primary g.stream_subs_by_port e v.ports_live;
      hybrid2_live =
          LiveUnder-fresh hybrid2_session hs js g.next g.primary g.hybrid2_sub e v.hybrid2_live;
      hybrid1_live =
          LiveUnder-fresh hybrid1_session hs js g.next g.primary g.hybrid1_sub e v.hybrid1_live;
      port_ephemeral = v.port_ephemeral;
    }

-- A session under the PRIMARY session is open.
self_live :
    (mk : ℕ → ℕ → Handle) (n p : ℕ) (hs : List Handle) (primary : Option ℕ)
    → primary ≡ some p
    → LiveUnder mk (mk n p ∷ hs) primary (some n)
self_live mk n p hs none e = cc
self_live mk n p hs (some q) e = inl (ap (mk n) (some-injective p q (sym e)))

pub opened_stream-IsOwned :
    (p : ℕ) (g : Garlic)
    → g.primary ≡ some p
    → g.stream_sub ≡ none
    → IsOwned g
    → IsOwned (opened_stream p g)
opened_stream-IsOwned p g q e v =
    let h = stream_session g.next p in
    let hs = g.open_handles in
    record {
      owned = (
        (q, inl refl),
        All-mono hs (HeldBy-mono _ _ (inr refl) (inr refl) (inl e) (λ n w. w) (inr refl) (inr refl))
            v.owned,
      );
      primary_live = LivePrimary-cons h hs g.primary v.primary_live;
      stream_live = self_live stream_session g.next p hs g.primary q;
      ports_live = LiveEntries-cons h hs g.primary g.stream_subs_by_port v.ports_live;
      hybrid2_live = LiveUnder-cons hybrid2_session h hs g.primary g.hybrid2_sub v.hybrid2_live;
      hybrid1_live = LiveUnder-cons hybrid1_session h hs g.primary g.hybrid1_sub v.hybrid1_live;
      port_ephemeral = v.port_ephemeral;
    }

pub opened_stream_by_port-IsOwned :
    (ports : StreamPortTuple) (p : ℕ) (g : Garlic)
    → g.primary ≡ some p
    → lookup ports g.stream_subs_by_port ≡ none
    → IsOwned g
    → IsOwned (opened_stream_by_port ports p g)
opened_stream_by_port-IsOwned ports p g q e v =
    let h = stream_session g.next p in
    let hs = g.open_handles in
    let m = g.stream_subs_by_port in
    record {
      owned = (
        (q, inr (HasValue-insert ports g.next m e)),
        All-mono hs
            (HeldBy-mono _ _ (inr refl) (inr refl) (inr refl)
              (λ n w. HasValue-insert_other ports g.next n m e w) (inr refl) (inr refl))
            v.owned,
      );
      primary_live = LivePrimary-cons h hs g.primary v.primary_live;
      stream_live = LiveUnder-cons stream_session h hs g.primary g.stream_sub v.stream_live;
      ports_live =
          insert-AllEntries (LiveEntry (h ∷ hs) g.primary) ports g.next m
            (self_live stream_session g.next p hs g.primary q)
            (LiveEntries-cons h hs g.primary m v.ports_live);
      hybrid2_live = LiveUnder-cons hybrid2_session h hs g.primary g.hybrid2_sub v.hybrid2_live;
      hybrid1_live = LiveUnder-cons hybrid1_session h hs g.primary g.hybrid1_sub v.hybrid1_live;
      port_ephemeral = v.port_ephemeral;
    }

pub opened_hybrid2-IsOwned :
    (p : ℕ) (g : Garlic)
    → g.primary ≡ some p
    → g.hybrid2_sub ≡ none
    → IsOwned g
    → IsOwned (opened_hybrid2 p g)
opened_hybrid2-IsOwned p g q e v =
    let h = hybrid2_session g.next p in
    let hs = g.open_handles in
    record {
      owned = (
        (q, refl),
        All-mono hs (HeldBy-mono _ _ (inr refl) (inr refl) (inr refl) (λ n w. w) (inl e) (inr refl))
            v.owned,
      );
      primary_live = LivePrimary-cons h hs g.primary v.primary_live;
      stream_live = LiveUnder-cons stream_session h hs g.primary g.stream_sub v.stream_live;
      ports_live = LiveEntries-cons h hs g.primary g.stream_subs_by_port v.ports_live;
      hybrid2_live = self_live hybrid2_session g.next p hs g.primary q;
      hybrid1_live = LiveUnder-cons hybrid1_session h hs g.primary g.hybrid1_sub v.hybrid1_live;
      port_ephemeral = v.port_ephemeral;
    }

pub opened_hybrid1-IsOwned :
    (p : ℕ) (g : Garlic)
    → g.primary ≡ some p
    → g.hybrid1_sub ≡ none
    → IsOwned g
    → IsOwned (opened_hybrid1 p g)
opened_hybrid1-IsOwned p g q e v =
    let h = hybrid1_session g.next p in
    let hs = g.open_handles in
    record {
      owned = (
        (q, refl),
        All-mono hs (HeldBy-mono _ _ (inr refl) (inr refl) (inr refl) (λ n w. w) (inr refl) (inl e))
            v.owned,
      );
      primary_live = LivePrimary-cons h hs g.primary v.primary_live;
      stream_live = LiveUnder-cons stream_session h hs g.primary g.stream_sub v.stream_live;
      ports_live = LiveEntries-cons h hs g.primary g.stream_subs_by_port v.ports_live;
      hybrid2_live = LiveUnder-cons hybrid2_session h hs g.primary g.hybrid2_sub v.hybrid2_live;
      hybrid1_live = self_live hybrid1_session g.next p hs g.primary q;
      port_ephemeral = v.port_ephemeral;
    }
