-- ===== src/Garlic/Closing.antt =====
-- `Close` of garlic.go, `DeleteKeys`, and the constructor.
pub mod Laws
pub mod Construction
use onramp.Prelude.{
  ℕ, ◌==◌, ◌&&◌, Bool, true, false, not, ◌⊎◌, inl, inr, Option, none, some, String, List, [], ◌∷◌,
  ◌++◌, if◌then◌else◌,
}
use onramp.Garlic.{
  Handle, connection, primary_session, stream_session, hybrid2_session, hybrid1_session, Garlic,
  Error, refused, Outside, M, new_fields,
}
use onramp.Garlic.Sessions.{sam_session}

-- A PRIMARY session is closed with what stands under it.
abbrev pub belongs_to : ℕ → Handle → Bool
belongs_to p (connection n) = false
belongs_to p (primary_session n) = n == p
belongs_to p (stream_session n q) = q == p
belongs_to p (hybrid2_session n q) = q == p
belongs_to p (hybrid1_session n q) = q == p

abbrev pub is_connection : ℕ → Handle → Bool
is_connection c (connection n) = n == c
is_connection c h = false

abbrev pub is_hybrid2 : ℕ → Handle → Bool
is_hybrid2 n (hybrid2_session m q) = m == n
is_hybrid2 n h = false

abbrev pub is_hybrid1 : ℕ → Handle → Bool
is_hybrid1 n (hybrid1_session m q) = m == n
is_hybrid1 n h = false

-- What is left open when the handles that a test names are closed.
abbrev pub without : (Handle → Bool) → List Handle → List Handle
without p [] = []
without p (h ∷ hs) = if p h then without p hs else h ∷ without p hs

-- The four sessions that `Close` closes, in its order; the errors are those of the library.
pub record Closes : Type 0 where
  pub hybrid2_error : Option String
  pub hybrid1_error : Option String
  pub primary_error : Option String
  pub sam_error : Option String

-- One step of `Close`: nothing to close, an error, or the handles gone.
abbrev pub close_one :
    Option ℕ
    → Option String
    → (ℕ → Handle → Bool)
    → List Handle × List String
    → List Handle × List String
close_one none e p (hs, errors) = (hs, errors)
close_one (some n) (some e) p (hs, errors) = (hs, errors ++ e ∷ [])
close_one (some n) none p (hs, errors) = (without (p n) hs, errors)

-- `Close`: the fields, and the errors of what could not be closed.
unfoldable pub close : Closes → Garlic → List String × Garlic
close c g =
    let (hs, errors) = close_one g.sam c.sam_error is_connection (
      close_one g.primary c.primary_error belongs_to (
        close_one g.hybrid1_sub c.hybrid1_error is_hybrid1
          (close_one g.hybrid2_sub c.hybrid2_error is_hybrid2 (g.open_handles, [])))) in
    (
      errors,
      record g {
        primary = none;
        stream_sub = none;
        stream_subs_by_port = [];
        persistent_from_port = 0;
        hybrid2_sub = none;
        hybrid1_sub = none;
        bridge_running = false;
        open_handles = hs;
      },
    )

-- `DeleteKeys`: `e` is the error of `DeleteGarlicKeys`.
abbrev pub delete_keys : Option String → Garlic → Option String × Garlic
delete_keys (some e) g = (some e, g)
delete_keys none g = (none, record g { service_keys = none })

-- The embedded bridge: there is none, it cannot be made, it does not become ready, or it runs.
pub data Bridge : Type 0 where
  no_bridge : Bridge
  no_start no_answer : String → Bridge
  runs : Bridge

-- `newGarlic` once the bridge answers; it is stopped where there is no connection.
abbrev pub connected : Outside → Garlic → (Error ⊎ ℕ) × Garlic
connected out g =
    let (r, g') = sam_session out g in
    elim r [ inl e ↦ (inl e, record g' { bridge_running = false }) | inr n ↦ (inr n, g') ]

-- `newGarlic`, before `EnableAutoCleanup`: an error, and the bridge stopped, or a `Garlic` with a
-- connection.
unfoldable pub new_garlic : Outside → Bridge → (Error ⊎ ℕ) × Garlic
unfolding sam_session
new_garlic out no_bridge = connected out new_fields
new_garlic out (no_start e) = (inl (refused e), new_fields)
new_garlic out (no_answer e) = (inl (refused e), new_fields)
new_garlic out runs = connected out (record new_fields { bridge_running = true })
