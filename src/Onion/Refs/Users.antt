-- ===== src/Onion/Refs/Users.antt =====
-- Any sequence of calls of `getTor` and `Close` of onion.go, as their callers see it.
use onramp.Prelude.{
  ℕ, ◌==◌, ◌||◌, ◌&&◌, not, if◌then◌else◌, some, ap, ◌∙◌, ◌≡◌, refl, inr, Bool, true, false, Option,
  none, String, List, [], ◌∷◌, nat_eq, arith,
}
use onramp.Prelude.Map.{Map, lookup, insert}
use onramp.Onion.{Start, launched, no_start, Tor, flag_or_false, get_tor, close}
use onramp.Onion.Refs.{
  IsCounted, holders, holders-flag, holders-insert, get_tor-IsCounted, close-IsCounted, idle,
}

-- The calls of any number of `Onion`s, one at a time, with what the Tor library answers.
pub data Call : Type 0 where
  gets : Start → ℕ → Call
  closes : Option String → ℕ → Call

unfoldable pub step : Tor → Call → Tor
step t (gets start o) = (get_tor start o t).0
step t (closes stop o) = (close stop o t).0

unfoldable pub run : Tor → List Call → Tor
unfolding step
run t [] = t
run t (c ∷ cs) = run (step t c) cs

-- What the callers see, with no count and no Tor: who has a reference, and whether a Tor that nobody has
-- a reference to was left behind.
pub record Users : Type 0 where
  pub users : Map ℕ Bool
  pub stray : Bool

abbrev pub is_some : Option String → Bool
is_some none = false
is_some (some e) = true

-- Somebody has a reference, or a Tor was left behind.
abbrev pub runs : Users → Bool
runs u = u.stray || not (holders u.users == 0)

abbrev pub uses : ℕ → Users → Users
uses o u = record u { users = insert o true u.users; stray = false }

abbrev pub user_gets : Start → ℕ → Users → Users
user_gets start o u =
    if flag_or_false (lookup o u.users)
    then u
    else if runs u
    then uses o u
    else elim start [ launched ↦ uses o u | no_start left e ↦ record u { stray = left } ]

abbrev pub user_closes : Option String → ℕ → Users → Users
user_closes stop o u =
    if flag_or_false (lookup o u.users)
    then (let rest = insert o false u.users in
        record { users = rest; stray = (holders rest == 0) && is_some stop })
    else u

abbrev pub user_step : Users → Call → Users
user_step u (gets start o) = user_gets start o u
user_step u (closes stop o) = user_closes stop o u

abbrev pub users_after : Users → List Call → Users
users_after u [] = u
users_after u (c ∷ cs) = users_after (user_step u c) cs

abbrev pub nobody : Users
nobody = record { users = []; stray = false }

-- The shared variables stand for what the callers see.
pub record Refines (t : Tor) (u : Users) : Type 0 where
  pub counted : IsCounted t
  pub flags : t.flags ≡ u.users
  pub running : t.running ≡ runs u
  pub alone : u.stray ≡ true → holders u.users ≡ 0

get_tor-Refines :
    (start : Start) (o : ℕ) (t : Tor) (u : Users)
    → Refines t u
    → Refines (get_tor start o t).0 (user_gets start o u)
unfolding get_tor
get_tor-Refines start o t u v =
    let c = get_tor-IsCounted start o t v.counted in
    record {
      counted = c;
      flags = ground (arith, v.flags, v.running, v.alone, holders-flag o t.flags);
      running = ground (
        arith,
        v.flags,
        v.running,
        v.alone,
        holders-flag o t.flags,
        holders-insert o true t.flags,
      );
      alone = ground (
        arith,
        v.flags,
        v.running,
        v.alone,
        holders-flag o t.flags,
        holders-insert o true t.flags,
      );
    }

close-Refines :
    (stop : Option String) (o : ℕ) (t : Tor) (u : Users)
    → Refines t u
    → Refines (close stop o t).0 (user_closes stop o u)
unfolding close
close-Refines stop o t u v =
    let c = close-IsCounted stop o t v.counted in
    record {
      counted = c;
      flags = ground (arith, v.flags, v.running, v.alone, holders-flag o t.flags);
      running = ground (
        arith,
        v.flags,
        v.running,
        v.alone,
        v.counted.counted,
        holders-flag o t.flags,
        holders-insert o false t.flags,
      );
      alone = ground (
        arith,
        v.flags,
        v.running,
        v.alone,
        holders-flag o t.flags,
        holders-insert o false t.flags,
      );
    }

run-Refines_from :
    (t : Tor) (u : Users) (cs : List Call) → Refines t u → Refines (run t cs) (users_after u cs)
unfolding run step
run-Refines_from t u [] v = v
run-Refines_from t u (gets start o ∷ cs) v =
    run-Refines_from (get_tor start o t).0 (user_gets start o u) cs (get_tor-Refines start o t u v)
run-Refines_from t u (closes stop o ∷ cs) v =
    run-Refines_from (close stop o t).0 (user_closes stop o u) cs (close-Refines stop o t u v)

-- After any calls of `getTor` and `Close`, whatever Tor answers to a start, also a Tor with an error,
-- and to a stop: the flags are those of the `Onion`s that the callers see with a reference, the
-- count is their number, and Tor runs exactly when there is one, or when nobody has a reference
-- and a failed start or a failed stop has left Tor behind.
pub run-Refines :
    (cs : List Call)
    → let t = run idle cs in
      let u = users_after nobody cs in
      (t.flags ≡ u.users)
      × (t.refs ≡ holders u.users)
      × (t.running ≡ runs u)
      × (u.stray ≡ true → holders u.users ≡ 0)
run-Refines cs =
    let v : IsCounted idle = record { keyed = tt; counted = refl; stopped = inr refl } in
    let r =
      run-Refines_from idle nobody cs
        (record { counted = v; flags = refl; running = refl; alone = λ e. refl }) in
    (r.flags, r.counted.counted ∙ ap holders r.flags, r.running, r.alone)
