-- ===== src/Hybridcommon/Tests.antt =====
-- The theorems on internal/hybridcommon at concrete values.
use onramp.Prelude.{ℕ, ◌≡◌, refl, ◌==◌, [], ◌∷◌, nat_eq, Bool-cases, inl, inr, if◌then◌else◌}
use onramp.Hybridcommon.Maps.{create_locked}
use onramp.Prelude.{String, Option, none, some, true}
use onramp.Samples.{floats}
use onramp.Hybrid1.Opening.{new_hybrid1_integration}
use onramp.Hybrid2.Opening as Opening
use onramp.Hybrid2.Integration.{new_hybrid2_integration}
use onramp.Hybridcommon.Integration.{Resource, primary_session, child_session, Closes}
use onramp.Hybridcommon.Integration.Laws.{Closable}
use onramp.Hybridcommon.Integration.Packages.{integrations-Closable}
use onramp.Hybridcommon.Maps.Threads.{
  start, missed, back, World, misses, creates, Reach, here, next, update, AllAgree, same_value,
}

-- Two threads, each with a value of its own: both find nothing, and the first creates its value.
abbrev starting : World ℕ ℕ
starting = record { values = []; stage = λ i. if i == 1 then start 5 70 else start 5 80 }

abbrev first_missed : World ℕ ℕ
first_missed = record starting { stage = update starting.stage 1 (missed 5 70) }

abbrev both_missed : World ℕ ℕ
both_missed = record first_missed { stage = update first_missed.stage 2 (missed 5 80) }

abbrev first_back : World ℕ ℕ
first_back = record { values = (5, 70) ∷ []; stage = update both_missed.stage 1 (back 5 70) }

abbrev both_back : World ℕ ℕ
both_back = record first_back { stage = update first_back.stage 2 (back 5 70) }

starting-AllAgree : AllAgree starting
starting-AllAgree i = elim (Bool-cases (i == 1)) [ inl e ↦ rw e tt | inr e ↦ rw e tt ]

steps : Reach starting both_back
unfolding create_locked
steps =
    next
      (next (next (next here (misses 1 5 70 refl refl refl)) (misses 2 5 80 refl refl refl))
        (creates 1 5 70 refl refl))
      (creates 2 5 80 refl refl)

same_value_example : ◌≡◌ {A = ℕ} 70 70
same_value_example = same_value 1 2 5 70 70 starting-AllAgree steps refl refl

-- A library that refuses the child session of hybrid1, and the second one of hybrid2.
abbrev refuses_child : Resource → Option String
refuses_child child_session = some "no"
refuses_child r = none

abbrev gives_subs : Opening.Resource → Option String
gives_subs r = none

-- A library whose `Close` of a PRIMARY session fails, and panics on a nil pointer.
abbrev primary_fails : Resource → Option String
primary_fails primary_session = some "gone"
primary_fails r = none

abbrev failing : Closes
failing = record { error = primary_fails; nil_panics = true }

integrations-Closable_example :
    Closable failing (new_hybrid1_integration failing refuses_child "keys" none "tunnel" "alice")
    × Closable failing (
        new_hybrid2_integration floats failing refuses_child gives_subs "keys" none "tunnel"
          "alice")
integrations-Closable_example =
    integrations-Closable floats refuses_child gives_subs "keys" none "tunnel" "alice" failing
