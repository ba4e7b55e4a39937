-- ===== src/Tests/Flying.antt =====
-- Tests of request coalescing: one leader, one follower, and the end of the flight.
use shadowstep.Prelude.{ℕ, ◌≡◌, ◌≢◌, refl, true, [], ◌∷◌, In}
use native.Mathlib.Decide.{ℕ_discrete}
use shadowstep.Coalesce.{FlightGuard, Flights, default, join, lookup, drop_sender, wait_returns}
use shadowstep.Coalesce.Reach.{Reached, started, led}
use shadowstep.Coalesce.Exclusion.{one_leader, waiter_released}
use shadowstep.Tests.Fixtures.{opened_watch}

abbrev first : FlightGuard ℕ
first = record { key = 7; sender = 0 }

abbrev second : FlightGuard ℕ
second = record { key = 8; sender = 1 }

abbrev one : Flights ℕ
one = (join ℕ_discrete (default ℕ_discrete) 7 true).1

abbrev two : Flights ℕ
two = (join ℕ_discrete one 8 true).1

one_led : Reached ℕ_discrete one (first ∷ []) []
unfolding join ℕ_discrete lookup
one_led = led {f = default ℕ_discrete} {f' = one} 7 first refl started

two_led : Reached ℕ_discrete two (second ∷ first ∷ []) []
unfolding join ℕ_discrete lookup
two_led = led {f = one} {f' = two} 8 second refl one_led

one_leader_example : first.key ≢ second.key
one_leader_example = one_leader ℕ_discrete two [] [] [] [] second first two_led

waiter_released_example :
    (g : FlightGuard ℕ) × In g (first ∷ []) × (wait_returns (drop_sender ℕ_discrete one g) 0 ≡ true)
unfolding join ℕ_discrete lookup wait_returns
waiter_released_example = waiter_released ℕ_discrete one (first ∷ []) [] 0 one_led refl refl
