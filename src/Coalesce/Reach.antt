-- ===== src/Coalesce/Reach.antt =====
-- Any interleaving of requests that join flights and of leaders whose guards drop.
use shadowstep.Prelude.{◌≡◌, ◌≢◌, Bool, true, List, [], ◌∷◌, ◌++◌}
use shadowstep.Watch.{Watch}
use shadowstep.Coalesce.{FlightGuard, Join, lead, Flights, default, join, drop_guard, drop_sender}

module _ ⦃watch : Watch⦄ {K : Type 0} (same : Discrete K) where
  -- The flights, the guards that leaders hold, and the guards whose drop has removed their key
  -- and has not yet dropped their sender.
  pub data Reached : Flights K → List (FlightGuard K) → List (FlightGuard K) → Type 0 where
    started : Reached (default same) [] []
    led :
        {f f' : Flights K} {holding ending : List (FlightGuard K)} (key : K) (guard : FlightGuard K)
        → join same f key true ≡ (lead guard, f')
        → Reached f holding ending
        → Reached f' (guard ∷ holding) ending
    joined :
        {f f' : Flights K} {holding ending : List (FlightGuard K)} (key : K) (may_lead : Bool)
        (j : Join K)
        → join same f key may_lead ≡ (j, f')
        → ((guard : FlightGuard K) → j ≢ lead guard)
        → Reached f holding ending
        → Reached f' holding ending
    removed :
        {f : Flights K} {ending : List (FlightGuard K)} (before after : List (FlightGuard K))
        (guard : FlightGuard K)
        → Reached f (before ++ guard ∷ after) ending
        → Reached (drop_guard same f guard) (before ++ after) (guard ∷ ending)
    ended :
        {f : Flights K} {holding : List (FlightGuard K)} (before after : List (FlightGuard K))
        (guard : FlightGuard K)
        → Reached f holding (before ++ guard ∷ after)
        → Reached (drop_sender same f guard) holding (before ++ after)
