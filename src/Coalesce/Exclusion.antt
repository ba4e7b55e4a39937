-- ===== src/Coalesce/Exclusion.antt =====
-- One leader at a time for each key, and followers that are always woken.
use shadowstep.Prelude.{
  ℕ, ◌≡◌, ◌≢◌, Bool, true, false, List, ◌∷◌, ◌++◌, some, arith, In, In-append_left, In-append_right,
  In-middle_self,
}
use shadowstep.Watch.{Watch}
use shadowstep.Coalesce.{lookup, FlightGuard, follow, Flights, join, drop_sender, wait_returns}
use shadowstep.Coalesce.Reach.{Reached}
use shadowstep.Coalesce.Invariant.{removed_others, Reached-Inv}

module _ ⦃watch : Watch⦄ {K : Type 0} (same : Discrete K) where
  -- Along any interleaving, no two of the guards that are held are for one key: at most one
  -- request for a key is on its way to the origin as a leader.
  pub one_leader :
      (f : Flights K) (before between after ending : List (FlightGuard K)) (g h : FlightGuard K)
      → Reached same f (before ++ g ∷ (between ++ h ∷ after)) ending
      → h.key ≢ g.key
  one_leader f before between after ending g h r =
      removed_others same f before (between ++ h ∷ after) ending g (Reached-Inv same r) h
        (In-append_right h before _ (In-middle_self h between after))

  -- A flight that a join finds is not over: its leader still holds its guard, and waiting for it
  -- does not return yet. So a follower that was woken never finds the flight that woke it.
  pub follow_waits :
      (f f' : Flights K) (holding ending : List (FlightGuard K)) (key : K) (may_lead : Bool)
      (waiter : ℕ)
      → Reached same f holding ending
      → join same f key may_lead ≡ (follow waiter, f')
      → (wait_returns f' waiter ≡ false)
        × ((g : FlightGuard K) × In g holding × (g.key ≡ key) × (g.sender ≡ waiter))
  unfolding join wait_returns
  follow_waits f f' holding ending key may_lead waiter r h =
      let v = Reached-Inv same r in
      let found : lookup same f.in_flight key ≡ some waiter = ground arith in
      let (g, m, k, e) = v.known key waiter found in
      let still : watch.closed f.channels g.sender ≡ false =
        v.open_held g (In-append_left g holding ending m) in
      (ground arith, (g, m, k, e))

  -- No follower is forgotten: while waiting for a channel does not return, its sender belongs to
  -- a guard that is held or whose drop is on its way, and the end of that drop makes it return.
  pub waiter_released :
      (f : Flights K) (holding ending : List (FlightGuard K)) (waiter : ℕ)
      → Reached same f holding ending
      → watch.made f.channels waiter ≡ true
      → wait_returns f waiter ≡ false
      → (g : FlightGuard K) × In g (holding ++ ending)
        × (wait_returns (drop_sender same f g) waiter ≡ true)
  unfolding wait_returns drop_sender
  waiter_released f holding ending waiter r m waits =
      let v = Reached-Inv same r in
      let (g, mg, e) = v.owned waiter m waits in
      (g, mg, ground (arith, watch.closed-drop_sender f.channels g.sender waiter))
