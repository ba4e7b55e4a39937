-- ===== src/Coalesce.antt =====
-- src/coalesce.rs: request coalescing. A method holds the lock on the map from its start to its
-- end, so each is one step.
pub mod Reach
pub mod Guards
pub mod Invariant
pub mod Exclusion
use shadowstep.Prelude.{ℕ, Bool, true, false, List, [], ◌∷◌, Option, none, some, ite, if◌then◌else◌}
use shadowstep.Watch.{Watch}

-- `HashMap<K, Receiver>`, with a receiver as the number of its channel.
module _ {K : Type 0} (same : Discrete K) where
  unfoldable pub lookup : List (K × ℕ) → K → Option ℕ
  lookup [] key = none
  lookup ((k, id) ∷ m) key = ite (same k key) (some id) (lookup m key)

  unfoldable pub remove : List (K × ℕ) → K → List (K × ℕ)
  remove [] key = []
  remove ((k, id) ∷ m) key = let rest = remove m key in ite (same k key) rest ((k, id) ∷ rest)

-- `FlightGuard`: the leader's claim on a key, and the sender that it holds.
pub record FlightGuard (K : Type 0) : Type 0 where
  pub key : K
  pub sender : ℕ

-- A `Waiter` is the channel that it receives from.
pub data Join (K : Type 0) : Type 0 where
  lead : FlightGuard K → Join K
  follow : ℕ → Join K
  alone : Join K

module _ ⦃watch : Watch⦄ where
  pub record Flights (K : Type 0) : Type 0 where
    pub in_flight : List (K × ℕ)
    pub channels : watch.Channels

  -- Whether `Waiter::wait` returns: `changed` fails, since nothing is ever sent.
  unfoldable pub wait_returns : {K : Type 0} → Flights K → ℕ → Bool
  wait_returns f waiter = watch.closed f.channels waiter

  module _ {K : Type 0} (same : Discrete K) where
    abbrev pub default : Flights K
    default = record { in_flight = []; channels = watch.none_open }

    -- `join`.
    unfoldable pub join : Flights K → K → Bool → Join K × Flights K
    join f key may_lead = elim (lookup same f.in_flight key) [
      | some done ↦ (follow done, f)
      | none ↦
          if may_lead
          then (let (sender, channels) = watch.channel f.channels in
              (
                lead (record { key = key; sender = sender }),
                record { in_flight = (key, sender) ∷ f.in_flight; channels = channels },
              ))
          else (alone, f)
    ]

    -- The body of `FlightGuard::drop`.
    unfoldable pub drop_guard : Flights K → FlightGuard K → Flights K
    drop_guard f guard = record f { in_flight = remove same f.in_flight guard.key }

    -- The drop of the guard's fields, which comes after that: the sender goes.
    unfoldable pub drop_sender : Flights K → FlightGuard K → Flights K
    drop_sender f guard = record f { channels = watch.drop_sender f.channels guard.sender }
