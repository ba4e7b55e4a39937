-- ===== src/Tests/Copying.antt =====
-- Tests of the body copy and of the idle timeout.
use shadowstep.Prelude.{
  ℕ, ◌+◌, ◌≤◌, ◌≡◌, ◌⊎◌, ◌↔◌, refl, Bool, true, false, List, [], ◌∷◌, none, some, arith,
}
use shadowstep.Text.{Bytes, codes}
use shadowstep.Time.{from_secs}
use shadowstep.Proxy.Tee.{Item, chunk, ended, new, polls}
use shadowstep.Proxy.Tee.Copies.{Whole, handed-Whole}
use shadowstep.Proxy.Tee.Complete.{handed-unsized, handed-sized}
use shadowstep.Proxy.Idle.{timed_out, origin_body, poll_next, polled}
use shadowstep.Proxy.Idle.Laws.{since, silent, poll_next-timed_out_iff}

-- The latest item stands first.
abbrev hello : List Item
hello = chunk (codes "lo") ∷ chunk (codes "hel") ∷ []

handed-Whole_example :
    ((polls (new none (some (record { buffer = []; limit = 8 }))) (ended ∷ hello)).handed ≡ [])
    ⊎ ((body : Bytes) × ((polls
            (new none (some (record { buffer = []; limit = 8 })))
            (ended ∷ hello)).handed
          ≡ body ∷ [])
        × Whole none 8 (ended ∷ hello) body)
handed-Whole_example = handed-Whole none 8 (ended ∷ hello)

handed-unsized_example :
    (polls (new none (some (record { buffer = []; limit = 8 }))) (ended ∷ hello)).handed
    ≡ codes "hello" ∷ []
handed-unsized_example = handed-unsized 8 hello (tt, (tt, tt)) (omega arith)

handed-sized_example :
    (polls (new (some 5) (some (record { buffer = []; limit = 8 }))) hello).handed
    ≡ codes "hello" ∷ []
handed-sized_example = handed-sized 8 hello (tt, (tt, tt)) (omega arith)

-- A body over the limit is not handed over.
too_long : (polls (new none (some (record { buffer = []; limit = 4 }))) (ended ∷ hello)).handed ≡ []
unfolding polls new
too_long = refl

abbrev waits : List (ℕ × Bool)
waits = (from_secs 4, false) ∷ (from_secs 3, true) ∷ []

poll_next-timed_out_iff_example :
    ((poll_next (from_secs 9) false (polled (origin_body 0 (from_secs 5)) waits)).0 ≡ timed_out) ↔ (
      ((polled (origin_body 0 (from_secs 5)) waits).expired ≡ false)
      × (false ≡ false)
      × (since (from_secs 9) (silent waits) + from_secs 5 ≤ from_secs 9))
poll_next-timed_out_iff_example = poll_next-timed_out_iff 0 (from_secs 5) waits (from_secs 9) false
