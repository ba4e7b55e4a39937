-- ===== src/Proxy/Tee/Complete.antt =====
-- That a body which comes whole and within the limit is stored.
use shadowstep.Prelude.{
  ℕ, suc, ◌≤◌, ◌<◌, ◌≡◌, ◌⊎◌, inl, inr, refl, List, [], ◌∷◌, ◌++◌, Option, none, some, length,
  arith, All, length-append, ap, sym,
}
use shadowstep.Text.{Bytes}
use shadowstep.Proxy.Tee.{
  Tee, Item, chunk, failed, ended, finish, new, poll, polls, is_none_or_eq, is_full,
}
use shadowstep.Proxy.Tee.Copies.{delivered}

abbrev pub IsChunk : Item → Type 0
IsChunk (chunk bytes) = Unit {0}
IsChunk failed = ⊥
IsChunk ended = ⊥

abbrev copying : Option ℕ → ℕ → Bytes → Tee
copying l limit buffer = record {
  length = l;
  copy = some (record { buffer = buffer; limit = limit });
  handed = [];
}

append_short : (a b : Bytes) → length b ≤ 0 → a ++ b ≡ a
append_short [] [] h = refl
append_short (x ∷ a) [] h = ap (λ l. x ∷ l) (append_short a [] h)
append_short a (x ∷ b) h = absurd (no_room h)
  where
    no_room : suc (length b) ≤ 0 → ⊥
    no_room h = omega arith

polls-unsized :
    (limit : ℕ) (items : List Item)
    → All IsChunk items
    → length (delivered items) ≤ limit
    → polls (new none (some (record { buffer = []; limit = limit }))) items
      ≡ copying none limit (delivered items)
unfolding polls poll new finish is_full
polls-unsized limit [] chunks fits = refl
polls-unsized limit (chunk bytes ∷ items) (c, chunks) fits =
    let more = length-append (delivered items) bytes in
    let before = polls-unsized limit items chunks (omega (arith, more)) in
    rw before (ground (arith, more))
polls-unsized limit (failed ∷ items) (c, chunks) fits = absurd c
polls-unsized limit (ended ∷ items) (c, chunks) fits = absurd c

-- A body without an announced length, whose chunks stay within the limit, is handed over whole
-- when its stream ends.
pub handed-unsized :
    (limit : ℕ) (items : List Item)
    → All IsChunk items
    → length (delivered items) ≤ limit
    → (polls (new none (some (record { buffer = []; limit = limit }))) (ended ∷ items)).handed
      ≡ delivered items ∷ []
unfolding polls poll finish is_none_or_eq
handed-unsized limit items chunks fits = rw (polls-unsized limit items chunks fits) refl

polls-sized :
    (n limit : ℕ) (items : List Item)
    → All IsChunk items
    → length (delivered items) ≤ n
    → n ≤ limit
    → ((length (delivered items) < n)
        × (polls (new (some n) (some (record { buffer = []; limit = limit }))) items
            ≡ copying (some n) limit (delivered items)))
      ⊎ ((length (delivered items) ≡ n)
          × (polls (new (some n) (some (record { buffer = []; limit = limit }))) items
              ≡ record { length = some n; copy = none; handed = delivered items ∷ [] }))
unfolding polls poll new finish is_full is_none_or_eq
polls-sized n limit [] chunks short fits = ground arith
polls-sized n limit (chunk bytes ∷ items) (c, chunks) short fits =
    let more = length-append (delivered items) bytes in
    elim (polls-sized n limit items chunks (omega (arith, more)) fits) [
      | inl (less, before) ↦ rw before (ground (arith, more))
      | inr (same, before) ↦ rw before (
          inr (
            omega (arith, more),
            ap (λ b. record { length = some n; copy = none; handed = b ∷ [] })
                (sym (append_short (delivered items) bytes (omega (arith, more)))),
          ))
    ]
polls-sized n limit (failed ∷ items) (c, chunks) short fits = absurd c
polls-sized n limit (ended ∷ items) (c, chunks) short fits = absurd c

-- A body of the announced length, within the limit, is handed over whole with its last chunk, so
-- that the stream's end need not be polled; a body announced as empty is handed over at once.
pub handed-sized :
    (limit : ℕ) (items : List Item)
    → All IsChunk items
    → length (delivered items) ≤ limit
    → (polls
        (new (some (length (delivered items))) (some (record { buffer = []; limit = limit })))
        items).handed
      ≡ delivered items ∷ []
handed-sized limit items chunks fits =
    let le_irrefl : length (delivered items) < length (delivered items) → ⊥ = λ h. omega arith in
    elim (polls-sized (length (delivered items)) limit items chunks (omega arith) fits) [
      | inl (less, e) ↦ absurd (le_irrefl less)
      | inr (same, e) ↦ ap (λ t. t.handed) e
    ]
