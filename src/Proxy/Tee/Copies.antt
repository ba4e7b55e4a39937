-- ===== src/Proxy/Tee/Copies.antt =====
-- What the copy of a body hands to the store.
use shadowstep.Prelude.{
  ℕ, ◌+◌, ◌≤◌, ◌≡◌, ◌⊎◌, inl, inr, refl, Bool, true, false, List, [], ◌∷◌, ◌++◌, Option, none, some,
  length, arith, In, if◌then◌else◌, Option-cases, Bool-cases, ◌==◌, ltb, length-append,
}
use shadowstep.Text.{Bytes}
use shadowstep.Proxy.Tee.{
  BodyCopy, Tee, Item, chunk, failed, ended, finish, new, poll, polls, is_none_or_eq, is_full,
}

-- The bytes of the chunks, of which the latest stands first.
abbrev pub delivered : List Item → Bytes
delivered [] = []
delivered (chunk bytes ∷ is) = delivered is ++ bytes
delivered (failed ∷ is) = delivered is
delivered (ended ∷ is) = delivered is

-- The items up to some moment, newer ones left out.
pub data Earlier : List Item → List Item → Type 0 where
  now : {is : List Item} → Earlier is is
  later : {is js : List Item} {i : Item} → Earlier is js → Earlier is (i ∷ js)

-- A body that was handed over is all that the inner stream had delivered at that moment, with no
-- error among it, no longer than the limit, and of the announced length if there is one.
pub record Whole (length_known : Option ℕ) (limit : ℕ) (items : List Item) (body : Bytes)
    : Type 0 where
  pub at : List Item
  pub earlier : Earlier at items
  pub no_error : (In failed at) → ⊥
  pub all_of_it : body ≡ delivered at
  pub within : length body ≤ limit
  pub announced : is_none_or_eq length_known (length body) ≡ true

-- What the state says of the items so far.
record Inv (length_known : Option ℕ) (limit : ℕ) (items : List Item) (t : Tee) : Type 0 where
  length_kept : t.length ≡ length_known
  copying :
      (c : BodyCopy)
      → t.copy ≡ some c
      → (t.handed ≡ [])
        × (c.limit ≡ limit)
        × (c.buffer ≡ delivered items)
        × (length c.buffer ≤ limit)
        × (In failed items → ⊥)
  given :
      (t.handed ≡ [])
      ⊎ ((body : Bytes) × (t.handed ≡ body ∷ []) × Whole length_known limit items body)

-- What was handed over stays whole as more items come.
Whole-later :
    (l : Option ℕ) (limit : ℕ) (items : List Item) (i : Item) (body : Bytes)
    → Whole l limit items body
    → Whole l limit (i ∷ items) body
Whole-later l limit items i body w = record {
  at = w.at;
  earlier = later w.earlier;
  no_error = w.no_error;
  all_of_it = w.all_of_it;
  within = w.within;
  announced = w.announced;
}

-- With no copy, further items change nothing.
idle-Inv :
    (l : Option ℕ) (limit : ℕ) (items : List Item) (i : Item) (t t' : Tee)
    → Inv l limit items t
    → t'.length ≡ t.length
    → t'.copy ≡ none
    → t'.handed ≡ t.handed
    → Inv l limit (i ∷ items) t'
idle-Inv l limit items i t t' v same_length no_copy same_handed = record {
  length_kept = cc v.length_kept;
  copying = λ c h. cc;
  given = elim v.given [
    | inl none_yet ↦ inl (cc none_yet)
    | inr (body, h, w) ↦ inr (body, cc h, Whole-later l limit items i body w)
  ];
}

finish-Inv :
    (l : Option ℕ) (limit : ℕ) (items : List Item) (t : Tee)
    → Inv l limit items t
    → Inv l limit items (finish t)
unfolding finish
finish-Inv l limit items t v = elim (Option-cases t.copy) [
  | inl e ↦ rw (e, finish) v
  | inr (c, e) ↦
      let (none_yet, same_limit, all, fits, clean) = v.copying c e in
      elim (Bool-cases (is_none_or_eq t.length (length c.buffer))) [
        | inl right ↦
            rw (e, right, finish)
              (record {
                length_kept = v.length_kept;
                copying = λ d h. cc;
                given = inr (
                  c.buffer,
                  rw none_yet refl,
                  record {
                    at = items;
                    earlier = now;
                    no_error = clean;
                    all_of_it = all;
                    within = fits;
                    announced = rw (v.length_kept) at right;
                  },
                );
              })
        | inr wrong ↦
            rw (e, wrong, finish)
              (record { length_kept = v.length_kept; copying = λ d h. cc; given = inl none_yet })
      ]
]

-- The state before any item, and its invariant.
fresh-Inv :
    (l : Option ℕ) (limit : ℕ)
    → Inv l limit []
        (record { length = l; copy = some (record { buffer = []; limit = limit }); handed = [] })
fresh-Inv l limit = record { length_kept = refl; copying = λ c h. ground arith; given = inl refl }

choose-Inv :
    (l : Option ℕ) (limit : ℕ) (items : List Item) (b : Bool) (t u : Tee)
    → Inv l limit items t
    → Inv l limit items u
    → Inv l limit items (if b then t else u)
choose-Inv l limit items true t u v w = v
choose-Inv l limit items false t u v w = w

new-Inv :
    (l : Option ℕ) (limit : ℕ)
    → Inv l limit [] (new l (some (record { buffer = []; limit = limit })))
unfolding new
new-Inv none limit = fresh-Inv none limit
new-Inv (some n) limit =
    choose-Inv (some n) limit [] (n == 0) _ _
      (finish-Inv (some n) limit [] _ (fresh-Inv (some n) limit)) (fresh-Inv (some n) limit)

-- The end of the stream brings no bytes.
ended-Inv :
    (l : Option ℕ) (limit : ℕ) (items : List Item) (t : Tee)
    → Inv l limit items t
    → Inv l limit (ended ∷ items) t
ended-Inv l limit items t v = record {
  length_kept = v.length_kept;
  copying = λ c h.
      let (none_yet, same_limit, all, within, clean) = v.copying c h in
      (none_yet, same_limit, all, within, λ m. elim m [ inl e ↦ cc | inr n ↦ clean n ]);
  given = elim v.given [
    | inl none_yet ↦ inl none_yet
    | inr (body, h, w) ↦ inr (body, h, Whole-later l limit items ended body w)
  ];
}

-- A chunk that fits is added to the copy.
filled-Inv :
    (l : Option ℕ) (limit : ℕ) (items : List Item) (t : Tee) (c : BodyCopy) (bytes : Bytes)
    → Inv l limit items t
    → t.copy ≡ some c
    → length c.buffer + length bytes ≤ c.limit
    → Inv l limit (chunk bytes ∷ items) (record {
      length = t.length;
      copy = some (record { buffer = c.buffer ++ bytes; limit = c.limit });
      handed = t.handed;
    })
filled-Inv l limit items t c bytes v e fits =
    let (none_yet, same_limit, all, within, clean) = v.copying c e in
    record {
      length_kept = v.length_kept;
      copying = λ d h. (
        none_yet,
        ground arith,
        ground arith,
        ground (arith, length-append c.buffer bytes),
        λ m. elim m [ inl wrong ↦ cc | inr n ↦ clean n ],
      );
      given = inl none_yet;
    }

poll-Inv :
    (l : Option ℕ) (limit : ℕ) (items : List Item) (t : Tee) (i : Item)
    → Inv l limit items t
    → Inv l limit (i ∷ items) (poll t i)
unfolding poll
poll-Inv l limit items t failed v = idle-Inv l limit items failed t _ v refl refl refl
poll-Inv l limit items t ended v =
    finish-Inv l limit (ended ∷ items) t (ended-Inv l limit items t v)
poll-Inv l limit items t (chunk bytes) v = elim (Option-cases t.copy) [
  | inl e ↦ rw (e, poll) (idle-Inv l limit items (chunk bytes) t t v refl e refl)
  | inr (c, e) ↦ elim (Bool-cases (ltb c.limit (length c.buffer + length bytes))) [
    | inl over ↦
        rw (e, over, poll)
          (idle-Inv l limit items (chunk bytes) t
            (record { length = t.length; copy = none; handed = t.handed }) v refl refl refl)
    | inr fits ↦
        let filled = filled-Inv l limit items t c bytes v e (ground arith) in
        elim (Bool-cases (is_full t.length (length (c.buffer ++ bytes)))) [
          | inl full ↦ rw (e, fits, full, poll) (finish-Inv l limit (chunk bytes ∷ items) _ filled)
          | inr short ↦ rw (e, fits, short, poll) filled
        ]
  ]
]

polls-Inv :
    (l : Option ℕ) (limit : ℕ) (items : List Item)
    → Inv l limit items (polls (new l (some (record { buffer = []; limit = limit }))) items)
unfolding polls
polls-Inv l limit [] = new-Inv l limit
polls-Inv l limit (i ∷ items) = poll-Inv l limit items _ i (polls-Inv l limit items)

-- Whatever items come, the copy is handed over once at most, and then it is the whole body so far:
-- every byte of the chunks that had come, none after an error, no longer than the limit and as
-- long as the origin announced.
pub handed-Whole :
    (l : Option ℕ) (limit : ℕ) (items : List Item)
    → ((polls (new l (some (record { buffer = []; limit = limit }))) items).handed ≡ [])
      ⊎ ((body : Bytes) × ((polls
              (new l (some (record { buffer = []; limit = limit })))
              items).handed
            ≡ body ∷ [])
          × Whole l limit items body)
handed-Whole l limit items = (polls-Inv l limit items).given
