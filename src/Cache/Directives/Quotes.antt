-- ===== src/Cache/Directives/Quotes.antt =====
-- What `split_outside_quotes` guarantees of the parts of a field value.
use shadowstep.Prelude.{
  ℕ, ◌≡◌, ◌≢◌, refl, Bool, true, false, List, [], ◌∷◌, ◌++◌, arith, All, Bool-cases, inl, inr,
}
use shadowstep.Text.{Text, split, extend_first}
use shadowstep.Cache.Directives.{quote, scan_char, split_from, split_outside_quotes}

-- The parts with a comma between each two.
abbrev pub join : List Text → Text
join [] = []
join (p ∷ []) = p
join (p ∷ q ∷ ps) = p ++ b',' ∷ join (q ∷ ps)

join-extend_first : (c : ℕ) (ps : List Text) → join (extend_first c ps) ≡ c ∷ join ps
join-extend_first c [] = refl
join-extend_first c (p ∷ []) = refl
join-extend_first c (p ∷ q ∷ ps) = refl

join-cons_nil : (ps : List Text) → ps ≢ [] → join ([] ∷ ps) ≡ b',' ∷ join ps
join-cons_nil [] h = absurd (h refl)
join-cons_nil (p ∷ ps) h = refl

extend_first-ne-nil : (c : ℕ) (ps : List Text) → extend_first c ps ≢ []
extend_first-ne-nil c [] = λ e. cc
extend_first-ne-nil c (p ∷ ps) = λ e. cc

split_from-ne-nil : (quoted escaped : Bool) (s : Text) → split_from quoted escaped s ≢ []
unfolding split_from
split_from-ne-nil quoted escaped [] = λ e. cc
split_from-ne-nil quoted escaped (c ∷ s) =
    let next = scan_char quoted escaped c in
    ground (arith, extend_first-ne-nil c (split_from next.quoted next.escaped s))

-- A cut is made at a comma, outside quotes, and leaves the scan in its first state.
scan_cut :
    (quoted escaped : Bool) (c : ℕ)
    → (scan_char quoted escaped c).cut ≡ true
    → (c ≡ b',')
      × ((scan_char quoted escaped c).quoted ≡ false)
      × ((scan_char quoted escaped c).escaped ≡ false)
unfolding scan_char
scan_cut quoted escaped c h = ground arith

join-split_from : (quoted escaped : Bool) (s : Text) → join (split_from quoted escaped s) ≡ s
unfolding split_from
join-split_from quoted escaped [] = refl
join-split_from quoted escaped (c ∷ s) =
    let next = scan_char quoted escaped c in
    let rest = split_from next.quoted next.escaped s in
    let ih = join-split_from next.quoted next.escaped s in
    elim (Bool-cases next.cut) [
      | inl cut ↦ rw cut (
          cc (
            join-cons_nil rest (split_from-ne-nil next.quoted next.escaped s),
            (scan_cut quoted escaped c cut).0,
            ih,
          ))
      | inr kept ↦ rw kept (cc (join-extend_first c rest, ih))
    ]

-- Each part is one part of its own, when the scan starts in the state that it had there.
abbrev IsWhole : Bool → Bool → List Text → Type 0
IsWhole quoted escaped [] = Unit
IsWhole quoted escaped (p ∷ ps) =
    (split_from quoted escaped p ≡ p ∷ []) × All (λ q. split_from false false q ≡ q ∷ []) ps

IsWhole-cut :
    (quoted escaped : Bool) (ps : List Text)
    → quoted ≡ false
    → escaped ≡ false
    → IsWhole quoted escaped ps
    → All (λ q. split_from false false q ≡ q ∷ []) ps
IsWhole-cut quoted escaped [] hq he w = tt
IsWhole-cut quoted escaped (p ∷ ps) hq he (first, others) = (rw (hq, he) at first, others)

IsWhole-extend_first :
    (quoted escaped : Bool) (c : ℕ) (ps : List Text)
    → (scan_char quoted escaped c).cut ≡ false
    → ps ≢ []
    → IsWhole (scan_char quoted escaped c).quoted (scan_char quoted escaped c).escaped ps
    → IsWhole quoted escaped (extend_first c ps)
unfolding split_from
IsWhole-extend_first quoted escaped c [] kept h w = absurd (h refl)
IsWhole-extend_first quoted escaped c (p ∷ ps) kept h (first, others) =
    (rw (kept, first) refl, others)

split_from-IsWhole :
    (quoted escaped : Bool) (s : Text) → IsWhole quoted escaped (split_from quoted escaped s)
unfolding split_from
split_from-IsWhole quoted escaped [] = (refl, tt)
split_from-IsWhole quoted escaped (c ∷ s) =
    let next = scan_char quoted escaped c in
    let rest = split_from next.quoted next.escaped s in
    let ih = split_from-IsWhole next.quoted next.escaped s in
    elim (Bool-cases next.cut) [
      | inl cut ↦
          let (_, unquoted, unescaped) = scan_cut quoted escaped c cut in
          rw cut (refl, IsWhole-cut next.quoted next.escaped rest unquoted unescaped ih)
      | inr kept ↦ rw kept (
          IsWhole-extend_first quoted escaped c rest kept
            (split_from-ne-nil next.quoted next.escaped s) ih)
    ]

-- Putting the commas back gives the field value: no character is lost or moved.
pub join-split_outside_quotes : (value : Text) → join (split_outside_quotes value) ≡ value
unfolding split_outside_quotes
join-split_outside_quotes value = join-split_from false false value

-- No part has a comma outside quotes left: splitting a part again gives that part alone.
pub split_outside_quotes-IsWhole :
    (value : Text)
    → All (λ part. split_outside_quotes part ≡ part ∷ []) (split_outside_quotes value)
unfolding split_outside_quotes
split_outside_quotes-IsWhole value =
    IsWhole-cut false false (split_from false false value) refl refl
      (split_from-IsWhole false false value)

-- A value without double quotes is split at every comma.
pub split_outside_quotes-split :
    (value : Text) → All (λ c. c ≢ quote) value → split_outside_quotes value ≡ split b',' value
unfolding split_outside_quotes split scan_char
split_outside_quotes-split [] h = refl
split_outside_quotes-split (c ∷ s) (h, hs) = ground (arith, split_outside_quotes-split s hs)
