-- ===== src/Proxy/Tee.antt =====
-- src/proxy.rs, `Tee` and `BodyCopy`: the copy of a response body that streams to the client. The
-- call of `finish` is the entry of the bodies that were handed over.
pub mod Copies
pub mod Complete
use shadowstep.Prelude.{
  ℕ, ◌+◌, ◌≡◌, Bool, true, false, List, [], ◌∷◌, ◌++◌, Option, none, some, ltb, leb, ◌==◌,
  if◌then◌else◌, length,
}
use shadowstep.Text.{Bytes}

pub record BodyCopy : Type 0 where
  pub buffer : Bytes
  pub limit : ℕ

-- `handed` has the bodies that went to the finish callback, the latest first.
pub record Tee : Type 0 where
  pub length : Option ℕ
  pub copy : Option BodyCopy
  pub handed : List Bytes

-- What the inner stream yields: `Some(Ok(chunk))`, `Some(Err(_))` or `None`. Nothing happens
-- while it is pending.
pub data Item : Type 0 where
  chunk : Bytes → Item
  failed : Item
  ended : Item

-- `is_none_or(|length| length == n)`.
unfoldable pub is_none_or_eq : Option ℕ → ℕ → Bool
is_none_or_eq none n = true
is_none_or_eq (some l) n = l == n

-- `Tee::finish`.
unfoldable pub finish : Tee → Tee
unfolding is_none_or_eq
finish t = elim t.copy [
  | none ↦ t
  | some copy ↦
      if is_none_or_eq t.length (length copy.buffer)
      then record { length = t.length; copy = none; handed = copy.buffer ∷ t.handed }
      else record { length = t.length; copy = none; handed = t.handed }
]

-- `Tee::new`.
unfoldable pub new : Option ℕ → Option BodyCopy → Tee
unfolding finish
new length copy =
    let t : Tee = record { length = length; copy = copy; handed = [] } in
    elim length [ none ↦ t | some n ↦ if n == 0 then finish t else t ]

-- The length that the origin announced is reached.
unfoldable pub is_full : Option ℕ → ℕ → Bool
is_full none n = false
is_full (some l) n = l == n

-- `poll_next`, once the inner stream has an item.
unfoldable pub poll : Tee → Item → Tee
unfolding finish is_full
poll t (chunk bytes) = elim t.copy [
  | none ↦ t
  | some copy ↦
      if ltb copy.limit (length copy.buffer + length bytes)
      then record { length = t.length; copy = none; handed = t.handed }
      else (let buffer = copy.buffer ++ bytes in
          let filled : Tee = record {
            length = t.length;
            copy = some (record { buffer = buffer; limit = copy.limit });
            handed = t.handed;
          } in
          if is_full t.length (length buffer) then finish filled else filled)
]
poll t failed = record { length = t.length; copy = none; handed = t.handed }
poll t ended = finish t

-- A sequence of items, the latest first.
unfoldable pub polls : Tee → List Item → Tee
unfolding poll
polls t [] = t
polls t (i ∷ is) = poll (polls t is) i
