-- ===== src/Watch/Opened.antt =====
-- An implementation of the interface, which shows that its laws can hold: the number of channels
-- that were made, and those whose sender is gone.
use shadowstep.Prelude.{
  ℕ, suc, ◌≡◌, refl, Bool, true, false, List, [], ◌∷◌, arith, ltb, ◌==◌, if◌then◌else◌,
}
use shadowstep.Watch.{Watch}

pub record Opened : Type 0 where
  pub made : ℕ
  pub gone : List ℕ

abbrev pub is_gone : List ℕ → ℕ → Bool
is_gone [] id = false
is_gone (j ∷ js) id = if j == id then true else is_gone js id

abbrev pub without : List ℕ → ℕ → List ℕ
without [] id = []
without (j ∷ js) id = let rest = without js id in if j == id then rest else j ∷ rest

pub is_gone-without :
    (js : List ℕ) (k id : ℕ)
    → is_gone (without js k) id ≡ (if k == id then false else is_gone js id)
is_gone-without [] k id = ground arith
is_gone-without (j ∷ js) k id = ground (arith, is_gone-without js k id)

pub made_next : (made id : ℕ) → ltb id (suc made) ≡ (if made == id then true else ltb id made)
made_next made id = ground arith

pub made_none : (id : ℕ) → ltb id 0 ≡ false
made_none id = ground arith

pub made_fresh : (made : ℕ) → ltb made made ≡ false
made_fresh made = ground arith

abbrev pub opened : Watch
opened = record {
  Channels = Opened;
  none_open = record { made = 0; gone = [] };
  channel = λ c. (c.made, record { made = suc c.made; gone = without c.gone c.made });
  drop_sender = λ c id. record c { gone = id ∷ c.gone };
  closed = λ c id. is_gone c.gone id;
  made = λ c id. ltb id c.made;
  made-none_open = made_none;
  made-channel_new = λ c. made_fresh c.made;
  made-channel = λ c id. made_next c.made id;
  made-drop_sender = λ c j id. refl;
  closed-channel = λ c id. is_gone-without c.gone c.made id;
  closed-drop_sender = λ c j id. refl;
}
