-- ===== src/Coalesce/Guards.antt =====
-- Lists of guards with different senders, and the map of flights.
use shadowstep.Prelude.{
  ℕ, ◌≡◌, ◌≢◌, inl, inr, refl, sym, ◌∙◌, ap, List, [], ◌∷◌, ◌++◌, none, arith, In, In-append_left,
  In-without, In-middle, In-middle_self, ite,
}
use mathlib.Core.List.{append_assoc}
use shadowstep.Coalesce.{lookup, remove, FlightGuard}

module _ {K : Type 0} (same : Discrete K) where
  pub lookup-remove :
      (m : List (K × ℕ)) (k j : K)
      → lookup same (remove same m k) j ≡ ite (same k j) none (lookup same m j)
  unfolding lookup remove
  lookup-remove [] k j = ground arith
  lookup-remove ((i, id) ∷ m) k j = ground (arith, lookup-remove m k j)

module _ {K : Type 0} where
  -- `g` shares its sender with no guard of the list.
  abbrev pub Apart : FlightGuard K → List (FlightGuard K) → Type 0
  Apart g gs = (h : FlightGuard K) → In h gs → h.sender ≢ g.sender

  -- No two guards of the list share a sender.
  abbrev pub Distinct : List (FlightGuard K) → Type 0
  Distinct [] = Unit
  Distinct (g ∷ gs) = Apart g gs × Distinct gs

  pub Distinct-middle :
      (g : FlightGuard K) (xs ys : List (FlightGuard K))
      → Distinct (xs ++ g ∷ ys)
      → Apart g (xs ++ ys) × Distinct (xs ++ ys)
  Distinct-middle g [] ys d = d
  Distinct-middle g (x ∷ xs) ys (a, d) =
      let (apart, rest) = Distinct-middle g xs ys d in
      (
        λ h m. elim m [
          | inl e ↦ λ same.
              a g (In-middle_self g xs ys) (sym same ∙ ap (λ (k : FlightGuard K). k.sender) e)
          | inr m' ↦ apart h m'
        ],
        (λ h m. a h (In-without h g xs ys m), rest),
      )

  pub Distinct-insert :
      (g : FlightGuard K) (xs ys : List (FlightGuard K))
      → Apart g (xs ++ ys)
      → Distinct (xs ++ ys)
      → Distinct (xs ++ g ∷ ys)
  Distinct-insert g [] ys a d = (a, d)
  Distinct-insert g (x ∷ xs) ys a (b, d) = (
    λ h m. elim (In-middle h g xs ys m) [
      | inl e ↦ λ same. a x (inl refl) (sym same ∙ ap (λ (k : FlightGuard K). k.sender) e)
      | inr m' ↦ b h m'
    ],
    Distinct-insert g xs ys (λ h m. a h (inr m)) d,
  )

  -- A guard moves from the guards held to those that end.
  pub Distinct-move :
      (g : FlightGuard K) (xs ys zs : List (FlightGuard K))
      → Distinct ((xs ++ g ∷ ys) ++ zs)
      → Distinct ((xs ++ ys) ++ g ∷ zs)
  Distinct-move g xs ys zs d =
      let (apart, rest) = Distinct-middle g xs (ys ++ zs) (rw append_assoc at d) in
      Distinct-insert g (xs ++ ys) zs (rw append_assoc apart) (rw append_assoc rest)

  pub In-move :
      (h g : FlightGuard K) (xs ys zs : List (FlightGuard K))
      → In h ((xs ++ ys) ++ g ∷ zs)
      → In h ((xs ++ g ∷ ys) ++ zs)
  In-move h g xs ys zs m = elim (In-middle h g (xs ++ ys) zs m) [
    | inl e ↦ In-append_left h (xs ++ g ∷ ys) zs (rw e (In-middle_self g xs ys))
    | inr m' ↦ rw append_assoc (In-without h g xs (ys ++ zs) (rw append_assoc at m'))
  ]

  pub In-move_back :
      (h g : FlightGuard K) (xs ys zs : List (FlightGuard K))
      → In h ((xs ++ g ∷ ys) ++ zs)
      → In h ((xs ++ ys) ++ g ∷ zs)
  In-move_back h g xs ys zs m = elim (In-middle h g xs (ys ++ zs) (rw append_assoc at m)) [
    | inl e ↦ rw e (In-middle_self g (xs ++ ys) zs)
    | inr m' ↦ In-without h g (xs ++ ys) zs (rw append_assoc m')
  ]
