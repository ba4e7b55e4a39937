-- ===== src/Cache/Vary/Sorted.antt =====
-- The `Vary` names of a response in one order, each once.
use shadowstep.Prelude.{
  ◌≡◌, ◌⊎◌, inl, inr, refl, sym, subst, true, false, List, [], ◌∷◌, arith, In, All, Bool-cases, ◌↔◌,
}
use shadowstep.Text.{Text, eqb}
use shadowstep.Text.Laws.{eqb_iff}
use shadowstep.Http.{HeaderName}
use shadowstep.Cache.Vary.{lexb, insert_sorted, sort, dedup_cons, dedup}

-- `a` stands strictly before `b`.
abbrev pub Before : Text → Text → Type 0
Before a b = (lexb a b ≡ true) × (eqb a b ≡ false)

-- Each name stands before all that follow.
abbrev pub Increasing : List HeaderName → Type 0
Increasing [] = Unit {0}
Increasing (n ∷ ns) = All (λ m. Before n m) ns × Increasing ns

lexb_trans : (a b c : Text) → lexb a b ≡ true → lexb b c ≡ true → lexb a c ≡ true
unfolding lexb
lexb_trans [] b c h k = refl
lexb_trans (x ∷ a) [] c h k = cc
lexb_trans (x ∷ a) (y ∷ b) [] h k = cc
lexb_trans (x ∷ a) (y ∷ b) (z ∷ c) h k = ground (arith, lexb_trans a b c)

lexb_total : (a b : Text) → lexb a b ≡ false → lexb b a ≡ true
unfolding lexb
lexb_total [] b h = cc
lexb_total (x ∷ a) [] h = refl
lexb_total (x ∷ a) (y ∷ b) h = ground (arith, lexb_total a b)

pub lexb_antisym : (a b : Text) → lexb a b ≡ true → lexb b a ≡ true → a ≡ b
unfolding lexb
lexb_antisym [] [] h k = refl
lexb_antisym [] (y ∷ b) h k = cc
lexb_antisym (x ∷ a) [] h k = cc
lexb_antisym (x ∷ a) (y ∷ b) h k = ground (arith, lexb_antisym a b)

-- Sorted: no name stands after a later one.
abbrev pub Ordered : List HeaderName → Type 0
Ordered [] = Unit {0}
Ordered (n ∷ ns) = All (λ m. lexb n m ≡ true) ns × Ordered ns

In-insert_sorted :
    (x n : HeaderName) (ms : List HeaderName) → In x (insert_sorted n ms) ↔ ((x ≡ n) ⊎ In x ms)
unfolding insert_sorted
In-insert_sorted x n [] = (λ h. h, λ h. h)
In-insert_sorted x n (m ∷ ms) = elim (Bool-cases (lexb n m)) [
  | inl first ↦ rw (first, insert_sorted) (λ h. h, λ h. h)
  | inr later ↦
      let (there, back) = In-insert_sorted x n ms in
      rw (later, insert_sorted) (λ h. ground arith, λ h. ground arith)
]

pub In-sort : (x : HeaderName) (ns : List HeaderName) → In x (sort ns) ↔ In x ns
unfolding sort
In-sort x [] = (λ h. h, λ h. h)
In-sort x (n ∷ ns) =
    let (there, back) = In-insert_sorted x n (sort ns) in
    let (down, up) = In-sort x ns in (λ h. ground arith, λ h. ground arith)

In-dedup_cons :
    (x n : HeaderName) (ms : List HeaderName) → In x (dedup_cons n ms) ↔ ((x ≡ n) ⊎ In x ms)
In-dedup_cons x n [] = (λ h. h, λ h. h)
In-dedup_cons x n (m ∷ ms) = (λ h. ground (arith, eqb_iff n m), λ h. ground (arith, eqb_iff n m))

pub In-dedup : (x : HeaderName) (ns : List HeaderName) → In x (dedup ns) ↔ In x ns
unfolding dedup
In-dedup x [] = (λ h. h, λ h. h)
In-dedup x (n ∷ ns) =
    let (there, back) = In-dedup_cons x n (dedup ns) in
    let (down, up) = In-dedup x ns in (λ h. ground arith, λ h. ground arith)

-- `All` by membership.
pub All-In :
    (P : HeaderName → Type 0) (ns : List HeaderName) → ((x : HeaderName) → In x ns → P x) → All P ns
All-In P [] h = tt
All-In P (n ∷ ns) h = (h n (inl refl), All-In P ns (λ x m. h x (inr m)))

pub In-All :
    (P : HeaderName → Type 0) (ns : List HeaderName) (x : HeaderName) → All P ns → In x ns → P x
In-All P [] x h m = absurd m
In-All P (n ∷ ns) x (p, ps) (inl e) = subst P (sym e) p
In-All P (n ∷ ns) x (p, ps) (inr m) = In-All P ns x ps m

Ordered-insert_sorted :
    (n : HeaderName) (ms : List HeaderName) → Ordered ms → Ordered (insert_sorted n ms)
unfolding insert_sorted
Ordered-insert_sorted n [] h = (tt, tt)
Ordered-insert_sorted n (m ∷ ms) (first, rest) = elim (Bool-cases (lexb n m)) [
  | inl before ↦
      rw (before, insert_sorted)
        (
          All-In (λ x. lexb n x ≡ true) (m ∷ ms)
              (λ x i. elim i [
                | inl e ↦ rw e before
                | inr j ↦ lexb_trans n m x before (In-All (λ x. lexb m x ≡ true) ms x first j)
              ]),
          (first, rest),
        )
  | inr after ↦
      rw (after, insert_sorted)
        (
          All-In (λ x. lexb m x ≡ true) (insert_sorted n ms)
              (λ x i. elim ((In-insert_sorted x n ms).0 i) [
                | inl e ↦ rw e (lexb_total n m after)
                | inr j ↦ In-All (λ x. lexb m x ≡ true) ms x first j
              ]),
          Ordered-insert_sorted n ms rest,
        )
]

pub Ordered-sort : (ns : List HeaderName) → Ordered (sort ns)
unfolding sort
Ordered-sort [] = tt
Ordered-sort (n ∷ ns) = Ordered-insert_sorted n (sort ns) (Ordered-sort ns)
