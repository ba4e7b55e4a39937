-- ===== src/Cache/Vary/Canonical.antt =====
-- That the `Vary` names of a response depend only on which names its fields list.
use shadowstep.Prelude.{
  ◌≡◌, inl, inr, refl, sym, ◌∙◌, ap, true, false, List, [], ◌∷◌, some, arith, In, All, Bool-cases,
  ◌↔◌, subst,
}
use shadowstep.Text.{eqb}
use shadowstep.Text.Laws.{eqb_iff}
use shadowstep.Http.{Http, HeaderName}
use shadowstep.Cache.Names
use shadowstep.Cache.Vary.{lexb, sort, dedup_cons, dedup, push_fields, vary_names}
use shadowstep.Cache.Vary.Sorted.{
  Before, Increasing, Ordered, lexb_antisym, All-In, In-All, In-dedup, In-sort, Ordered-sort,
}

Increasing-dedup_cons :
    (n : HeaderName) (ms : List HeaderName)
    → Increasing ms
    → All (λ x. lexb n x ≡ true) ms
    → Increasing (dedup_cons n ms)
Increasing-dedup_cons n [] h first = (tt, tt)
Increasing-dedup_cons n (m ∷ ms) (lower, rest) first = elim (Bool-cases (eqb n m)) [
  | inl same ↦ rw (same, dedup_cons) (lower, rest)
  | inr other ↦
      rw (other, dedup_cons)
        (
          All-In (Before n) (m ∷ ms) (λ x i. (
            In-All (λ y. lexb n y ≡ true) (m ∷ ms) x first i,
            elim i [
              | inl e ↦ rw e other
              | inr j ↦
                  apart x (In-All (λ y. lexb n y ≡ true) (m ∷ ms) m first (inl refl))
                    (In-All (Before m) ms x lower j)
            ],
          )),
          (lower, rest),
        )
]
  where
    apart : (x : HeaderName) → lexb n m ≡ true → Before m x → eqb n x ≡ false
    apart x below (above, different) = elim (Bool-cases (eqb n x)) [
      | inr e ↦ e
      | inl e ↦
          let same : n ≡ x = (eqb_iff n x).0 e in
          let back : lexb m n ≡ true = subst (λ y. lexb m y ≡ true) (sym same) above in
          let equal : m ≡ x = lexb_antisym m n back below ∙ same in
          absurd (ground (arith, (eqb_iff m x).1 equal))
    ]

Increasing-dedup : (ns : List HeaderName) → Ordered ns → Increasing (dedup ns)
unfolding dedup
Increasing-dedup [] h = tt
Increasing-dedup (n ∷ ns) (first, rest) =
    Increasing-dedup_cons n (dedup ns) (Increasing-dedup ns rest) (
      All-In (λ x. lexb n x ≡ true) (dedup ns)
        (λ x i. In-All (λ y. lexb n y ≡ true) ns x first ((In-dedup x ns).0 i)))

-- A name in front of the rest is before it, so nothing of the rest is in front of it.
not_below : (n m : HeaderName) → Before n m → Before m n → ⊥
not_below n m (a, different) (b, other) =
    let same : n ≡ m = lexb_antisym n m a b in ground (arith, (eqb_iff n m).1 same)

not_self : (n x : HeaderName) → Before n x → x ≡ n → ⊥
not_self n x (below, different) e = ground (arith, (eqb_iff n x).1 (sym e))

heads :
    (n m : HeaderName) (a b : List HeaderName)
    → All (Before n) a
    → All (Before m) b
    → (In n (n ∷ a) → In n (m ∷ b))
    → (In m (m ∷ b) → In m (n ∷ a))
    → n ≡ m
heads n m a b ha hb there back = elim (there (inl refl)) [
  | inl e ↦ e
  | inr j ↦ elim (back (inl refl)) [
    | inl e ↦ sym e
    | inr i ↦ absurd (not_below n m (In-All (Before n) a m ha i) (In-All (Before m) b n hb j))
  ]
]

Increasing-unique :
    (a b : List HeaderName)
    → Increasing a
    → Increasing b
    → ((x : HeaderName) → In x a ↔ In x b)
    → a ≡ b
Increasing-unique [] [] h k same = refl
Increasing-unique [] (m ∷ b) h k same = absurd ((same m).1 (inl refl))
Increasing-unique (n ∷ a) [] h k same = absurd ((same n).0 (inl refl))
Increasing-unique (n ∷ a) (m ∷ b) (ha, ra) (hb, rb) same =
    let e = heads n m a b ha hb (same n).0 (same m).1 in
    rw e (
      ap (λ l. m ∷ l)
        (Increasing-unique a b ra rb (λ x. (
          λ i. elim ((same x).0 (inr i)) [
            | inl f ↦ absurd (not_self n x (In-All (Before n) a x ha i) (f ∙ sym e))
            | inr j ↦ j
          ],
          λ j. elim ((same x).1 (inr j)) [
            | inl f ↦ absurd (not_self m x (In-All (Before m) b x hb j) (f ∙ e))
            | inr i ↦ i
          ],
        ))))

-- Two responses whose `Vary` fields list the same names, in whatever order, how often and in
-- however many fields, have the same `Vary` names.
pub vary_names-same :
    ⦃http : Http⦄ (r t : http.HeaderMap) (a b : List HeaderName)
    → push_fields [] (http.get_all r Names.vary) ≡ some a
    → push_fields [] (http.get_all t Names.vary) ≡ some b
    → ((x : HeaderName) → In x a ↔ In x b)
    → vary_names r ≡ vary_names t
unfolding vary_names
vary_names-same r t a b h k same =
    let equal : dedup (sort a) ≡ dedup (sort b) =
      Increasing-unique (dedup (sort a)) (dedup (sort b))
        (Increasing-dedup (sort a) (Ordered-sort a)) (Increasing-dedup (sort b) (Ordered-sort b))
        (λ x. (
          λ i.
              (In-dedup x (sort b)).1
                ((In-sort x b).1 ((same x).0 ((In-sort x a).0 ((In-dedup x (sort a)).0 i)))),
          λ i.
              (In-dedup x (sort a)).1
                ((In-sort x a).1 ((same x).1 ((In-sort x b).0 ((In-dedup x (sort b)).0 i)))),
        )) in
    rw (h, k, vary_names) (ap some equal)
