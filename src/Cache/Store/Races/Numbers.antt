-- ===== src/Cache/Store/Races/Numbers.antt =====
-- The numbers that the calls of several `insert_response` take: each stands for one URI and one
-- list of `Vary` names.
use shadowstep.Prelude.{
  ℕ, suc, ◌≤◌, ◌<◌, ◌≡◌, ◌⊎◌, refl, sym, ◌∙◌, ap, List, ◌∷◌, Option, none, some, arith, length, In,
  inl, inr, Bool-cases,
}
use shadowstep.Time.{Instant}
use shadowstep.Http.{HeaderName}
use shadowstep.Cache.Response.{PrimaryKey, Index, ResponseKey, Key, StoredResponse, Arc, Entry}
use shadowstep.Cache.Store.Defs.{Caches, Store, u64_mod}
use shadowstep.Cache.Store.Writes.{names_eqb, choose_generation}
use shadowstep.Cache.Store.Ledger.{Insertion}
use shadowstep.Cache.Store.Preserve.{names_eqb_iff}
use shadowstep.Cache.Store.Steps.{number}
use shadowstep.Cache.Store.Races.{Naming, Looked, Means}

module _ ⦃caches : Caches⦄ where
  open caches use {entries as E, index as I}

  -- What holds of a store and of what the threads know of it.
  pub record Sound (s : Store) (seen : List (PrimaryKey × Index)) (named : List Naming)
      (history : List Insertion) : Type 0 where
    pub counted : s.generation ≤ length named
    pub below : (n : Naming) → In n named → n.generation < s.generation
    pub one_meaning :
        (n m : Naming)
        → In n named
        → In m named
        → n.generation ≡ m.generation
        → (n.primary ≡ m.primary) × (n.names ≡ m.names)
    pub seen_known :
        (p : PrimaryKey) (x : Index) → In (p, x) seen → Means x.generation p x.vary named
    pub index_known :
        (now : Instant) (p : PrimaryKey) (x : Index)
        → I.get now s.index p ≡ some x
        → Means x.generation p x.vary named
    pub history_known : (i : Insertion) → In i history → Means i.generation i.primary i.names named
    pub entry_known :
        (now : Instant) (k : ResponseKey) (r : Arc StoredResponse)
        → E.get now s.entries (Key.response k) ≡ some (Entry.response r)
        → (i : Insertion) × In i history
          × (i.primary ≡ k.primary)
          × (i.generation ≡ k.generation)
          × (i.values ≡ k.vary)
          × (i.response ≡ r)

  longer :
      (g : ℕ) (p : PrimaryKey) (names : List HeaderName) (named : List Naming) (n : Naming)
      → Means g p names named
      → Means g p names (n ∷ named)
  longer g p names named n (m, i, a, b, c) = (m, inr i, a, b, c)

  -- A number that is taken is new, or that of the index for the same names.
  pub Fresh : Store → ℕ → ℕ → PrimaryKey → List HeaderName → List Naming → Type 0
  Fresh s g next p names named =
      ((g ≡ s.generation) × (next ≡ suc s.generation))
      ⊎ (Means g p names named × (next ≡ s.generation))

  pub number-Fresh :
      (s : Store) (seen : List (PrimaryKey × Index)) (named : List Naming)
      (history : List Insertion) (primary : PrimaryKey) (peeked : Option Index)
      (names : List HeaderName)
      → Sound s seen named history
      → suc (length named) < u64_mod
      → Looked primary peeked seen
      → Fresh s (number s peeked names).0 (number s peeked names).1.generation primary names named
  unfolding number choose_generation Fresh
  number-Fresh s seen named history primary none names v room l =
      inl (refl, ground (arith, v.counted))
  number-Fresh s seen named history primary (some x) names v room l =
      elim (Bool-cases (names_eqb x.vary names)) [
        | inl same ↦
            let (n, m, g, p, e) = v.seen_known primary x l in
            rw (same, number, choose_generation)
              (inr ((n, m, g, p, e ∙ (names_eqb_iff x.vary names).0 same), refl))
        | inr other ↦ rw (other, number, choose_generation) (inl (refl, ground (arith, v.counted)))
      ]

  pub numbered-Sound :
      (s : Store) (seen : List (PrimaryKey × Index)) (named : List Naming)
      (history : List Insertion) (primary : PrimaryKey) (names : List HeaderName) (g next : ℕ)
      → Sound s seen named history
      → Fresh s g next primary names named
      → Sound
          (record s { generation = next })
          seen
          (record { primary = primary; generation = g; names = names } ∷ named)
          history
  unfolding Fresh
  numbered-Sound s seen named history primary names g next v fresh =
      let new_one : Naming = record { primary = primary; generation = g; names = names } in
      let means : (m : Naming)
          → In m named
          → m.generation ≡ g
          → (m.primary ≡ primary) × (m.names ≡ names) =
        λ m i e. elim fresh [
          | inl (old, _) ↦ (let less = v.below m i in absurd (omega (arith, less, e, old)))
          | inr ((n, j, a, b, c), _) ↦
              (let (p, q) = v.one_meaning m n i j (e ∙ sym a) in (p ∙ b, q ∙ c))
        ] in
      record {
        counted = elim fresh [
          | inl (_, e) ↦ (let c = v.counted in omega arith)
          | inr (_, e) ↦ (let c = v.counted in omega arith)
        ];
        below = λ n m. elim fresh [
          | inl (a, e) ↦ elim m [
            | inl same ↦
                (let q : n.generation ≡ g = ap (λ (k : Naming). k.generation) same in omega arith)
            | inr i ↦ (let less = v.below n i in omega arith)
          ]
          | inr ((k, j, a, b, c), e) ↦ elim m [
            | inl same ↦
                (let q : n.generation ≡ g = ap (λ (k : Naming). k.generation) same in
                  let less = v.below k j in omega arith)
            | inr i ↦ (let less = v.below n i in omega arith)
          ]
        ];
        one_meaning = λ n m i j e. elim i [
          | inl a ↦ elim j [
            | inl b ↦ (
              ap (λ (k : Naming). k.primary) (a ∙ sym b),
              ap (λ (k : Naming). k.names) (a ∙ sym b),
            )
            | inr b ↦
                (let (p, q) = means m b (sym e ∙ ap (λ (k : Naming). k.generation) a) in
                  (
                    ap (λ (k : Naming). k.primary) a ∙ sym p,
                    ap (λ (k : Naming). k.names) a ∙ sym q,
                  ))
          ]
          | inr a ↦ elim j [
            | inl b ↦
                (let (p, q) = means n a (e ∙ ap (λ (k : Naming). k.generation) b) in
                  (
                    p ∙ sym (ap (λ (k : Naming). k.primary) b),
                    q ∙ sym (ap (λ (k : Naming). k.names) b),
                  ))
            | inr b ↦ v.one_meaning n m a b e
          ]
        ];
        seen_known = λ p x m. longer x.generation p x.vary named new_one (v.seen_known p x m);
        index_known =
            λ now p x h. longer x.generation p x.vary named new_one (v.index_known now p x h);
        history_known =
            λ i m. longer i.generation i.primary i.names named new_one (v.history_known i m);
        entry_known = λ now k r h. v.entry_known now k r h;
      }
