-- ===== src/Cache/Store/Preserve.antt =====
-- The invariant of `Ledger` is kept by each change that a method makes.
use shadowstep.Prelude.{
  In, ℕ, ◌+◌, ◌<◌, ◌≡◌, ◌↔◌, ◌⊎◌, inl, inr, refl, sym, ◌∙◌, ap, true, List, [], ◌∷◌, some, arith,
}
use shadowstep.Text.Laws.{eqb_iff}
use shadowstep.Time.{Instant, Duration}
use shadowstep.Http.{HeaderName}
use shadowstep.Cache.Response.{PrimaryKey, Index, ResponseKey, Key, StoredResponse, Arc, Entry}
use shadowstep.Cache.Store.Defs.{Caches, Store, new}
use shadowstep.Cache.Store.Writes.{names_eqb}
use shadowstep.Cache.Store.Ledger.{Insertion, Inv}

pub names_eqb_iff : (a b : List HeaderName) → (names_eqb a b ≡ true) ↔ (a ≡ b)
unfolding names_eqb
names_eqb_iff [] [] = ground arith
names_eqb_iff [] (y ∷ ys) = ground arith
names_eqb_iff (x ∷ xs) [] = ground arith
names_eqb_iff (x ∷ xs) (y ∷ ys) = ground (arith, eqb_iff x y, names_eqb_iff xs ys)

module _ ⦃caches : Caches⦄ where
  open caches use {entries as E, index as I}

  pub new-Inv : (size_mb : ℕ) (ttl : Duration) → Inv (new size_mb ttl) []
  unfolding new
  new-Inv size_mb ttl = record {
    counted = omega arith;
    used = λ i m. absurd m;
    one_meaning = λ i j m. absurd m;
    index_known = λ now p x h. cc (h, I.get-build now _ _ _ p);
    entry_known = λ now k r h. cc (h, E.get-build now _ _ _ (Key.response k));
  }

  -- A store that holds no more, under the same counter, owes no more.
  pub shrink-Inv :
      (s s' : Store) (history : List Insertion)
      → Inv s history
      → s'.generation ≡ s.generation
      → ((now : Instant) (p : PrimaryKey) (x : Index)
          → I.get now s'.index p ≡ some x
          → I.get now s.index p ≡ some x)
      → ((now : Instant) (k : ResponseKey) (r : Arc StoredResponse)
          → E.get now s'.entries (Key.response k) ≡ some (Entry.response r)
          → E.get now s.entries (Key.response k) ≡ some (Entry.response r))
      → Inv s' history
  shrink-Inv s s' history v g hi he = record {
    counted = omega (arith, v.counted);
    used = λ i m. omega (arith, v.used i m);
    one_meaning = v.one_meaning;
    index_known = λ now p x h. v.index_known now p x (hi now p x h);
    entry_known = λ now k r h. v.entry_known now k r (he now k r h);
  }

  module _ (s s' : Store) (history : List Insertion) (i : Insertion) (v : Inv s history) where
    -- The new insertion shares a generation that stands for its URI and names, or takes a new one.
    abbrev pub Numbered : Type 0
    Numbered =
        ((j : Insertion) × In j history
          × (j.primary ≡ i.primary)
          × (j.names ≡ i.names)
          × (j.generation ≡ i.generation)
          × (s'.generation ≡ s.generation))
        ⊎ ((i.generation ≡ s.generation) × (s'.generation ≡ s.generation + 1))

    module _ (numbered : Numbered) where
      one_meaning_with :
          (j : Insertion)
          → In j history
          → i.generation ≡ j.generation
          → (i.primary ≡ j.primary) × (i.names ≡ j.names)
      one_meaning_with j m e = elim numbered [
        | inl (o, mo, p, n, g, _) ↦
            let (p', n') = v.one_meaning o j mo m (g ∙ e) in (sym p ∙ p', sym n ∙ n')
        | inr (g, _) ↦ absurd (omega (arith, v.used j m))
      ]

      used_with : (j : Insertion) → In j (i ∷ history) → j.generation < s'.generation
      used_with j (inl e) = elim numbered [
        | inl (o, mo, p, n, g, c) ↦
            omega (arith, v.used o mo, ap (λ (k : Insertion). k.generation) e)
        | inr (g, c) ↦ omega (arith, ap (λ (k : Insertion). k.generation) e)
      ]
      used_with j (inr m) = elim numbered [
        | inl (o, mo, p, n, g, c) ↦ omega (arith, v.used j m)
        | inr (g, c) ↦ omega (arith, v.used j m)
      ]

      one_meaning_all :
          (j k : Insertion)
          → In j (i ∷ history)
          → In k (i ∷ history)
          → j.generation ≡ k.generation
          → (j.primary ≡ k.primary) × (j.names ≡ k.names)
      one_meaning_all j k (inl a) (inl b) e = (cc, cc)
      one_meaning_all j k (inl a) (inr m) e =
          rw a (one_meaning_with k m (sym (ap (λ (l : Insertion). l.generation) a) ∙ e))
      one_meaning_all j k (inr m) (inl b) e =
          let (p, n) = one_meaning_with j m (sym (e ∙ ap (λ (l : Insertion). l.generation) b)) in
          rw b (sym p, sym n)
      one_meaning_all j k (inr m) (inr m') e = v.one_meaning j k m m' e

      pub extend-Inv :
          ((now : Instant) (p : PrimaryKey) (x : Index)
            → I.get now s'.index p ≡ some x
            → ((p ≡ i.primary) × (x.vary ≡ i.names) × (x.generation ≡ i.generation))
              ⊎ (I.get now s.index p ≡ some x))
          → ((now : Instant) (k : ResponseKey) (r : Arc StoredResponse)
              → E.get now s'.entries (Key.response k) ≡ some (Entry.response r)
              → ((k.primary ≡ i.primary)
                  × (k.generation ≡ i.generation)
                  × (k.vary ≡ i.values)
                  × (r ≡ i.response))
                ⊎ (E.get now s.entries (Key.response k) ≡ some (Entry.response r)))
          → Inv s' (i ∷ history)
      extend-Inv hi he = record {
        counted = elim numbered [
          | inl (o, mo, p, n, g, c) ↦ omega (arith, v.counted)
          | inr (g, c) ↦ omega (arith, v.counted)
        ];
        used = used_with;
        one_meaning = one_meaning_all;
        index_known = λ now p x h. elim (hi now p x h) [
          | inl (a, b, c) ↦ (i, inl refl, sym a, sym c, sym b)
          | inr old ↦ let (j, m, a, b, c) = v.index_known now p x old in (j, inr m, a, b, c)
        ];
        entry_known = λ now k r h. elim (he now k r h) [
          | inl (a, b, c, d) ↦ (i, inl refl, sym a, sym b, sym c, sym d)
          | inr old ↦ let (j, m, a, b, c, d) = v.entry_known now k r old in (j, inr m, a, b, c, d)
        ];
      }
