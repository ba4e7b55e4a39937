-- ===== src/Coalesce/Invariant.antt =====
-- What holds of the flights along any interleaving.
use shadowstep.Prelude.{
  ℕ, ◌≡◌, ◌≢◌, ◌⊎◌, inl, inr, refl, sym, ◌∙◌, ap, Bool, true, false, List, ◌∷◌, ◌++◌, none, some,
  arith, In, In-append_left, In-without, In-middle, In-middle_self, ◌==◌, Option-cases, Bool-cases,
  ==_iff,
}
use mathlib.Core.List.{append_assoc}
use shadowstep.Watch.{Watch}
use shadowstep.Coalesce.{
  lookup, remove, FlightGuard, Join, lead, Flights, join, drop_guard, drop_sender,
}
use shadowstep.Coalesce.Guards.{
  lookup-remove, Apart, Distinct, Distinct-middle, Distinct-move, In-move, In-move_back,
}
use shadowstep.Coalesce.Reach.{Reached, started, led, joined, removed, ended}

module _ ⦃watch : Watch⦄ {K : Type 0} (same : Discrete K) where
  pub record Inv (f : Flights K) (holding ending : List (FlightGuard K)) : Type 0 where
    -- the map holds the flights of the guards that are held, and no other
    pub listed : (g : FlightGuard K) → In g holding → lookup same f.in_flight g.key ≡ some g.sender
    pub known :
        (key : K) (id : ℕ)
        → lookup same f.in_flight key ≡ some id
        → (g : FlightGuard K) × In g holding × (g.key ≡ key) × (g.sender ≡ id)
    -- a channel is open while its sender's guard is there
    pub open_held :
        (g : FlightGuard K) → In g (holding ++ ending) → watch.closed f.channels g.sender ≡ false
    pub made :
        (g : FlightGuard K) → In g (holding ++ ending) → watch.made f.channels g.sender ≡ true
    pub distinct : Distinct (holding ++ ending)
    -- a channel that is open has its guard
    pub owned :
        (id : ℕ)
        → watch.made f.channels id ≡ true
        → watch.closed f.channels id ≡ false
        → (g : FlightGuard K) × In g (holding ++ ending) × (g.sender ≡ id)

  join-lead :
      (f f' : Flights K) (key : K) (may_lead : Bool) (g : FlightGuard K)
      → join same f key may_lead ≡ (lead g, f')
      → (lookup same f.in_flight key ≡ none)
        × (may_lead ≡ true)
        × (g ≡ record { key = key; sender = (watch.channel f.channels).0 })
        × (f' ≡ record {
          in_flight = (key, (watch.channel f.channels).0) ∷ f.in_flight;
          channels = (watch.channel f.channels).1;
        })
  unfolding join
  join-lead f f' key may_lead g h = elim (Option-cases (lookup same f.in_flight key)) [
    | inl e ↦ (e, ground arith, ground arith, ground arith)
    | inr (id, e) ↦ cc (rw (e, join) at h)
  ]

  join-other :
      (f f' : Flights K) (key : K) (may_lead : Bool) (j : Join K)
      → join same f key may_lead ≡ (j, f')
      → ((g : FlightGuard K) → j ≢ lead g)
      → f' ≡ f
  unfolding join
  join-other f f' key may_lead j h other =
      ground (arith, other (record { key = key; sender = (watch.channel f.channels).0 }))

  module _ (f : Flights K) (holding ending : List (FlightGuard K)) (v : Inv f holding ending) where
    led-Inv :
        (key : K)
        → lookup same f.in_flight key ≡ none
        → Inv
            (record {
              in_flight = (key, (watch.channel f.channels).0) ∷ f.in_flight;
              channels = (watch.channel f.channels).1;
            })
            (record { key = key; sender = (watch.channel f.channels).0 } ∷ holding)
            ending
    unfolding lookup
    led-Inv key free = record {
      listed = λ h m. elim m [ inl e ↦ ground arith | inr m' ↦ ground (arith, v.listed h m') ];
      known = λ k id e. elim (same key k) [
        | yes p ↦
            (record { key = key; sender = (watch.channel f.channels).0 }, inl refl, p, ground arith)
        | no p ↦ let (g, m, a, b) = v.known k id (ground arith) in (g, inr m, a, b)
      ];
      open_held = λ h m. elim m [
        | inl e ↦
            rw e (ground (arith, watch.closed-channel f.channels (watch.channel f.channels).0))
        | inr m' ↦ ground (arith, watch.closed-channel f.channels h.sender, v.open_held h m')
      ];
      made = λ h m. elim m [
        | inl e ↦ rw e (ground (arith, watch.made-channel f.channels (watch.channel f.channels).0))
        | inr m' ↦ ground (arith, watch.made-channel f.channels h.sender, v.made h m')
      ];
      distinct = (
        λ h m e. cc (v.made h m, watch.made-channel_new f.channels, ap (watch.made f.channels) e),
        v.distinct,
      );
      owned = λ id m c. elim (Bool-cases ((watch.channel f.channels).0 == id)) [
        | inl same_id ↦ (
          record { key = key; sender = (watch.channel f.channels).0 },
          inl refl,
          (==_iff _ _).0 same_id,
        )
        | inr other ↦
            let (g, mg, e) =
              v.owned id (ground (arith, watch.made-channel f.channels id))
                (ground (arith, watch.closed-channel f.channels id)) in
            (g, inr mg, e)
      ];
    }

  module _ (f : Flights K) (before after ending : List (FlightGuard K)) (g : FlightGuard K)
      (v : Inv f (before ++ g ∷ after) ending) where
    pub removed_others : (h : FlightGuard K) → In h (before ++ after) → h.key ≢ g.key
    removed_others h m same_key =
        let there = In-without h g before after m in
        let (apart, _) =
          Distinct-middle g before (after ++ ending) (rw append_assoc at v.distinct) in
        apart h (rw (← append_assoc) (In-append_left h (before ++ after) ending m)) (
          ground (
            arith,
            v.listed h there,
            v.listed g (In-middle_self g before after),
            ap (lookup same f.in_flight) same_key,
          ))

    kept : (h : FlightGuard K) → (h ≡ g) ⊎ In h (before ++ after) → h ≢ g → In h (before ++ after)
    kept h (inl e) ne = absurd (ne e)
    kept h (inr m) ne = m

    known_after :
        (k : K) (id : ℕ)
        → lookup same (remove same f.in_flight g.key) k ≡ some id
        → (h : FlightGuard K) × In h (before ++ after) × (h.key ≡ k) × (h.sender ≡ id)
    known_after k id e = elim (same g.key k) [
      | yes p ↦ ground (arith, lookup-remove same f.in_flight g.key k)
      | no p ↦
          let old : lookup same f.in_flight k ≡ some id =
            ground (arith, lookup-remove same f.in_flight g.key k) in
          let (h, m, a, b) = v.known k id old in
          (
            h,
            kept h (In-middle h g before after m)
                (λ q. p (sym (ap (λ (x : FlightGuard K). x.key) q) ∙ a)),
            a,
            b,
          )
    ]

    removed-Inv : Inv (drop_guard same f g) (before ++ after) (g ∷ ending)
    unfolding drop_guard
    removed-Inv = record {
      listed = λ h m. ground (
        arith,
        lookup-remove same f.in_flight g.key h.key,
        removed_others h m,
        v.listed h (In-without h g before after m),
      );
      known = known_after;
      open_held = λ h m. v.open_held h (In-move h g before after ending m);
      made = λ h m. v.made h (In-move h g before after ending m);
      distinct = Distinct-move g before after ending v.distinct;
      owned = λ id m c.
          let (h, mh, e) = v.owned id m c in (h, In-move_back h g before after ending mh, e);
    }

  module _ (f : Flights K) (holding before after : List (FlightGuard K)) (g : FlightGuard K)
      (v : Inv f holding (before ++ g ∷ after)) where
    ended-Apart : Apart g ((holding ++ before) ++ after) × Distinct ((holding ++ before) ++ after)
    ended-Apart = Distinct-middle g (holding ++ before) after (rw append_assoc v.distinct)

    still_there :
        (h : FlightGuard K)
        → In h (holding ++ (before ++ after))
        → In h (holding ++ (before ++ g ∷ after))
    still_there h m =
        rw (← append_assoc) (In-without h g (holding ++ before) after (rw append_assoc m))

    owned_after :
        (id : ℕ)
        → watch.made (watch.drop_sender f.channels g.sender) id ≡ true
        → watch.closed (watch.drop_sender f.channels g.sender) id ≡ false
        → (h : FlightGuard K) × In h (holding ++ (before ++ after)) × (h.sender ≡ id)
    owned_after id m c =
        let was_open : watch.closed f.channels id ≡ false =
          ground (arith, watch.closed-drop_sender f.channels g.sender id) in
        let other : g.sender ≢ id =
          ground (arith, watch.closed-drop_sender f.channels g.sender id) in
        let (h, mh, e) =
          v.owned id (ground (arith, watch.made-drop_sender f.channels g.sender id)) was_open in
        elim (In-middle h g (holding ++ before) after (rw append_assoc mh)) [
          | inl same_guard ↦
              absurd (other (sym (ap (λ (k : FlightGuard K). k.sender) same_guard) ∙ e))
          | inr there ↦ (h, rw (← append_assoc) there, e)
        ]

    ended-Inv : Inv (drop_sender same f g) holding (before ++ after)
    unfolding drop_sender
    ended-Inv = record {
      listed = v.listed;
      known = v.known;
      open_held = λ h m. ground (
        arith,
        watch.closed-drop_sender f.channels g.sender h.sender,
        v.open_held h (still_there h m),
        ended-Apart.0 h (rw append_assoc m),
      );
      made = λ h m.
          ground (
            arith,
            watch.made-drop_sender f.channels g.sender h.sender,
            v.made h (still_there h m),
          );
      distinct = rw (← append_assoc) ended-Apart.1;
      owned = owned_after;
    }

  pub Reached-Inv :
      {f : Flights K} {holding ending : List (FlightGuard K)}
      → Reached same f holding ending
      → Inv f holding ending
  unfolding lookup
  Reached-Inv started = record {
    listed = λ g m. absurd m;
    known = λ k id e. cc;
    open_held = λ g m. absurd m;
    made = λ g m. absurd m;
    distinct = tt;
    owned = λ id m c. cc (watch.made-none_open id);
  }
  Reached-Inv (led {f} {f'} {holding} {ending} key g h r) =
      let (free, _, same_guard, same_flights) = join-lead f f' key true g h in
      rw (same_guard, same_flights) (led-Inv f holding ending (Reached-Inv r) key free)
  Reached-Inv (joined {f} {f'} key may_lead j h other r) =
      rw (join-other f f' key may_lead j h other) (Reached-Inv r)
  Reached-Inv (removed {f} {ending} before after g r) =
      removed-Inv f before after ending g (Reached-Inv r)
  Reached-Inv (ended {f} {holding} before after g r) =
      ended-Inv f holding before after g (Reached-Inv r)
