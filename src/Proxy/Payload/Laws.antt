-- ===== src/Proxy/Payload/Laws.antt =====
-- What the origin receives of the client's body.
use shadowstep.Prelude.{
  ◌∙◌, ℕ, suc, ◌+◌, ◌≡◌, ◌⊎◌, inl, inr, refl, ap, Bool, true, false, List, [], ◌∷◌, ◌++◌, arith,
  Bool-cases, length, map,
}
use shadowstep.Text.{Bytes}
use shadowstep.Proxy.Payload.{Item, chunk, failed, Payload, pump_rest, pump_request_body}

module _ (sends : ℕ → Bool) where
  -- The frames are chunks and may be followed by one failure: they are all of the items from the
  -- `n`-th send on, or end with the failure, or were cut off by a send that failed.
  abbrev pub IsPumped : ℕ → List Item → Payload → Type 0
  IsPumped n frames items =
      (chunks : List Bytes) × (rest : Payload) × (((frames ≡ map chunk chunks)
          × (items ≡ frames ++ rest)
          × ((rest ≡ []) ⊎ (sends (n + length frames) ≡ false)))
        ⊎ ((frames ≡ map chunk chunks ++ failed ∷ []) × (items ≡ frames ++ rest)))

  pump_rest-stopped : (n : ℕ) (items : Payload) → sends n ≡ false → pump_rest sends n items ≡ []
  unfolding pump_rest
  pump_rest-stopped n [] e = refl
  pump_rest-stopped n (failed ∷ items) e = ground arith
  pump_rest-stopped n (chunk bytes ∷ items) e = ground arith

  pump_rest-sent :
      (n : ℕ) (bytes : Bytes) (items : Payload)
      → sends n ≡ true
      → pump_rest sends n (chunk bytes ∷ items) ≡ chunk bytes ∷ pump_rest sends (suc n) items
  unfolding pump_rest
  pump_rest-sent n bytes items e = ground arith

  none-IsPumped : (n : ℕ) (items : Payload) → sends n ≡ false → IsPumped n [] items
  none-IsPumped n items e = ([], items, inl (refl, refl, inr (ap sends (omega arith) ∙ e)))

  chunk-IsPumped :
      (n : ℕ) (bytes : Bytes) (frames : List Item) (items : Payload)
      → IsPumped (suc n) frames items
      → IsPumped n (chunk bytes ∷ frames) (chunk bytes ∷ items)
  chunk-IsPumped n bytes frames items (chunks, rest, inl (same, split, end)) = (
    bytes ∷ chunks,
    rest,
    inl (
      ap (λ l. chunk bytes ∷ l) same,
      ap (λ l. chunk bytes ∷ l) split,
      elim end [ inl all ↦ inl all | inr cut ↦ inr (ap sends (omega arith) ∙ cut) ],
    ),
  )
  chunk-IsPumped n bytes frames items (chunks, rest, inr (same, split)) =
      (bytes ∷ chunks, rest, inr (ap (λ l. chunk bytes ∷ l) same, ap (λ l. chunk bytes ∷ l) split))

  pump_rest-IsPumped : (n : ℕ) (items : Payload) → IsPumped n (pump_rest sends n items) items
  unfolding pump_rest
  pump_rest-IsPumped n [] = ([], [], inl (refl, refl, inl refl))
  pump_rest-IsPumped n (failed ∷ items) = elim (Bool-cases (sends n)) [
    | inl e ↦ ([], items, inr (ground arith, ground arith))
    | inr e ↦ rw (pump_rest-stopped n (failed ∷ items) e) (none-IsPumped n (failed ∷ items) e)
  ]
  pump_rest-IsPumped n (chunk bytes ∷ items) = elim (Bool-cases (sends n)) [
    | inl e ↦ rw (pump_rest-sent n bytes items e) (
        chunk-IsPumped n bytes (pump_rest sends (suc n) items) items
          (pump_rest-IsPumped (suc n) items))
    | inr e ↦
        rw (pump_rest-stopped n (chunk bytes ∷ items) e) (none-IsPumped n (chunk bytes ∷ items) e)
  ]

  -- The origin request reads the client's body from its start, in order and without a gap: all of
  -- it, or up to the first error and then that error, or up to a send that failed because the
  -- request has ended. So a body that the client cut short never reaches the origin as a whole one.
  pub pump_request_body-IsPumped :
      (first : Bytes) (rest : Payload)
      → IsPumped 0 (pump_request_body sends first rest) (chunk first ∷ rest)
  unfolding pump_request_body pump_rest
  pump_request_body-IsPumped first rest = elim (Bool-cases (sends 0)) [
    | inl e ↦
        rw (e, pump_request_body)
          (chunk-IsPumped 0 first (pump_rest sends 1 rest) rest (pump_rest-IsPumped 1 rest))
    | inr e ↦ rw (e, pump_request_body) (none-IsPumped 0 (chunk first ∷ rest) e)
  ]
