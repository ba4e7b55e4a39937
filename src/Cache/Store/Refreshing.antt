-- ===== src/Cache/Store/Refreshing.antt =====
-- What `freshen` gives and changes.
use shadowstep.Prelude.{
  ◌≡◌, refl, Bool, false, not, List, [], ◌∷◌, ◌++◌, Option, arith, inl, inr, any, if◌then◌else◌,
  retain, Option-cases, Bool-cases, ap, ◌∙◌,
}
use mathlib.Core.List.{append-nil}
use shadowstep.Text.{eqb}
use shadowstep.Text.Laws.{eqb_iff}
use shadowstep.Http.{Http, HeaderName, HeaderValue}
use shadowstep.Cache.Policy.{RequestPolicy}
use shadowstep.Cache.Storable.{Storable, storable}
use shadowstep.Cache.Vary.{Vary}
use shadowstep.Cache.Response.{Key, Fields, updated_fields}
use shadowstep.Cache.Store.Defs.{Clock, Caches, Store, StaleEntry, response_of}
use shadowstep.Cache.Store.Writes.{
  freshen, freshened_map, is_current, replace, detached, insert_response, response,
}

-- The values of the fields of one name.
abbrev pub named : Fields → HeaderName → List HeaderValue
named [] name = []
named ((n, v) ∷ fields) name = let rest = named fields name in if eqb n name then v ∷ rest else rest

named-append :
    (a b : Fields) (name : HeaderName) → named (a ++ b) name ≡ named a name ++ named b name
named-append [] b name = refl
named-append ((n, v) ∷ a) b name = ground (arith, named-append a b name)

named-none :
    (update : Fields) (name : HeaderName)
    → any (λ u. eqb u.0 name) update ≡ false
    → named update name ≡ []
named-none [] name h = refl
named-none ((n, v) ∷ update) name h = ground (arith, named-none update name)

named-retain :
    (stored update : Fields) (name : HeaderName)
    → named (retain (λ f. not (any (λ u. eqb u.0 f.0) update)) stored) name
      ≡ (if any (λ u. eqb u.0 name) update then [] else named stored name)
named-retain [] update name = ground arith
named-retain ((n, v) ∷ stored) update name = elim (Bool-cases (eqb n name)) [
  | inl e ↦
      let same : n ≡ name = (eqb_iff n name).0 e in
      elim (Bool-cases (any (λ u. eqb u.0 name) update)) [
        | inl there ↦ rw (same, there) (rw there at (named-retain stored update name))
        | inr absent ↦
            rw (same, absent) (ground (arith, named-retain stored update name, eqb_iff name name))
      ]
  | inr e ↦ ground (arith, named-retain stored update name)
]

-- A 304's fields replace the stored ones of the same names, and the others stay as they were.
named-updated_fields :
    (stored update : Fields) (name : HeaderName)
    → named (updated_fields stored update) name
      ≡ (if any (λ u. eqb u.0 name) update then named update name else named stored name)
unfolding updated_fields
named-updated_fields stored update name =
    rw
      (
        named-append (retain (λ f. not (any (λ u. eqb u.0 f.0) update)) stored) update name,
        named-retain stored update name,
      )
      (elim (Bool-cases (any (λ u. eqb u.0 name) update)) [
        | inl there ↦ rw there refl
        | inr absent ↦ rw (absent, named-none update name absent) (append-nil (named stored name))
      ])

module _ ⦃caches : Caches⦄ where
  open caches use {entries as E, index as I}

  module _ ⦃http : Http⦄ where
    open http use {HeaderMap}

    replace-content :
        (clock : Clock) (s : Store) (entry : StaleEntry) (p : Storable) (vary : Vary)
        (headers : Fields) (current : Bool)
        → (let r = (replace clock s entry p vary headers current).0.value in
            (r.status ≡ entry.response.value.status)
            × (r.body ≡ entry.response.value.body)
            × (r.headers ≡ headers))
    unfolding replace detached response insert_response
    replace-content clock s entry p vary headers current = ground arith

    freshen-updated :
        (clock : Clock) (s : Store) (entry : StaleEntry) (policy : RequestPolicy)
        (request : HeaderMap) (update : Fields) (age : Option HeaderValue)
        → (let r = (freshen clock s entry policy request update age).0.value in
            (r.status ≡ entry.response.value.status)
            × (r.body ≡ entry.response.value.body)
            × (r.headers ≡ updated_fields entry.response.value.headers update))
    unfolding freshen detached response
    freshen-updated clock s entry policy request update age =
        let headers = updated_fields entry.response.value.headers update in
        elim (Option-cases (
          storable clock.system policy request entry.response.value.status
            (freshened_map headers age))) [
              | inl e ↦ rw (e, freshen, detached, response) (refl, refl, refl)
              | inr ((p, vary), e) ↦
                  rw (e, freshen) (replace-content clock s entry p vary headers _)
            ]

    -- Whatever the store holds by now, the response that a 304 freshens has the stored status and
    -- body. Of each field that the 304 has, in any of its lines, it has the 304's values in their
    -- order, and of every other field the stored values in theirs.
    pub freshen-content :
        (clock : Clock) (s : Store) (entry : StaleEntry) (policy : RequestPolicy)
        (request : HeaderMap) (update : Fields) (age : Option HeaderValue) (name : HeaderName)
        → (let r = (freshen clock s entry policy request update age).0.value in
            (r.status ≡ entry.response.value.status)
            × (r.body ≡ entry.response.value.body)
            × (named r.headers name ≡ (
                if any (λ u. eqb u.0 name) update
                then named update name
                else named entry.response.value.headers name)))
    freshen-content clock s entry policy request update age name =
        let (a, b, c) = freshen-updated clock s entry policy request update age in
        (
          a,
          b,
          ap (λ fields. named fields name) c
              ∙ named-updated_fields entry.response.value.headers update name,
        )

    -- A 304 for a response that the store has replaced or dropped since leaves what the store holds
    -- alone.
    freshen-outdated :
        (clock : Clock) (s : Store) (entry : StaleEntry) (policy : RequestPolicy)
        (request : HeaderMap) (update : Fields) (age : Option HeaderValue)
        → is_current
            (response_of (E.get clock.instant s.entries (Key.response entry.key)))
            entry.response
          ≡ false
        → (let s' = (freshen clock s entry policy request update age).1 in
            (s'.entries ≡ s.entries) × (s'.index ≡ s.index) × (s'.generation ≡ s.generation))
    unfolding freshen detached replace
    freshen-outdated clock s entry policy request update age old =
        let headers = updated_fields entry.response.value.headers update in
        elim (Option-cases (
          storable clock.system policy request entry.response.value.status
            (freshened_map headers age))) [
              | inl e ↦ rw (e, freshen, old) (refl, refl, refl)
              | inr ((p, vary), e) ↦ rw (e, freshen, old) (refl, refl, refl)
            ]
