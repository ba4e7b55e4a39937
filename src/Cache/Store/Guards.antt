-- ===== src/Cache/Store/Guards.antt =====
-- The guards of background refreshes, from the methods of `Store` that start and end them.
use shadowstep.Prelude.{
  ℕ, ◌≡◌, ◌≢◌, ◌⊎◌, inl, inr, refl, sym, ◌∙◌, ap, subst, true, List, [], ◌∷◌, ◌++◌, Option, none,
  some, arith, In, In-middle, In-append_right, In-without, Bool-cases,
}
use shadowstep.Text.{Text, Bytes}
use shadowstep.Time.{Duration, SystemTime}
use shadowstep.Http.{Http, HeaderValue, StatusCode}
use shadowstep.Cache.Policy.{RequestPolicy}
use shadowstep.Cache.Storable.{Storable}
use shadowstep.Cache.Vary.{Vary}
use shadowstep.Cache.Response.{FilePath, PrimaryKey, ResponseKey, Fields}
use shadowstep.Cache.Store.Defs.{
  Clock, Caches, Store, StaleEntry, contains_key, remove_key, new, insert_asset,
}
use shadowstep.Cache.Store.Writes.{
  start_refresh, drop_refresh, insert_response, freshen, replace, detached, invalidate,
}

contains_key-In :
    (keys : List ResponseKey) (key : ResponseKey) → contains_key keys key ≡ true → In key keys
unfolding contains_key
contains_key-In [] key h = cc
contains_key-In (k ∷ keys) key h = ground (arith, contains_key-In keys key)

In-contains_key :
    (keys : List ResponseKey) (key : ResponseKey) → In key keys → contains_key keys key ≡ true
unfolding contains_key
In-contains_key [] key m = absurd m
In-contains_key (k ∷ keys) key (inl e) = ground arith
In-contains_key (k ∷ keys) key (inr m) = ground (arith, In-contains_key keys key m)

In-remove_key :
    (keys : List ResponseKey) (gone key : ResponseKey)
    → In key (remove_key keys gone)
    → In key keys × (key ≢ gone)
unfolding remove_key
In-remove_key [] gone key m = absurd m
In-remove_key (k ∷ keys) gone key m = ground (arith, In-remove_key keys gone key)

remove_key-In :
    (keys : List ResponseKey) (gone key : ResponseKey)
    → In key keys
    → key ≢ gone
    → In key (remove_key keys gone)
unfolding remove_key
remove_key-In [] gone key m other = absurd m
remove_key-In (k ∷ keys) gone key (inl e) other = ground arith
remove_key-In (k ∷ keys) gone key (inr m) other =
    ground (arith, remove_key-In keys gone key m other)

-- No key stands twice in the list.
abbrev pub Distinct : List ResponseKey → Type 0
Distinct [] = Unit
Distinct (key ∷ keys) = (¬ In key keys) × Distinct keys

Distinct-middle :
    (before after : List ResponseKey) (key : ResponseKey)
    → Distinct (before ++ key ∷ after)
    → (¬ In key (before ++ after)) × Distinct (before ++ after)
Distinct-middle [] after key d = d
Distinct-middle (k ∷ before) after key (apart, d) =
    let (absent, rest) = Distinct-middle before after key d in
    (
      λ m. elim m [
        | inl e ↦ apart (In-append_right k before (key ∷ after) (inl (sym e)))
        | inr there ↦ absent there
      ],
      ((λ m. apart (In-without k key before after m)), rest),
    )

module _ ⦃caches : Caches⦄ where
  open caches use {entries as E, index as I}

  module _ ⦃http : Http⦄ where
    -- Stores, with the keys of the guards that are held: a start that gives a guard adds its key,
    -- and the drop of a held guard takes it out. Any other calls may come between them.
    pub data Guarded : Store → List ResponseKey → Type 1 where
      opened : (size_mb : ℕ) (ttl : Duration) → Guarded (new size_mb ttl) []
      began :
          {s s' : Store} {held : List ResponseKey} (entry : StaleEntry) (key : ResponseKey)
          → start_refresh s entry ≡ (some key, s')
          → Guarded s held
          → Guarded s' (key ∷ held)
      ended :
          {s : Store} (before after : List ResponseKey) (key : ResponseKey)
          → Guarded s (before ++ key ∷ after)
          → Guarded (drop_refresh s key) (before ++ after)
      inserted :
          {s : Store} {held : List ResponseKey} (clock : Clock) (primary : PrimaryKey) (vary : Vary)
          (policy : Storable) (status : StatusCode) (headers : Fields) (body : Bytes)
          → Guarded s held
          → Guarded (insert_response clock s primary vary policy status headers body).1 held
      freshened :
          {s : Store} {held : List ResponseKey} (clock : Clock) (entry : StaleEntry)
          (policy : RequestPolicy) (request : http.HeaderMap) (update : Fields)
          (age : Option HeaderValue)
          → Guarded s held
          → Guarded (freshen clock s entry policy request update age).1 held
      invalidated :
          {s : Store} {held : List ResponseKey} (primary : PrimaryKey)
          → Guarded s held
          → Guarded (invalidate s primary) held
      asset_inserted :
          {s : Store} {held : List ResponseKey} (clock : Clock) (path : FilePath) (content : Bytes)
          (etag : Text) (modified : SystemTime)
          → Guarded s held
          → Guarded (insert_asset clock s path content etag modified).1 held
      evicted :
          {s : Store} {held : List ResponseKey} (entries : E.Cache) (index : I.Cache)
          → Guarded s held
          → Guarded (record s { entries = entries; index = index }) held

    -- The store's set has the keys of the held guards, and no two of them have one key.
    record Inv (s : Store) (held : List ResponseKey) : Type 0 where
      held_known : (key : ResponseKey) → In key held → In key s.refreshing
      known_held : (key : ResponseKey) → In key s.refreshing → In key held
      distinct : Distinct held

    refreshing-insert_response :
        (clock : Clock) (s : Store) (primary : PrimaryKey) (vary : Vary) (policy : Storable)
        (status : StatusCode) (headers : Fields) (body : Bytes)
        → (insert_response clock s primary vary policy status headers body).1.refreshing
          ≡ s.refreshing
    unfolding insert_response
    refreshing-insert_response clock s primary vary policy status headers body = ground arith

    refreshing-insert_asset :
        (clock : Clock) (s : Store) (path : FilePath) (content : Bytes) (etag : Text)
        (modified : SystemTime)
        → (insert_asset clock s path content etag modified).1.refreshing ≡ s.refreshing
    unfolding insert_asset
    refreshing-insert_asset clock s path content etag modified = ground arith

    refreshing-freshen :
        (clock : Clock) (s : Store) (entry : StaleEntry) (policy : RequestPolicy)
        (request : http.HeaderMap) (update : Fields) (age : Option HeaderValue)
        → (freshen clock s entry policy request update age).1.refreshing ≡ s.refreshing
    unfolding freshen detached replace insert_response
    refreshing-freshen clock s entry policy request update age = ground arith

    same-Inv :
        (s s' : Store) (held : List ResponseKey)
        → s'.refreshing ≡ s.refreshing
        → Inv s held
        → Inv s' held
    same-Inv s s' held e v = record {
      held_known = λ key m. rw e (v.held_known key m);
      known_held = λ key m. v.known_held key (rw e at m);
      distinct = v.distinct;
    }

    pub start_refresh-cases :
        (s : Store) (entry : StaleEntry)
        → (In entry.key s.refreshing × (start_refresh s entry ≡ (none, s)))
          ⊎ ((¬ In entry.key s.refreshing)
              × (start_refresh s entry
                  ≡ (some entry.key, record s { refreshing = entry.key ∷ s.refreshing })))
    unfolding start_refresh
    start_refresh-cases s entry = elim (Bool-cases (contains_key s.refreshing entry.key)) [
      | inl e ↦ inl (contains_key-In s.refreshing entry.key e, rw (e, start_refresh) refl)
      | inr e ↦
          inr ((λ m. cc (e, In-contains_key s.refreshing entry.key m)), rw (e, start_refresh) refl)
    ]

    began-Inv :
        (s s' : Store) (held : List ResponseKey) (entry : StaleEntry) (key : ResponseKey)
        → start_refresh s entry ≡ (some key, s')
        → Inv s held
        → Inv s' (key ∷ held)
    began-Inv s s' held entry key h v = elim (start_refresh-cases s entry) [
      | inl (there, e) ↦ cc
      | inr (absent, e) ↦
          let same : key ≡ entry.key = cc in
          let added : s'.refreshing ≡ key ∷ s.refreshing =
            ap (λ (p : Option ResponseKey × Store). p.1.refreshing) (sym h ∙ e)
            ∙ ap (λ k. k ∷ s.refreshing) (sym same) in
          record {
            held_known = λ k m.
                rw added (elim m [ inl here ↦ inl here | inr there ↦ inr (v.held_known k there) ]);
            known_held = λ k m. elim (rw added at m) [
              | inl here ↦ inl here
              | inr there ↦ inr (v.known_held k there)
            ];
            distinct = (λ m. absent (v.held_known entry.key (rw same at m)), v.distinct);
          }
    ]

    ended-Inv :
        (s : Store) (before after : List ResponseKey) (key : ResponseKey)
        → Inv s (before ++ key ∷ after)
        → Inv (drop_refresh s key) (before ++ after)
    unfolding drop_refresh
    ended-Inv s before after key v =
        let (absent, rest) = Distinct-middle before after key v.distinct in
        record {
          held_known = λ k m.
              remove_key-In s.refreshing key k (v.held_known k (In-without k key before after m))
                (λ e. absent (subst (λ q. In q (before ++ after)) e m));
          known_held = λ k m.
              let (there, other) = In-remove_key s.refreshing key k m in
              elim (In-middle k key before after (v.known_held k there)) [
                | inl e ↦ absurd (other e)
                | inr kept ↦ kept
              ];
          distinct = rest;
        }

    Guarded-Inv : {s : Store} {held : List ResponseKey} → Guarded s held → Inv s held
    unfolding new invalidate
    Guarded-Inv (opened size_mb ttl) = record {
      held_known = λ key m. absurd m;
      known_held = λ key m. absurd m;
      distinct = tt;
    }
    Guarded-Inv (began {s} {s'} {held} entry key h g) =
        began-Inv s s' held entry key h (Guarded-Inv g)
    Guarded-Inv (ended {s} before after key g) = ended-Inv s before after key (Guarded-Inv g)
    Guarded-Inv (inserted {s} {held} clock primary vary policy status headers body g) =
        same-Inv s _ held
          (refreshing-insert_response clock s primary vary policy status headers body)
          (Guarded-Inv g)
    Guarded-Inv (freshened {s} {held} clock entry policy request update age g) =
        same-Inv s _ held (refreshing-freshen clock s entry policy request update age)
          (Guarded-Inv g)
    Guarded-Inv (invalidated {s} {held} primary g) = same-Inv s _ held refl (Guarded-Inv g)
    Guarded-Inv (asset_inserted {s} {held} clock path content etag modified g) =
        same-Inv s _ held (refreshing-insert_asset clock s path content etag modified)
          (Guarded-Inv g)
    Guarded-Inv (evicted {s} {held} entries index g) = same-Inv s _ held refl (Guarded-Inv g)

    -- Along any starts and drops of refreshes and other calls of the store, no two guards for one
    -- key are held. While the guard for an entry's key is held, a start gives no other and changes
    -- nothing; while none is held, a start gives one.
    pub start_refresh-once :
        (s : Store) (held : List ResponseKey) (entry : StaleEntry)
        → Guarded s held
        → Distinct held
          × ((In entry.key held × (start_refresh s entry ≡ (none, s)))
              ⊎ ((¬ In entry.key held) × ((start_refresh s entry).0 ≡ some entry.key)))
    start_refresh-once s held entry g =
        let v = Guarded-Inv g in
        (
          v.distinct,
          elim (start_refresh-cases s entry) [
            | inl (there, e) ↦ inl (v.known_held entry.key there, e)
            | inr (absent, e) ↦ inr (
              (λ m. absent (v.held_known entry.key m)),
              ap (λ (p : Option ResponseKey × Store). p.0) e,
            )
          ],
        )
