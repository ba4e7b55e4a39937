-- ===== src/Cache/Store/Races/Sound.antt =====
-- No variant answers another's request, however the calls interleave.
use shadowstep.Prelude.{
  ◌<◌, ◌≡◌, refl, subst, sym, ◌∙◌, ap, List, ◌∷◌, Option, some, arith, length, In,
}
use shadowstep.Run.{done}
use shadowstep.Text.{Text, Bytes}
use shadowstep.Time.{Duration, SystemTime}
use shadowstep.Http.{Http, HeaderName}
use shadowstep.Cache.Vary.{vary_values}
use shadowstep.Cache.Response.{FilePath, PrimaryKey, Index}
use shadowstep.Cache.Store.Defs.{Clock, Caches, Store, Lookup, lookup_key, insert_asset, u64_mod}
use shadowstep.Cache.Store.Ledger.{Insertion}
use shadowstep.Cache.Store.Files.{index-insert_asset, responses-insert_asset}
use shadowstep.Cache.Store.Variants.{found, lookup_entry-found}
use shadowstep.Cache.Store.Steps.{number, find_variant}
use shadowstep.Cache.Store.Races.{
  Naming, Racing, opened, looked, numbered, indexed, entered, invalidated, lost,
}
use shadowstep.Cache.Store.Races.Numbers.{Sound, number-Fresh, numbered-Sound}
use shadowstep.Cache.Store.Races.Calls.{
  looked-Sound, indexed-Sound, entered-Sound, lost-Sound, invalidated-Sound, new-Sound,
}

module _ ⦃caches : Caches⦄ where
  open caches use {entries as E, index as I}

  number-rest :
      (s : Store) (peeked : Option Index) (names : List HeaderName)
      → (number s peeked names).1 ≡ record s { generation = (number s peeked names).1.generation }
  unfolding number
  number-rest s peeked names = refl

  Racing-Sound :
      {s : Store} {seen : List (PrimaryKey × Index)} {named : List Naming}
      {history : List Insertion}
      → Racing s seen named history
      → length named < u64_mod
      → Sound s seen named history
  Racing-Sound (opened size_mb ttl) room = new-Sound size_mb ttl
  Racing-Sound (looked {s} {seen} {named} {history} clock primary x h r) room =
      looked-Sound clock s seen named history primary x h (Racing-Sound r room)
  Racing-Sound (numbered {s} {seen} {named} {history} primary peeked names l r) room =
      let v = Racing-Sound r (omega arith) in
      subst
        (λ t.
          Sound t seen
            (record { primary = primary; generation = (number s peeked names).0; names = names }
              ∷ named)
            history)
        (sym (number-rest s peeked names))
        (numbered-Sound s seen named history primary names (number s peeked names).0
          (number s peeked names).1.generation v
          (number-Fresh s seen named history primary peeked names v room l))
  Racing-Sound (indexed {s} {seen} {named} {history} clock n i r) room =
      indexed-Sound clock s seen named history n i (Racing-Sound r room)
  Racing-Sound (entered {s} {seen} {named} {history} clock n values policy status headers body i r)
        room =
      entered-Sound clock s seen named history n values policy status headers body i
        (Racing-Sound r room)
  Racing-Sound (invalidated {s} {seen} {named} {history} primary r) room =
      invalidated-Sound s seen named history primary (Racing-Sound r room)
  Racing-Sound (lost {s} {s'} {seen} {named} {history} g fewer_entries fewer_index r) room =
      lost-Sound s s' seen named history g fewer_entries fewer_index (Racing-Sound r room)

  -- The insertion of an asset may come among the calls.
  insert_asset-Racing :
      {s : Store} {seen : List (PrimaryKey × Index)} {named : List Naming}
      {history : List Insertion} (clock : Clock) (path : FilePath) (content : Bytes) (etag : Text)
      (modified : SystemTime)
      → Racing s seen named history
      → Racing (insert_asset clock s path content etag modified).1 seen named history
  insert_asset-Racing {s} clock path content etag modified r =
      let (index, generation) = index-insert_asset clock s path content etag modified in
      lost generation (responses-insert_asset clock s path content etag modified)
        (λ now p x h. rw index at h) r

  -- When the calls within several `insert_response` and lookups come in any order, with calls of
  -- `invalidate`, assets that are stored and entries that vanish among them and fewer than 2^64
  -- numbers taken: a response that a lookup finds, with what its look at the index had found at any
  -- time before, was inserted for the same URI, and for the request's values of the fields that its
  -- `Vary` names. No such race lets a variant answer another's request.
  pub find_variant-Selected_racing :
      ⦃http : Http⦄ (clock : Clock) (s : Store) (seen : List (PrimaryKey × Index))
      (named : List Naming) (history : List Insertion) (primary : PrimaryKey) (x : Index)
      (request : http.HeaderMap) (max_age : Option Duration) (l : Lookup)
      → Racing s seen named history
      → length named < u64_mod
      → In (primary, x) seen
      → find_variant clock s primary x request max_age ≡ done (some l)
      → (i : Insertion) × In i history
        × (i.primary ≡ primary)
        × (i.response ≡ found l)
        × (i.values ≡ vary_values i.names request)
  unfolding lookup_key find_variant
  find_variant-Selected_racing clock s seen named history primary x request max_age l r room saw h =
      let v = Racing-Sound r room in
      let key = lookup_key primary x (vary_values x.vary request) in
      let (n, mn, gn, pn, en) = v.seen_known primary x saw in
      let (i, mi, pi, gi, vi, ri) =
        v.entry_known clock.instant key (found l) (lookup_entry-found clock key _ max_age l h) in
      let (m, mm, gm, pm, em) = v.history_known i mi in
      let (_, same) = v.one_meaning n m mn mm (gn ∙ sym gi ∙ sym gm) in
      (i, mi, pi, ri, vi ∙ ap (λ names. vary_values names request) (sym en ∙ same ∙ em))
