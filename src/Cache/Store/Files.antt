-- ===== src/Cache/Store/Files.antt =====
-- What `insert_asset` leaves of the store's responses: all of them, unless they are dropped.
use shadowstep.Prelude.{◌≡◌, ◌⊎◌, inl, inr, refl, some, length, arith, Bool-cases, ◌&&◌, leb}
use shadowstep.Text.{Text, Bytes}
use shadowstep.Time.{Instant, SystemTime}
use shadowstep.Cache.Response.{FilePath, ResponseKey, Key, StoredResponse, Arc, Asset, Entry}
use shadowstep.Cache.Store.Defs.{Clock, Caches, Store, insert_asset, enabled}

module _ ⦃caches : Caches⦄ where
  open caches use {entries as E, index as I}

  pub index-insert_asset :
      (clock : Clock) (s : Store) (path : FilePath) (content : Bytes) (etag : Text)
      (modified : SystemTime)
      → ((insert_asset clock s path content etag modified).1.index ≡ s.index)
        × ((insert_asset clock s path content etag modified).1.generation ≡ s.generation)
  unfolding insert_asset
  index-insert_asset clock s path content etag modified = (ground arith, ground arith)

  entries-insert_asset :
      (clock : Clock) (s : Store) (path : FilePath) (content : Bytes) (etag : Text)
      (modified : SystemTime)
      → ((insert_asset clock s path content etag modified).1.entries ≡ s.entries)
        ⊎ ((a : Arc Asset) × ((insert_asset clock s path content etag modified).1.entries
              ≡ E.run_pending_tasks clock.instant
                  (E.insert clock.instant s.entries (Key.asset path) (Entry.asset a))))
  unfolding insert_asset
  entries-insert_asset clock s path content etag modified =
      elim (Bool-cases (enabled s && leb (length content) s.max_entry)) [
        | inl taken ↦ inr (
          record {
            address = s.next_address;
            value = record {
              content = content;
              etag = etag;
              modified = modified;
              len = length content;
              ttl = s.ttl;
            };
          },
          rw (taken, insert_asset) refl,
        )
        | inr refused ↦ inl (rw (refused, insert_asset) refl)
      ]

  pub responses-insert_asset :
      (clock : Clock) (s : Store) (path : FilePath) (content : Bytes) (etag : Text)
      (modified : SystemTime) (now : Instant) (k : ResponseKey) (r : Arc StoredResponse)
      → E.get now (insert_asset clock s path content etag modified).1.entries (Key.response k)
        ≡ some (Entry.response r)
      → E.get now s.entries (Key.response k) ≡ some (Entry.response r)
  responses-insert_asset clock s path content etag modified now k r h =
      elim (entries-insert_asset clock s path content etag modified) [
        | inl same ↦ rw same at h
        | inr (a, more) ↦ ground (
          arith,
          E.get-insert clock.instant now s.entries (Key.asset path) (Entry.asset a) (Key.response k)
              (Entry.response r)
              (E.get-run_pending_tasks clock.instant now _ (Key.response k) _ (rw more at h)),
        )
      ]
