-- ===== src/Assets/Laws.antt =====
-- Which files are served, and when a stored copy is.
use shadowstep.Prelude.{
  ℕ, ◌≡◌, ◌⊎◌, refl, sym, ap, ◌∙◌, true, List, [], ◌∷◌, ◌++◌, Option, none, some, arith, inl, inr,
  All, if◌then◌else◌, Option-cases, Bool-cases,
}
use shadowstep.Text.{Text, Bytes, split}
use shadowstep.Text.Laws.{eqb_iff}
use shadowstep.Metrics.{hit, miss}
use shadowstep.Cache.Response.{Asset, Arc}
use shadowstep.Cache.Store.{Clock, Caches, Store, asset, insert_asset}
use shadowstep.Assets.{
  Files, Metadata, is_normal, relative_path, starts_with, resolve_asset, read_again, is_unchanged,
  load,
}

-- A path begins with another exactly when a rest can be put behind that.
starts_with-append :
    (path prefix : List Text)
    → starts_with path prefix ≡ true
    → (rest : List Text) × (path ≡ prefix ++ rest)
unfolding starts_with
starts_with-append path [] h = (path, refl)
starts_with-append [] (name ∷ prefix) h = cc
starts_with-append (c ∷ path) (name ∷ prefix) h =
    let (rest, e) = starts_with-append path prefix (ground arith) in
    let same : c ≡ name = ground (arith, eqb_iff c name) in (rest, cc)

relative_path-normal :
    (segments names : List Text)
    → relative_path segments ≡ some names
    → (names ≡ segments) × All (λ s. is_normal s ≡ true) segments
unfolding relative_path
relative_path-normal [] names h = ground arith
relative_path-normal (s ∷ segments) names h = elim (Bool-cases (is_normal s)) [
  | inr odd ↦ cc (rw (odd, relative_path) at h)
  | inl normal ↦ elim (Option-cases (relative_path segments)) [
    | inl e ↦ cc (rw (normal, e, relative_path) at h)
    | inr (more, e) ↦
        let (same, all_normal) = relative_path-normal segments more e in
        let whole : some (s ∷ more) ≡ some names = rw (normal, e, relative_path) at h in
        (cc, (normal, all_normal))
  ]
]

-- A file that is served lies in the directory of assets, wherever symbolic links lead: its
-- canonical path is the directory's and a rest. And it is the file that the request names, of
-- which no segment is empty, `.` or `..`.
pub resolve_asset-inside :
    (files : Files) (requested : Text) (path : List Text)
    → resolve_asset files requested ≡ some path
    → (root : List Text) × (rest : List Text) × (files.root ≡ some root)
      × (files.canonicalize root (split b'/' requested) ≡ some path)
      × (path ≡ root ++ rest)
      × All (λ s. is_normal s ≡ true) (split b'/' requested)
unfolding resolve_asset
resolve_asset-inside files requested path h =
    elim (Option-cases (relative_path (split b'/' requested))) [
      | inl e ↦ cc (rw (e, resolve_asset) at h)
      | inr (relative, e) ↦
          let (same, normal) = relative_path-normal (split b'/' requested) relative e in
          elim (Option-cases files.root) [
            | inl f ↦ cc (rw (e, f, resolve_asset) at h)
            | inr (root, f) ↦ elim (Option-cases (files.canonicalize root relative)) [
              | inl g ↦ cc (rw (e, f, g, resolve_asset) at h)
              | inr (resolved, g) ↦
                  let checked : (if starts_with resolved root then some resolved else none)
                      ≡ some path =
                    rw (e, f, g, resolve_asset) at h in
                  let inside : starts_with resolved root ≡ true = ground arith in
                  let found : resolved ≡ path = ground arith in
                  let (rest, p) = starts_with-append resolved root inside in
                  (root, rest, f, rw (same, found) at g, sym found ∙ p, normal)
            ]
          ]
    ]

module _ ⦃caches : Caches⦄ where
  is_unchanged-same :
      (a : Asset) (m : Metadata)
      → is_unchanged a m ≡ true
      → (a.modified ≡ m.modified) × (a.len ≡ m.len)
  unfolding is_unchanged
  is_unchanged-same a m h = ground arith

  insert_asset-value :
      (clock : Clock) (s : Store) (path : Text) (content : Bytes) (etag : Text) (modified : ℕ)
      → (let v = (insert_asset clock s path content etag modified).0.value in
          (v.content ≡ content) × (v.etag ≡ etag) × (v.modified ≡ modified))
  unfolding insert_asset
  insert_asset-value clock s path content etag modified = ground arith

  read_again-content :
      (clock : Clock) (s s' : Store) (files : Files) (path : List Text) (modified : ℕ)
      (a : Arc Asset) (label : Text)
      → read_again clock s files path modified ≡ (some (a, label), s')
      → (label ≡ miss)
        × (files.read path ≡ some a.value.content)
        × (a.value.etag ≡ files.etag a.value.content)
        × (a.value.modified ≡ modified)
  unfolding read_again
  read_again-content clock s s' files path modified a label h =
      elim (Option-cases (files.read path)) [
        | inl e ↦ cc (rw (e, read_again) at h)
        | inr (content, e) ↦
            let (made, tagged, dated) =
              insert_asset-value clock s (files.path_text path) content (files.etag content)
                modified in
            let put =
              insert_asset clock s (files.path_text path) content (files.etag content) modified in
            let read : ◌≡◌ {A = Option (Arc Asset × Text) × Store} (some (put.0, miss), put.1)
                (some (a, label), s') =
              rw (e, read_again) at h in
            let stored : put.0 ≡ a = cc in
            let same : content ≡ a.value.content = sym made ∙ ap (λ b. b.value.content) stored in
            (
              cc,
              e ∙ ap some same,
              ap (λ b. b.value.etag) (sym stored) ∙ tagged ∙ ap files.etag same,
              ap (λ b. b.value.modified) (sym stored) ∙ dated,
            )
      ]

  -- What `load` gives for a path is either the stored copy, which has the file's length and time of
  -- modification now, and then the store stays as it is; or the content that was read, with the
  -- digest of that and the file's time of modification.
  pub load-current :
      (clock : Clock) (s s' : Store) (files : Files) (path : List Text) (a : Arc Asset)
      (label : Text)
      → load clock s files path ≡ (some (a, label), s')
      → (m : Metadata) × (files.metadata path ≡ some m)
        × (((label ≡ hit)
              × (s' ≡ s)
              × (asset clock s (files.path_text path) ≡ some a)
              × (a.value.modified ≡ m.modified)
              × (a.value.len ≡ m.len))
            ⊎ ((label ≡ miss)
                × (files.read path ≡ some a.value.content)
                × (a.value.etag ≡ files.etag a.value.content)
                × (a.value.modified ≡ m.modified)))
  unfolding load
  load-current clock s s' files path a label h = elim (Option-cases (files.metadata path)) [
    | inl e ↦ cc (rw (e, load) at h)
    | inr (m, e) ↦ elim (Option-cases (asset clock s (files.path_text path))) [
      | inl f ↦
          let (l, r, t, d) =
            read_again-content clock s s' files path m.modified a label (rw (e, f, load) at h) in
          (m, e, inr (l, r, t, d))
      | inr (b, f) ↦ elim (Bool-cases (is_unchanged b.value m)) [
        | inl unchanged ↦
            let served : ◌≡◌ {A = Option (Arc Asset × Text) × Store} (some (b, hit), s)
                (some (a, label), s') =
              rw (e, f, unchanged, load) at h in
            let same : b ≡ a = cc in
            let (dated, sized) = is_unchanged-same b.value m unchanged in
            (
              m,
              e,
              inl (
                cc,
                cc,
                f ∙ ap some same,
                ap (λ c. c.value.modified) (sym same) ∙ dated,
                ap (λ c. c.value.len) (sym same) ∙ sized,
              ),
            )
        | inr changed ↦
            let (l, r, t, d) =
              read_again-content clock s s' files path m.modified a label
                (rw (e, f, changed, load) at h) in
            (m, e, inr (l, r, t, d))
      ]
    ]
  ]
