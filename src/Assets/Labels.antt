-- ===== src/Assets/Labels.antt =====
-- The label that an asset request counts under.
use shadowstep.Prelude.{
  ◌≡◌, ◌⊎◌, inl, inr, refl, subst, sym, ◌∙◌, ap, List, [], ◌∷◌, ◌++◌, some, none, arith, find,
  Bool-cases, Option-cases,
}
use shadowstep.Text.{Text, eqb}
use shadowstep.Http.{Http, append_all, HeaderValue}
use shadowstep.Http.Fields.{values_in, get_all-append_all}
use shadowstep.Prometheus.{Prometheus}
use shadowstep.Metrics.{hit, miss, bypass, Metrics, Route, cache_label, cache_labels, observe}
use shadowstep.Cache.Response.{Asset, Arc}
use shadowstep.Cache.Store.{Clock, Caches, Store}
use shadowstep.Proxy.Headers.{cache_status}
use shadowstep.Assets.{
  Files, Reply, resolve_asset, load, read_again, is_unchanged, not_found, is_not_modified,
  found_reply, asset_response, asset_label, serve_asset,
}
use shadowstep.Assets.Laws.{load-current}

module _ ⦃http : Http⦄ ⦃caches : Caches⦄ where
  status_fields :
      (files : Files) (headers : http.HeaderMap) (filename : Text) (a : Asset) (status : Text)
      → values_in (found_reply files headers filename a status).fields cache_status ≡ status ∷ []
  unfolding found_reply eqb
  status_fields files headers filename a status = elim (Bool-cases (is_not_modified headers a)) [
    | inl e ↦ rw (e, found_reply) refl
    | inr e ↦ rw (e, found_reply) refl
  ]

  cache_label-fields :
      (reply : Reply) (values : List HeaderValue)
      → values_in reply.fields cache_status ≡ values
      → http.get_all (append_all http.new reply.fields) cache_status ≡ values
  cache_label-fields reply values e =
      get_all-append_all http.new reply.fields cache_status
      ∙ ap (λ vs. vs ++ values_in reply.fields cache_status) (http.get_all-new cache_status)
      ∙ e

  asset_label-found :
      (reply : Reply) (status : Text)
      → values_in reply.fields cache_status ≡ status ∷ []
      → find (λ l. eqb status l) cache_labels ≡ some status
      → asset_label reply ≡ status
  unfolding asset_label cache_label
  asset_label-found reply status e h =
      rw
        (
          asset_label,
          cache_label,
          http.get_lem (append_all http.new reply.fields) cache_status,
          cache_label-fields reply (status ∷ []) e,
          h,
        )
        refl

  asset_label-not_found : asset_label not_found ≡ bypass
  unfolding asset_label cache_label
  asset_label-not_found =
      rw
        (
          asset_label,
          cache_label,
          http.get_lem (append_all http.new not_found.fields) cache_status,
          cache_label-fields not_found [] refl,
        )
        refl

  -- No file was found: the name resolves to none, or the file's metadata or content cannot be read.
  abbrev pub Missing : Files → Text → Type 0
  Missing files filename =
      (resolve_asset files filename ≡ none)
      ⊎ ((path : List Text) × (resolve_asset files filename ≡ some path)
          × ((files.metadata path ≡ none) ⊎ (files.read path ≡ none)))

  load-none :
      (clock : Clock) (s : Store) (files : Files) (path : List Text)
      → (load clock s files path).0 ≡ none
      → (files.metadata path ≡ none) ⊎ (files.read path ≡ none)
  unfolding load read_again is_unchanged
  load-none clock s files path h = elim (Option-cases (files.metadata path)) [
    | inl e ↦ inl e
    | inr (m, e) ↦ elim (Option-cases (files.read path)) [
      | inl f ↦ inr f
      | inr (content, f) ↦ ground arith
    ]
  ]

  -- What a label says of the reply to an asset request, and of the store after it.
  abbrev pub Labelled :
      Clock → Store → Files → http.HeaderMap → Text → Reply → Store → Text → Type 0
  Labelled clock s files headers filename reply s' label =
      ((label ≡ bypass) × (reply ≡ not_found) × Missing files filename)
      ⊎ ((path : List Text) × (a : Arc Asset) × ((label ≡ hit) ⊎ (label ≡ miss))
          × (resolve_asset files filename ≡ some path)
          × (load clock s files path ≡ (some (a, label), s'))
          × (reply ≡ found_reply files headers filename a.value label))

  loaded-label :
      (clock : Clock) (s s' : Store) (files : Files) (path : List Text) (a : Arc Asset)
      (label : Text)
      → load clock s files path ≡ (some (a, label), s')
      → (label ≡ hit) ⊎ (label ≡ miss)
  loaded-label clock s s' files path a label h =
      let (m, e, which) = load-current clock s s' files path a label h in
      elim which [ inl (is_hit, _, _, _, _) ↦ inl is_hit | inr (is_miss, _, _, _) ↦ inr is_miss ]

  known-label :
      (label : Text)
      → (label ≡ hit) ⊎ (label ≡ miss)
      → find (λ l. eqb label l) cache_labels ≡ some label
  unfolding eqb
  known-label label (inl e) = rw e refl
  known-label label (inr e) = rw e refl

  asset_response-Labelled :
      (clock : Clock) (s : Store) (files : Files) (headers : http.HeaderMap) (filename : Text)
      → Labelled clock s files headers filename
          (asset_response clock s files headers filename).0
          (asset_response clock s files headers filename).1
          (asset_label (asset_response clock s files headers filename).0)
  unfolding asset_response
  asset_response-Labelled clock s files headers filename =
      elim (Option-cases (resolve_asset files filename)) [
        | inl e ↦
            let missing : Missing files filename = inl e in
            rw (e, asset_response) (inl (asset_label-not_found, refl, rw e at missing))
        | inr (path, e) ↦ elim (Option-cases (load clock s files path).0) [
          | inl f ↦
              let why = load-none clock s files path f in
              rw (e, f, asset_response) (inl (asset_label-not_found, refl, inr (path, refl, why)))
          | inr ((a, label), f) ↦
              let s' = (load clock s files path).1 in
              let loaded : load clock s files path ≡ (some (a, label), s') = ap (λ o. (o, s')) f in
              let which = loaded-label clock s s' files path a label loaded in
              let reply = found_reply files headers filename a.value label in
              let counted : asset_label reply ≡ label =
                asset_label-found reply label (status_fields files headers filename a.value label)
                  (known-label label which) in
              let answered : asset_response clock s files headers filename ≡ (reply, s') =
                rw (e, f, asset_response) refl in
              subst
                (λ (q : Reply × Store).
                  Labelled clock s files headers filename q.0 q.1 (asset_label q.0))
                (sym answered)
                (subst (Labelled clock s files headers filename reply s') (sym counted)
                  (inr (path, a, which, e, loaded, refl)))
        ]
      ]

  module _ ⦃prometheus : Prometheus⦄ where
    -- Each asset request counts once, with the status of its reply: as `HIT` or `MISS` when a file
    -- was found inside the directory, as the store had it or it was read, and as `BYPASS` when no
    -- file was found, where the client gets a 404.
    pub serve_asset-Labelled :
        (clock : Clock) (s : Store) (m : Metrics) (files : Files) (headers : http.HeaderMap)
        (filename : Text)
        → (label : Text) × ((serve_asset clock s m files headers filename).2
            ≡ observe m Route.asset label (serve_asset clock s m files headers filename).0.status)
          × Labelled clock s files headers filename
              (serve_asset clock s m files headers filename).0
              (serve_asset clock s m files headers filename).1
              label
    unfolding serve_asset
    serve_asset-Labelled clock s m files headers filename = (
      asset_label (asset_response clock s files headers filename).0,
      refl,
      asset_response-Labelled clock s files headers filename,
    )
