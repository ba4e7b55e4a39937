-- ===== src/Assets.antt =====
-- src/assets.rs: static files, served through the store. The file system, the digest of a file's
-- content and the guess of its type are outside.
pub mod Laws
pub mod Labels
use shadowstep.Prelude.{
  ℕ, Bool, true, false, ◌&&◌, ◌||◌, not, List, [], ◌∷◌, ◌++◌, Option, none, some, ◌==◌,
  if◌then◌else◌, is_empty, unwrap_or, ◌>>=◌, any, all,
}
use shadowstep.Text.{Text, Bytes, codes, eqb, split}
use shadowstep.Time.{SystemTime}
use shadowstep.Http.{Http, HeaderName, HeaderValue, StatusCode, append_all}
use shadowstep.Prometheus.{Prometheus}
use shadowstep.Metrics.{hit, miss, bypass, Metrics, Route, cache_label, observe}
use shadowstep.Cache.Names
use shadowstep.Cache.Response.{FilePath, Asset, Arc}
use shadowstep.Cache.Store.{Clock, Caches, Store, asset, insert_asset}
use shadowstep.Proxy.Headers.{cache_status}

pub record Metadata : Type 0 where
  pub modified : SystemTime
  pub len : ℕ

-- What the program asks of the file system and of the crates `sha2`, `hex` and `mime_guess`. A
-- path that `canonicalize` gives is a list of names, below the file system's root.
pub record Files : Type 0 where
  -- the canonical path of the directory of assets, and of a path below that
  pub root : Option (List Text)
  pub canonicalize : List Text → List Text → Option (List Text)
  -- the text by which the store knows a path
  pub path_text : List Text → FilePath
  pub metadata : List Text → Option Metadata
  pub read : List Text → Option Bytes
  pub etag : Bytes → Text
  pub content_type : Text → Text

-- `Path::components` of one segment of the request is the one normal component that the segment
-- spells: it is not empty, not `.` and not `..`. (The text was split at `/`.)
unfoldable pub is_normal : Text → Bool
is_normal segment =
    not (is_empty segment) && not (eqb segment (codes ".")) && not (eqb segment (codes ".."))

-- The path below the root, or none for a segment that is not normal.
unfoldable pub relative_path : List Text → Option (List Text)
unfolding is_normal
relative_path [] = some []
relative_path (segment ∷ segments) =
    let rest = relative_path segments >>= λ names. some (segment ∷ names) in
    if is_normal segment then rest else none

-- `starts_with`, component by component.
unfoldable pub starts_with : List Text → List Text → Bool
starts_with path [] = true
starts_with [] (name ∷ prefix) = false
starts_with (c ∷ path) (name ∷ prefix) = eqb c name && starts_with path prefix

unfoldable pub resolve_asset : Files → Text → Option (List Text)
unfolding relative_path starts_with
resolve_asset files requested = relative_path (split b'/' requested) >>= λ relative.
    files.root >>= λ root. files.canonicalize root relative >>= λ resolved.
    if starts_with resolved root then some resolved else none

module _ ⦃caches : Caches⦄ where
  -- The file is read again when the stored copy is not of the file's length and time.
  unfoldable pub read_again :
      Clock → Store → Files → List Text → SystemTime → Option (Arc Asset × Text) × Store
  read_again clock s files path modified = elim (files.read path) [
    | none ↦ (none, s)
    | some content ↦
        let (a, s') =
          insert_asset clock s (files.path_text path) content (files.etag content) modified in
        (some (a, miss), s')
  ]

  unfoldable pub is_unchanged : Asset → Metadata → Bool
  is_unchanged a metadata = a.modified == metadata.modified && a.len == metadata.len

  unfoldable pub load : Clock → Store → Files → List Text → Option (Arc Asset × Text) × Store
  unfolding read_again is_unchanged
  load clock s files path = elim (files.metadata path) [
    | none ↦ (none, s)
    | some metadata ↦ elim (asset clock s (files.path_text path)) [
      | none ↦ read_again clock s files path metadata.modified
      | some a ↦
          if is_unchanged a.value metadata
          then (some (a, hit), s)
          else read_again clock s files path metadata.modified
    ]
  ]

  pub record Reply : Type 0 where
    pub status : StatusCode
    pub fields : List (HeaderName × HeaderValue)
    pub body : Bytes

  abbrev pub not_found : Reply
  not_found = record { status = 404; fields = []; body = codes "not found" }

  module _ ⦃http : Http⦄ where
    unfoldable pub is_not_modified : http.HeaderMap → Asset → Bool
    is_not_modified headers a = elim (http.get headers Names.if_none_match >>= λ v. http.to_str v) [
      | none ↦ false
      | some v ↦ eqb v a.etag
    ]

    unfoldable pub found_reply : Files → http.HeaderMap → Text → Asset → Text → Reply
    unfolding is_not_modified
    found_reply files headers filename a status =
        if is_not_modified headers a
        then record {
          status = 304;
          fields = (codes "etag", a.etag) ∷ (cache_status, status) ∷ [];
          body = [];
        }
        else record {
          status = 200;
          fields =
              (codes "etag", a.etag)
              ∷ (codes "cache-control", codes "public, max-age=86400")
              ∷ (cache_status, status)
              ∷ (codes "content-type", files.content_type filename)
              ∷ [];
          body = a.content;
        }

    unfoldable pub asset_response : Clock → Store → Files → http.HeaderMap → Text → Reply × Store
    unfolding found_reply
    asset_response clock s files headers filename = elim (resolve_asset files filename) [
      | none ↦ (not_found, s)
      | some path ↦
          let (loaded, s') = load clock s files path in
          elim loaded [
            | none ↦ (not_found, s')
            | some (a, status) ↦ (found_reply files headers filename a.value status, s')
          ]
    ]

    -- The label that an asset request counts under.
    unfoldable pub asset_label : Reply → Text
    asset_label reply = unwrap_or (cache_label (append_all http.new reply.fields)) bypass

    module _ ⦃prometheus : Prometheus⦄ where
      unfoldable pub serve_asset :
          Clock → Store → Metrics → Files → http.HeaderMap → Text → Reply × Store × Metrics
      unfolding asset_response asset_label
      serve_asset clock s m files headers filename =
          let (reply, s') = asset_response clock s files headers filename in
          (reply, s', observe m Route.asset (asset_label reply) reply.status)
