-- ===== src/Tests/Filing.antt =====
-- Tests of the assets.
use shadowstep.Prelude.{◌≡◌, ◌⊎◌, refl, true, List, [], ◌∷◌, ◌++◌, none, some, All}
use shadowstep.Text.{Text, codes, eqb, split}
use shadowstep.Time.{from_secs}
use shadowstep.Metrics.{hit, miss, Route, observe}
use shadowstep.Metrics
use shadowstep.Cache.Response.{Asset, Arc}
use shadowstep.Cache.Store.{Store, new, asset, insert_asset}
use shadowstep.Assets.{Files, Metadata, is_normal, resolve_asset, load, serve_asset}
use shadowstep.Assets.Labels.{Labelled, serve_asset-Labelled}
use shadowstep.Assets.Laws.{resolve_asset-inside, load-current}
use shadowstep.Tests.Fixtures.{timed_caches, listed_http, tallied_prometheus, at}

-- A directory `/srv` whose files all hold the same text.
abbrev files : Files
files = record {
  root = some (codes "srv" ∷ []);
  canonicalize = λ root names. some (root ++ names);
  path_text = λ names. codes "srv";
  metadata = λ path. some (record { modified = 7; len = 2 });
  read = λ path. some (codes "hi");
  etag = λ content. codes "tag";
  content_type = λ filename. codes "text/css";
}

abbrev path : List Text
path = codes "srv" ∷ codes "css" ∷ codes "a.css" ∷ []

found : resolve_asset files (codes "css/a.css") ≡ some path
unfolding resolve_asset split eqb
found = refl

-- A request that climbs is refused.
climbs : resolve_asset files (codes "../a.css") ≡ none
unfolding resolve_asset split eqb
climbs = refl

resolve_asset-inside_example :
    (root : List Text) × (rest : List Text) × (files.root ≡ some root)
    × (files.canonicalize root (split b'/' (codes "css/a.css")) ≡ some path)
    × (path ≡ root ++ rest)
    × All (λ s. is_normal s ≡ true) (split b'/' (codes "css/a.css"))
resolve_asset-inside_example = resolve_asset-inside files (codes "css/a.css") path found

abbrev empty : Store
empty = new 4 (from_secs 300)

abbrev read : Arc Asset × Store
read = insert_asset (at 10) empty (codes "srv") (codes "hi") (codes "tag") 7

loaded : load (at 10) empty files path ≡ (some (read.0, miss), read.1)
unfolding load asset new
loaded = refl

load-current_example :
    (m : Metadata) × (files.metadata path ≡ some m)
    × (((miss ≡ hit)
          × (read.1 ≡ empty)
          × (asset (at 10) empty (files.path_text path) ≡ some read.0)
          × (read.0.value.modified ≡ m.modified)
          × (read.0.value.len ≡ m.len))
        ⊎ ((miss ≡ miss)
            × (files.read path ≡ some read.0.value.content)
            × (read.0.value.etag ≡ files.etag read.0.value.content)
            × (read.0.value.modified ≡ m.modified)))
load-current_example = load-current (at 10) empty read.1 files path read.0 miss loaded

serve_asset-Labelled_example :
    (label : Text) × ((serve_asset (at 10) empty Metrics.new files [] (codes "css/a.css")).2
      ≡ observe Metrics.new Route.asset label
          (serve_asset (at 10) empty Metrics.new files [] (codes "css/a.css")).0.status)
    × Labelled
        (at 10)
        empty
        files
        []
        (codes "css/a.css")
        (serve_asset (at 10) empty Metrics.new files [] (codes "css/a.css")).0
        (serve_asset (at 10) empty Metrics.new files [] (codes "css/a.css")).1
        label
serve_asset-Labelled_example =
    serve_asset-Labelled (at 10) empty Metrics.new files [] (codes "css/a.css")
