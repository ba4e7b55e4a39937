-- ===== src/Proxy/Headers/Laws.antt =====
-- What the fields are that reach the origin and the client.
use shadowstep.Prelude.{
  ◌≡◌, ◌≢◌, ◌⊎◌, ◌↔◌, ◌∙◌, sym, ap, refl, Bool, true, false, ◌&&◌, not, List, [], ◌∷◌, ◌++◌, map,
  Option, some, none, arith, retain, In, inl, inr, is_empty, Option-cases, In-append_left,
  In-append_right,
}
use shadowstep.Text.{Text, codes, eqb, split, trim, to_ascii_lowercase}
use shadowstep.Text.Laws.{eqb_iff}
use shadowstep.Http.{Http, HeaderName, HeaderValue, StatusCode, append_all}
use shadowstep.Forwarded.{Request, ClientInfo, client_forwarding_headers, url_override_headers}
use shadowstep.Cache.Response.{Fields}
use shadowstep.Proxy.Headers.{
  cache_status, hop_by_hop, contains, is_end_to_end, Upstream, upstream_host, Builder,
  connection_options, tokens, Head, from_upstream, forwardable_fields, passes, own_fields,
  upstream_request, stored_fields,
}

-- Every field that a filter keeps passes it and was there before.
In-retain :
    (keep : HeaderName × HeaderValue → Bool) (fields : Fields) (f : HeaderName × HeaderValue)
    → In f (retain keep fields)
    → (keep f ≡ true) × In f fields
In-retain keep [] f h = absurd h
In-retain keep (g ∷ fields) f h = ground (arith, In-retain keep fields f)

In-append_cases : (a b : Fields) (f : HeaderName × HeaderValue) → In f (a ++ b) → In f a ⊎ In f b
In-append_cases [] b f h = inr h
In-append_cases (g ∷ a) b f (inl e) = inl (inl e)
In-append_cases (g ∷ a) b f (inr m) = ground (arith, In-append_cases a b f m)

In-retain_kept :
    (keep : Text → Bool) (texts : List Text) (t : Text)
    → In t texts
    → keep t ≡ true
    → In t (retain keep texts)
In-retain_kept keep [] t m h = absurd m
In-retain_kept keep (u ∷ texts) t (inl e) h = rw (← e, h) (inl refl)
In-retain_kept keep (u ∷ texts) t (inr m) h = ground (arith, In-retain_kept keep texts t m h)

contains-In : (names : List Text) (name : Text) → In name names → contains names name ≡ true
unfolding contains
contains-In [] name m = absurd m
contains-In (n ∷ names) name (inl e) = ground (arith, eqb_iff n name)
contains-In (n ∷ names) name (inr m) = ground (arith, contains-In names name m)

contains-absent : (names : List Text) (name : Text) → contains names name ≡ false → ¬ In name names
contains-absent names name h m = cc (h, contains-In names name m)

-- The fields of one hop (RFC 9110 section 7.6.1), with the two for a proxy's authentication.
abbrev pub OfOneHop : HeaderName → Type 0
OfOneHop name = In name (
    codes "connection"
    ∷ codes "keep-alive"
    ∷ codes "proxy-connection"
    ∷ codes "te"
    ∷ codes "trailer"
    ∷ codes "transfer-encoding"
    ∷ codes "upgrade"
    ∷ codes "proxy-authenticate"
    ∷ codes "proxy-authorization"
    ∷ [])

-- The fields by which a client could claim to be another client or to ask another host.
abbrev pub ClaimsClient : HeaderName → Type 0
ClaimsClient name = In name (
    codes "forwarded"
    ∷ codes "x-forwarded-for"
    ∷ codes "x-forwarded-host"
    ∷ codes "x-forwarded-proto"
    ∷ codes "x-forwarded-port"
    ∷ codes "x-forwarded-server"
    ∷ codes "x-forwarded-prefix"
    ∷ codes "x-forwarded-uri"
    ∷ codes "x-host"
    ∷ codes "x-forwarded-scheme"
    ∷ codes "x-original-host"
    ∷ codes "front-end-https"
    ∷ codes "x-real-ip"
    ∷ [])

-- The fields by which a client could ask for another path.
abbrev pub ClaimsUrl : HeaderName → Type 0
ClaimsUrl name = In name (codes "x-original-url" ∷ codes "x-rewrite-url" ∷ [])

-- The five tests of `passes`.
record Passed (options : List Text) (name : HeaderName) : Type 0 where
  not_host : eqb name (codes "host") ≡ false
  no_claim : contains client_forwarding_headers name ≡ false
  no_override : contains url_override_headers name ≡ false
  not_hop_by_hop : contains hop_by_hop name ≡ false
  not_listed : contains options name ≡ false

In-stored_fields :
    (fields : Fields) (f : HeaderName × HeaderValue)
    → In f (stored_fields fields)
    → (eqb f.0 (codes "age") ≡ false) × In f fields
unfolding stored_fields
In-stored_fields fields f m =
    let (h, there) = In-retain (λ g. not (eqb g.0 (codes "age"))) fields f m in
    (ground arith, there)

stored_fields-kept :
    (fields : Fields) (f : HeaderName × HeaderValue)
    → In f fields
    → f.0 ≢ codes "age"
    → In f (stored_fields fields)
unfolding stored_fields
stored_fields-kept [] f m other = absurd m
stored_fields-kept (g ∷ fields) f (inl e) other =
    rw (← e) (ground (arith, eqb_iff f.0 (codes "age")))
stored_fields-kept (g ∷ fields) f (inr m) other =
    ground (arith, stored_fields-kept fields f m other)

module _ ⦃http : Http⦄ where
  open http use {get_all, iter, to_str}

  -- One of the values of `Connection`, split at its commas, lists the name, in either case.
  abbrev pub Listed : List HeaderValue → HeaderName → Type 0
  Listed values name =
      (value : HeaderValue) × In value values
      × (text : Text) × (to_str value ≡ some text)
      × In name (map (λ token. to_ascii_lowercase (trim token)) (split b',' text))
      × (is_empty name ≡ false)

  connection_options-Listed :
      (values : List HeaderValue) (name : HeaderName)
      → Listed values name
      → In name (connection_options values)
  unfolding connection_options tokens
  connection_options-Listed [] name (value, m, text, readable, listed, full) = absurd m
  connection_options-Listed (v ∷ values) name (value, inl e, text, readable, listed, full) =
      let kept = In-retain_kept (λ token. not (is_empty token)) _ name listed (ap not full) in
      rw (ap to_str (sym e) ∙ readable, connection_options)
        (In-append_left name (tokens text) (connection_options values) kept)
  connection_options-Listed (v ∷ values) name (value, inr m, text, readable, listed, full) =
      let there = connection_options-Listed values name (value, m, text, readable, listed, full) in
      elim (Option-cases (to_str v)) [
        | inl e ↦ rw (e, connection_options) there
        | inr (own, e) ↦
            rw (e, connection_options)
              (In-append_right name (tokens own) (connection_options values) there)
      ]

  not_listed-Listed :
      (values : List HeaderValue) (name : HeaderName)
      → contains (connection_options values) name ≡ false
      → ¬ Listed values name
  not_listed-Listed values name h l =
      contains-absent (connection_options values) name h (connection_options-Listed values name l)

  In-forwardable_fields :
      (head : Head) (f : HeaderName × HeaderValue)
      → In f (forwardable_fields head)
      → ((eqb f.0 (codes "content-length") ≡ false)
          × (eqb f.0 cache_status ≡ false)
          × (contains hop_by_hop f.0 ≡ false)
          × (contains (connection_options (http.get_all head.map (codes "connection"))) f.0
              ≡ false))
        × In f head.fields
  unfolding forwardable_fields is_end_to_end
  In-forwardable_fields head f m =
      let (h, there) =
        In-retain
          (λ g.
            not (eqb g.0 (codes "content-length"))
            && not (eqb g.0 cache_status)
            && is_end_to_end g.0 (connection_options (http.get_all head.map (codes "connection"))))
          head.fields f m in
      (ground arith, there)

  Passed-passes :
      (options : List Text) (name : HeaderName) → passes options name ≡ true → Passed options name
  unfolding passes is_end_to_end
  Passed-passes options name h = ground arith

  upstream_request-headers :
      (req : Request) (upstream : Upstream) (client : ClientInfo) (path_and_query : Text)
      (builder : Builder)
      → upstream_request req upstream client path_and_query ≡ some builder
      → builder.headers
        ≡ retain
            (λ f. passes (connection_options (get_all req.headers (codes "connection"))) f.0)
            (iter req.headers)
          ++ own_fields upstream client
  unfolding upstream_request
  upstream_request-headers req upstream client path_and_query builder made = ground arith

  -- What a field that comes from the client's request is not.
  pub record FromClient (req : Request) (f : HeaderName × HeaderValue) : Type 0 where
    pub came : In f (iter req.headers)
    pub not_host : f.0 ≢ codes "host"
    pub claims_no_client : ¬ ClaimsClient f.0
    pub claims_no_url : ¬ ClaimsUrl f.0
    pub not_of_one_hop : ¬ OfOneHop f.0
    pub not_listed : ¬ Listed (get_all req.headers (codes "connection")) f.0

  -- What the proxy itself tells the origin.
  pub data Own (upstream : Upstream) (client : ClientInfo) : HeaderName × HeaderValue → Type 0 where
    host :
        (value : Text)
        → upstream_host upstream ≡ some value
        → Own upstream client (codes "host", value)
    forwarded_for :
        (ip : Text) → client.ip ≡ some ip → Own upstream client (codes "x-forwarded-for", ip)
    forwarded_proto : Own upstream client (codes "x-forwarded-proto", client.scheme)
    forwarded_host : Own upstream client (codes "x-forwarded-host", client.host)

  eqb-other : (a b : Text) → eqb a b ≡ false → a ≢ b
  eqb-other a b h e = ground (arith, eqb_iff a b)

  Passed-FromClient :
      (req : Request) (f : HeaderName × HeaderValue)
      → In f (iter req.headers)
      → Passed (connection_options (get_all req.headers (codes "connection"))) f.0
      → FromClient req f
  Passed-FromClient req f there p = record {
    came = there;
    not_host = eqb-other f.0 (codes "host") p.not_host;
    claims_no_client = contains-absent client_forwarding_headers f.0 p.no_claim;
    claims_no_url = contains-absent url_override_headers f.0 p.no_override;
    not_of_one_hop = contains-absent hop_by_hop f.0 p.not_hop_by_hop;
    not_listed = not_listed-Listed _ f.0 p.not_listed;
  }

  host-Own :
      (upstream : Upstream) (client : ClientInfo) (o : Option Text) (f : HeaderName × HeaderValue)
      → upstream_host upstream ≡ o
      → In f (elim o [ none ↦ [] | some value ↦ (codes "host", value) ∷ [] ])
      → Own upstream client f
  host-Own upstream client none f e m = absurd m
  host-Own upstream client (some value) f e (inl same) = rw same (host value e)
  host-Own upstream client (some value) f e (inr m) = absurd m

  forwarded_for-Own :
      (upstream : Upstream) (client : ClientInfo) (o : Option Text) (f : HeaderName × HeaderValue)
      → client.ip ≡ o
      → In f (elim o [ none ↦ [] | some ip ↦ (codes "x-forwarded-for", ip) ∷ [] ])
      → Own upstream client f
  forwarded_for-Own upstream client none f e m = absurd m
  forwarded_for-Own upstream client (some ip) f e (inl same) = rw same (forwarded_for ip e)
  forwarded_for-Own upstream client (some ip) f e (inr m) = absurd m

  forwarded-Own :
      (upstream : Upstream) (client : ClientInfo) (f : HeaderName × HeaderValue)
      → In f (
          (codes "x-forwarded-proto", client.scheme) ∷ (codes "x-forwarded-host", client.host) ∷ [])
      → Own upstream client f
  forwarded-Own upstream client f (inl e) = rw e forwarded_proto
  forwarded-Own upstream client f (inr (inl e)) = rw e forwarded_host
  forwarded-Own upstream client f (inr (inr m)) = absurd m

  own_fields-Own :
      (upstream : Upstream) (client : ClientInfo) (f : HeaderName × HeaderValue)
      → In f (own_fields upstream client)
      → Own upstream client f
  unfolding own_fields
  own_fields-Own upstream client f m =
      let named : Fields = elim (upstream_host upstream) [
        | none ↦ []
        | some value ↦ (codes "host", value) ∷ []
      ] in
      let addressed : Fields = elim client.ip [
        | none ↦ []
        | some ip ↦ (codes "x-forwarded-for", ip) ∷ []
      ] in
      elim (In-append_cases (named ++ addressed) _ f m) [
        | inr last ↦ forwarded-Own upstream client f last
        | inl first ↦ elim (In-append_cases named addressed f first) [
          | inl h ↦ host-Own upstream client (upstream_host upstream) f refl h
          | inr h ↦ forwarded_for-Own upstream client client.ip f refl h
        ]
      ]

  -- A field of the origin request either came from the client, and then it is not `Host`, its name
  -- is none that could claim another client, host or path, none of one hop and none that a
  -- readable value of the client's `Connection` lists; or it is one that the proxy sets itself:
  -- the origin's host, the client's address if there is one, its scheme or its host.
  pub upstream_request-In :
      (req : Request) (upstream : Upstream) (client : ClientInfo) (path_and_query : Text)
      (builder : Builder) (f : HeaderName × HeaderValue)
      → upstream_request req upstream client path_and_query ≡ some builder
      → In f builder.headers
      → FromClient req f ⊎ Own upstream client f
  upstream_request-In req upstream client path_and_query builder f made m =
      let options = connection_options (get_all req.headers (codes "connection")) in
      let headers = upstream_request-headers req upstream client path_and_query builder made in
      elim (In-append_cases (retain (λ g. passes options g.0) (iter req.headers)) _ f
        (rw headers at m)) [
          | inl kept ↦
              let (h, there) = In-retain (λ g. passes options g.0) (iter req.headers) f kept in
              inl (Passed-FromClient req f there (Passed-passes options f.0 h))
          | inr own ↦ inr (own_fields-Own upstream client f own)
        ]

  -- What a field that the proxy passes on from the origin's answer is not.
  pub record FromOrigin (status : StatusCode) (fields : Fields) (f : HeaderName × HeaderValue)
      : Type 0 where
    pub came : In f fields
    pub not_length : f.0 ≢ codes "content-length"
    pub not_status : f.0 ≢ codes "x-shadowstep-cache"
    pub not_of_one_hop : ¬ OfOneHop f.0
    pub not_listed : ¬ Listed (get_all (append_all http.new fields) (codes "connection")) f.0

  -- A field that the proxy passes on from the origin's answer came from the origin; it is not of
  -- one hop, nor listed by a readable value of the origin's `Connection`, nor `Content-Length`,
  -- nor the proxy's own cache status. What it stores of them has no `Age` either.
  pub forwardable_fields-In :
      (status : StatusCode) (fields : Fields) (f : HeaderName × HeaderValue)
      → In f (forwardable_fields (from_upstream status fields))
      → FromOrigin status fields f
        × (In f (stored_fields (forwardable_fields (from_upstream status fields)))
            ↔ (f.0 ≢ codes "age"))
  forwardable_fields-In status fields f m =
      let head = from_upstream status fields in
      let ((no_length, no_status, no_hop, not_listed), there) = In-forwardable_fields head f m in
      (
        record {
          came = unfold from_upstream in there;
          not_length = eqb-other f.0 (codes "content-length") no_length;
          not_status = eqb-other f.0 cache_status no_status;
          not_of_one_hop = contains-absent hop_by_hop f.0 no_hop;
          not_listed = unfold from_upstream in not_listed-Listed _ f.0 not_listed;
        },
        (
          λ stored. eqb-other f.0 (codes "age") (In-stored_fields _ f stored).0,
          λ other. stored_fields-kept _ f m (λ e. other e),
        ),
      )
