-- ===== src/Tls/Laws.antt =====
-- When the program listens for HTTPS.
use shadowstep.Prelude.{
  ◌≡◌, ◌∙◌, sym, ap, refl, false, ◌&&◌, List, Option, none, some, is_some, ◌⊎◌, inl, inr,
  Option-cases, Sum-cases,
}
use shadowstep.Text.{Bytes}
use shadowstep.Io.{ok, bind-ok}
use shadowstep.Cache.Response.{FilePath}
use shadowstep.Config.{Config, is_tls_enabled}
use shadowstep.Tls.{
  Host, FirstKey, found, no_items, malformed, read_certificates, read_key, finish_config,
  load_rustls_config, bind_tls, bind_listeners,
}

module _ ⦃host : Host⦄ where
  open host use {Listener, Certificate, PrivateKey, ServerConfig}

  read_certificates-ok :
      (content : Bytes) (chain : List Certificate)
      → read_certificates content ≡ ok chain
      → host.certificates content ≡ some chain
  unfolding read_certificates
  read_certificates-ok content chain h = elim (Option-cases (host.certificates content)) [
    | inl e ↦ cc (rw (e, read_certificates) at h)
    | inr (c, e) ↦ (let same : ok c ≡ ok chain = rw (e, read_certificates) at h in e ∙ ap some (cc))
  ]

  FirstKey-cases :
      (f : FirstKey PrivateKey)
      → ((key : PrivateKey) × (f ≡ found key)) ⊎ ((f ≡ no_items) ⊎ (f ≡ malformed))
  FirstKey-cases (found key) = inl (key, refl)
  FirstKey-cases no_items = inr (inl refl)
  FirstKey-cases malformed = inr (inr refl)

  read_key-ok :
      (content : Bytes) (key : PrivateKey)
      → read_key content ≡ ok key
      → host.first_key content ≡ found key
  unfolding read_key
  read_key-ok content key h = elim (FirstKey-cases (host.first_key content)) [
    | inl (k, e) ↦ (let same : ok k ≡ ok key = rw (e, read_key) at h in e ∙ ap found (cc))
    | inr (inl e) ↦ cc (rw (e, read_key) at h)
    | inr (inr e) ↦ cc (rw (e, read_key) at h)
  ]

  finish_config-ok :
      (chain : List Certificate) (key : PrivateKey) (settings : ServerConfig)
      → finish_config chain key ≡ ok settings
      → host.with_single_cert chain key ≡ inr settings
  unfolding finish_config
  finish_config-ok chain key settings h = elim (Sum-cases (host.with_single_cert chain key)) [
    | inl (message, e) ↦ cc (rw (e, finish_config) at h)
    | inr (c, e) ↦ (let same : ok c ≡ ok settings = rw (e, finish_config) at h in e ∙ ap inr (cc))
  ]

  -- The settings are of the whole certificate chain of the one file and the first key of the
  -- other, which rustls took.
  abbrev pub Loaded : FilePath → FilePath → ServerConfig → Type 0
  Loaded cert_path key_path settings =
      (certs : Bytes) × (keys : Bytes) × (chain : List Certificate) × (key : PrivateKey)
      × (host.open_file cert_path ≡ ok certs)
      × (host.certificates certs ≡ some chain)
      × (host.open_file key_path ≡ ok keys)
      × (host.first_key keys ≡ found key)
      × (host.with_single_cert chain key ≡ inr settings)

  load_rustls_config-Loaded :
      (cert_path key_path : FilePath) (settings : ServerConfig)
      → load_rustls_config cert_path key_path ≡ ok settings
      → Loaded cert_path key_path settings
  unfolding load_rustls_config
  load_rustls_config-Loaded cert_path key_path settings h =
      let (certs, a, h1) = bind-ok (host.open_file cert_path) _ settings h in
      let (chain, b, h2) = bind-ok (read_certificates certs) _ settings h1 in
      let (keys, c, h3) = bind-ok (host.open_file key_path) _ settings h2 in
      let (key, d, h4) = bind-ok (read_key keys) _ settings h3 in
      (
        certs,
        keys,
        chain,
        key,
        a,
        read_certificates-ok certs chain b,
        c,
        read_key-ok keys key d,
        finish_config-ok chain key settings h4,
      )

  -- The HTTPS listener that the settings ask for, or none.
  abbrev pub Asked :
      Config → Option FilePath → Option FilePath → Option (Listener × ServerConfig) → Type 0
  Asked config cert_path key_path tls =
      ((tls ≡ none) × (is_some cert_path && is_some key_path ≡ false))
      ⊎ ((cert : FilePath) × (key : FilePath) × (listener : Listener) × (settings : ServerConfig)
          × (cert_path ≡ some cert)
          × (key_path ≡ some key)
          × (tls ≡ some (listener, settings))
          × (host.bind config.tls_listen_addr ≡ ok listener)
          × Loaded cert key settings)

  bind_tls-Asked :
      (config : Config) (cert key : Option FilePath) (tls : Option (Listener × ServerConfig))
      → bind_tls config cert key ≡ ok tls
      → Asked config cert key tls
  unfolding bind_tls
  bind_tls-Asked config none key tls h = inl (cc, refl)
  bind_tls-Asked config (some c) none tls h = inl (cc, refl)
  bind_tls-Asked config (some c) (some k) tls h =
      let (settings, a, h1) = bind-ok (load_rustls_config c k) _ tls h in
      let (listener, b, h2) = bind-ok (host.bind config.tls_listen_addr) _ tls h1 in
      inr (c, k, listener, settings, refl, refl, cc, b, load_rustls_config-Loaded c k settings a)

  -- The program never serves without the TLS that its settings ask for: when its listeners are
  -- bound, it listens for HTTPS exactly if both paths are set, and then with the whole certificate
  -- chain and the first key of the two files, which rustls took; otherwise it does not start.
  pub bind_listeners-Asked :
      (config : Config) (http : Listener) (tls : Option (Listener × ServerConfig))
      → bind_listeners config ≡ ok (http, tls)
      → (host.bind config.listen_addr ≡ ok http)
        × (is_some tls ≡ is_tls_enabled config)
        × Asked config config.tls_cert_path config.tls_key_path tls
  unfolding bind_listeners is_tls_enabled
  bind_listeners-Asked config http tls h =
      let (l, a, h1) = bind-ok (host.bind config.listen_addr) _ (http, tls) h in
      let (t, b, h2) =
        bind-ok (bind_tls config config.tls_cert_path config.tls_key_path) _ (http, tls) h1 in
      let same_l : l ≡ http = cc in
      let same_t : t ≡ tls = cc in
      let asked =
        bind_tls-Asked config config.tls_cert_path config.tls_key_path tls (b ∙ ap ok same_t) in
      (
        a ∙ ap ok same_l,
        elim asked [
          | inl (e, f) ↦ ap is_some e ∙ sym f
          | inr (cert, key, listener, settings, c, k, e, _, _) ↦ rw (c, k, e) refl
        ],
        asked,
      )
