-- ===== src/Tls.antt =====
-- src/tls.rs: the listeners and the TLS settings. The sockets, the files and the crate `rustls`
-- are outside, as an interface.
pub mod Laws
use shadowstep.Prelude.{List, Option, none, some, ◌⊎◌, inl, inr}
use shadowstep.Text.{Text, Bytes, codes}
use shadowstep.Io.{Io, IoError, ok, fails, invalid_input, ◌>>=◌}
use shadowstep.Cache.Response.{FilePath}
use shadowstep.Config.{Config}

-- The first private key of a PEM file: `from_pem_reader`.
pub data FirstKey (Key : Type 0) : Type 0 where
  found : Key → FirstKey Key
  no_items : FirstKey Key
  malformed : FirstKey Key

pub record Host : Type 1 where
  pub Listener : Type 0
  pub Certificate : Type 0
  pub PrivateKey : Type 0
  pub ServerConfig : Type 0
  -- `TcpListener::bind`
  pub bind : Text → Io Listener
  -- `File::open`, and what is read from the file
  pub open_file : FilePath → Io Bytes
  -- `pem_reader_iter`, which fails when one certificate does
  pub certificates : Bytes → Option (List Certificate)
  pub first_key : Bytes → FirstKey PrivateKey
  -- `with_safe_default_protocol_versions` and `with_single_cert`, or the message of their error
  pub with_single_cert : List Certificate → PrivateKey → Text ⊎ ServerConfig

module _ ⦃host : Host⦄ where
  open host use {Listener, Certificate, PrivateKey, ServerConfig}

  read_certificates : Bytes → Io (List Certificate)
  read_certificates content = elim (host.certificates content) [
    | none ↦ fails (invalid_input (codes "invalid cert"))
    | some chain ↦ ok chain
  ]

  read_key : Bytes → Io PrivateKey
  read_key content = elim (host.first_key content) [
    | found key ↦ ok key
    | no_items ↦ fails (invalid_input (codes "No private keys found"))
    | malformed ↦ fails (invalid_input (codes "invalid key"))
  ]

  finish_config : List Certificate → PrivateKey → Io ServerConfig
  finish_config chain key = elim (host.with_single_cert chain key) [
    | inl message ↦ fails (invalid_input message)
    | inr config ↦ ok config
  ]

  unfoldable pub load_rustls_config : FilePath → FilePath → Io ServerConfig
  unfolding read_certificates read_key finish_config
  load_rustls_config cert_path key_path = host.open_file cert_path >>= λ certs.
      read_certificates certs >>= λ chain.
      host.open_file key_path >>= λ keys. read_key keys >>= λ key. finish_config chain key

  -- The HTTPS listener with its settings, which both paths ask for.
  unfoldable pub bind_tls :
      Config → Option FilePath → Option FilePath → Io (Option (Listener × ServerConfig))
  unfolding load_rustls_config
  bind_tls config (some cert_path) (some key_path) =
      load_rustls_config cert_path key_path >>= λ tls_config.
      host.bind config.tls_listen_addr >>= λ listener. ok (some (listener, tls_config))
  bind_tls config (some cert_path) none = ok none
  bind_tls config none key_path = ok none

  unfoldable pub bind_listeners : Config → Io (Listener × Option (Listener × ServerConfig))
  unfolding bind_tls
  bind_listeners config = host.bind config.listen_addr >>= λ http.
      bind_tls config config.tls_cert_path config.tls_key_path >>= λ tls. ok (http, tls)
