-- ===== src/Config.antt =====
-- src/config.rs: the settings of the program. Their reading by the crate `clap` is outside.
use shadowstep.Prelude.{ℕ, Bool, ◌&&◌, Option, is_some}
use shadowstep.Text.{Text}
use shadowstep.Cache.Response.{FilePath}

pub record Config : Type 0 where
  pub origin_url : Text
  pub listen_addr : Text
  pub asset_path : FilePath
  pub cache_ttl_seconds : ℕ
  pub cache_size_mb : ℕ
  pub tls_cert_path : Option FilePath
  pub tls_key_path : Option FilePath
  pub tls_listen_addr : Text
  pub upstream_timeout_seconds : ℕ
  pub metrics_addr : Option Text

unfoldable pub is_tls_enabled : Config → Bool
is_tls_enabled config = is_some config.tls_cert_path && is_some config.tls_key_path
