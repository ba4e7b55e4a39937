-- ===== src/Forwarded.antt =====
-- src/forwarded.rs: who sent a request and for which host, and the fields that could claim
-- otherwise. A request is what the program reads from actix's `HttpRequest`.
use shadowstep.Prelude.{Bool, List, [], ◌∷◌, Option, if◌then◌else◌, or_else, unwrap_or, ◌>>=◌}
use shadowstep.Text.{Text, codes}
use shadowstep.Http.{Http, HeaderName, Method}

-- `CLIENT_FORWARDING_HEADERS`.
abbrev pub client_forwarding_headers : List HeaderName
client_forwarding_headers =
    codes "forwarded"
    ∷ codes "x-forwarded-for"
    ∷ codes "x-forwarded-host"
    ∷ codes "x-forwarded-proto"
    ∷ codes "x-forwarded-port"
    ∷ codes "x-forwarded-server"
    ∷ codes "x-forwarded-prefix"
    ∷ codes "x-forwarded-uri"
    ∷ codes "x-host"
    ∷ codes "x-forwarded-scheme"
    ∷ codes "x-original-host"
    ∷ codes "front-end-https"
    ∷ codes "x-real-ip"
    ∷ []

-- `URL_OVERRIDE_HEADERS`.
abbrev pub url_override_headers : List HeaderName
url_override_headers = codes "x-original-url" ∷ codes "x-rewrite-url" ∷ []

-- The peer's address is its IP address as text. `secure` and `config_host` are of actix's
-- `AppConfig`, which the listener decides.
pub record Request ⦃http : Http⦄ : Type 0 where
  pub method : Method
  pub headers : http.HeaderMap
  pub authority : Option Text
  pub path_and_query : Option Text
  pub peer_ip : Option Text
  pub secure : Bool
  pub config_host : Text

pub record ClientInfo : Type 0 where
  pub ip : Option Text
  pub scheme : Text
  pub host : Text

module _ ⦃http : Http⦄ where
  unfoldable pub from_request : Request → ClientInfo
  from_request req = record {
    ip = req.peer_ip;
    scheme = if req.secure then codes "https" else codes "http";
    host =
        unwrap_or
          (or_else req.authority (http.get req.headers (codes "host") >>= λ v. http.to_str v))
          req.config_host;
  }

  -- The path and query of the request's target, or no text.
  abbrev pub path_and_query : Request → Text
  path_and_query req = unwrap_or req.path_and_query []
