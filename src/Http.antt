-- ===== src/Http.antt =====
-- What the program uses of the crates `http`, `actix-web` and `httpdate`, as an interface: a
-- header map by what `get_all` returns, the conversions of names and values, the safe methods,
-- the classes of status codes and HTTP dates. The laws are those crates' documented behaviour.
pub mod Listed
pub mod Fields
use shadowstep.Prelude.{
  ℕ, ◌≡◌, ◌≤◌, Bool, not, List, [], ◌∷◌, ◌++◌, Option, none, some, if◌then◌else◌, is_empty, head?,
}
use shadowstep.Text.{Text, Bytes, eqb}
use shadowstep.Time.{SystemTime, from_secs}

-- A header name, in lower case.
abbrev pub HeaderName : Type 0
HeaderName = Text

-- A header value, as its bytes.
abbrev pub HeaderValue : Type 0
HeaderValue = Bytes

abbrev pub Method : Type 0
Method = Text

abbrev pub StatusCode : Type 0
StatusCode = ℕ

pub record Http : Type 1 where
  pub HeaderMap : Type 0
  -- `HeaderMap::with_capacity`, which holds no field
  pub new : HeaderMap
  pub append : HeaderMap → HeaderName → HeaderValue → HeaderMap
  -- `HeaderMap::iter`
  pub iter : HeaderMap → List (HeaderName × HeaderValue)
  pub insert : HeaderMap → HeaderName → HeaderValue → HeaderMap
  pub get_all : HeaderMap → HeaderName → List HeaderValue
  pub get : HeaderMap → HeaderName → Option HeaderValue
  pub contains_key : HeaderMap → HeaderName → Bool
  -- `HeaderValue::to_str`, which fails on a value that is not visible ASCII
  pub to_str : HeaderValue → Option Text
  -- `HeaderName::from_bytes`, which fails on a text that is no token
  pub header_name : Text → Option HeaderName
  -- `Method::is_safe`
  pub is_safe : Method → Bool
  pub is_success : StatusCode → Bool
  pub is_redirection : StatusCode → Bool
  pub canonical_reason : StatusCode → Option Text
  -- `httpdate::parse_http_date`
  pub parse_http_date : Text → Option SystemTime
  -- dates go to the end of the year 9999
  pub parse_http_date-le :
      (s : Text) (t : SystemTime) → parse_http_date s ≡ some t → t ≤ from_secs 253402300799
  pub get_lem : (m : HeaderMap) (n : HeaderName) → get m n ≡ head? (get_all m n)
  pub contains_key_lem :
      (m : HeaderMap) (n : HeaderName) → contains_key m n ≡ not (is_empty (get_all m n))
  pub get_all-new : (n : HeaderName) → get_all new n ≡ []
  pub get_all-append :
      (m : HeaderMap) (n : HeaderName) (v : HeaderValue) (j : HeaderName)
      → get_all (append m n v) j ≡ (if eqb n j then get_all m j ++ v ∷ [] else get_all m j)
  pub get_all-insert :
      (m : HeaderMap) (n : HeaderName) (v : HeaderValue) (j : HeaderName)
      → get_all (insert m n v) j ≡ (if eqb n j then v ∷ [] else get_all m j)

module _ ⦃http : Http⦄ where
  -- A header map of the fields, in order.
  unfoldable pub append_all : http.HeaderMap → List (HeaderName × HeaderValue) → http.HeaderMap
  append_all m [] = m
  append_all m ((name, value) ∷ fields) = append_all (http.append m name value) fields
