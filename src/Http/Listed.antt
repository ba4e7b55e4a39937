-- ===== src/Http/Listed.antt =====
-- An implementation of the interface over lists of fields, which shows that its laws can hold.
use shadowstep.Prelude.{
  ℕ, ◌/◌, ◌≡◌, refl, Bool, not, ◌||◌, ◌&&◌, List, [], ◌∷◌, ◌++◌, Option, none, some, leb, ◌>>=◌,
  ◌≤◌, arith, ◌==◌, ltb, if◌then◌else◌, is_empty, head?, all,
}
use shadowstep.Text.{Text, eqb, codes, parse_u64, to_ascii_lowercase}
use shadowstep.Text.Laws.{eqb_iff}
use shadowstep.Http.{Http, HeaderName, HeaderValue}
use shadowstep.Time.{SystemTime, from_secs}

abbrev pub Listed : Type 0
Listed = List (HeaderName × HeaderValue)

abbrev pub values : Listed → HeaderName → List HeaderValue
values [] n = []
values ((j, v) ∷ m) n = let rest = values m n in if eqb j n then v ∷ rest else rest

abbrev pub without : Listed → HeaderName → Listed
without [] n = []
without ((j, v) ∷ m) n = let rest = without m n in if eqb j n then rest else (j, v) ∷ rest

pub values-append :
    (m : Listed) (n : HeaderName) (v : HeaderValue) (j : HeaderName)
    → values (m ++ (n, v) ∷ []) j ≡ (if eqb n j then values m j ++ v ∷ [] else values m j)
values-append [] n v j = ground arith
values-append ((i, w) ∷ m) n v j = ground (arith, values-append m n v j)

values-without :
    (m : Listed) (n j : HeaderName) → values (without m n) j ≡ (if eqb n j then [] else values m j)
values-without [] n j = ground arith
values-without ((i, w) ∷ m) n j =
    ground (arith, values-without m n j, eqb_iff n j, eqb_iff i j, eqb_iff i n)

pub values-insert :
    (m : Listed) (n : HeaderName) (v : HeaderValue) (j : HeaderName)
    → values (without m n ++ (n, v) ∷ []) j ≡ (if eqb n j then v ∷ [] else values m j)
values-insert m n v j = ground (arith, values-append (without m n) n v j, values-without m n j)

unfoldable pub is_visible : ℕ → Bool
is_visible b = b == 9 || (ltb 31 b && ltb b 127)

-- Dates are written as seconds here.
unfoldable pub capped_date : Text → Option SystemTime
capped_date s = do
  seconds ← parse_u64 s
  if leb seconds 253402300799 then some (from_secs seconds) else none

pub capped_date-le :
    (s : Text) (t : SystemTime) → capped_date s ≡ some t → t ≤ from_secs 253402300799
unfolding capped_date
capped_date-le s t h = ground arith

abbrev pub listed : Http
listed = record {
  HeaderMap = Listed;
  new = [];
  iter = λ m. m;
  append = λ m n v. m ++ (n, v) ∷ [];
  insert = λ m n v. without m n ++ (n, v) ∷ [];
  get_all = values;
  get = λ m n. head? (values m n);
  contains_key = λ m n. not (is_empty (values m n));
  to_str = λ v. if all is_visible v then some v else none;
  header_name = λ s. if all is_visible s then some (to_ascii_lowercase s) else none;
  is_safe = λ m.
      eqb m (codes "GET")
      || eqb m (codes "HEAD")
      || eqb m (codes "OPTIONS")
      || eqb m (codes "TRACE");
  is_success = λ s. s / 100 == 2;
  is_redirection = λ s. s / 100 == 3;
  canonical_reason = λ s. none;
  parse_http_date = capped_date;
  parse_http_date-le = capped_date-le;
  get_lem = λ m n. refl;
  contains_key_lem = λ m n. refl;
  get_all-new = λ n. refl;
  get_all-append = values-append;
  get_all-insert = values-insert;
}
