-- ===== src/Cache/Vary.antt =====
-- src/cache.rs, `Vary`, `vary_values` and `vary_names`: the request fields that select a stored
-- variant.
pub mod Sorted
pub mod Canonical
use shadowstep.Prelude.{
  Bool, true, false, ◌&&◌, ◌||◌, List, [], ◌∷◌, ◌++◌, map, Option, none, some, ltb, ◌==◌,
  if◌then◌else◌, ◌>>=◌, is_empty,
}
use shadowstep.Text.{Text, codes, eqb, split, trim, join_comma}
use shadowstep.Text.Utf8.{from_utf8_lossy}
use shadowstep.Http.{Http, HeaderName, HeaderValue}
use shadowstep.Cache.Names

pub record Vary : Type 0 where
  pub names : List HeaderName
  pub values : List (Option Text)

-- `str`'s order: `a` stands before `b` or is `b`.
pub lexb : Text → Text → Bool
lexb [] b = true
lexb (x ∷ a) [] = false
lexb (x ∷ a) (y ∷ b) = ltb x y || (x == y && lexb a b)

pub insert_sorted : HeaderName → List HeaderName → List HeaderName
insert_sorted n [] = n ∷ []
insert_sorted n (m ∷ ms) =
    let rest = insert_sorted n ms in if lexb n m then n ∷ m ∷ ms else m ∷ rest

-- `sort_by` on the names' texts. Names that compare as equal are equal.
pub sort : List HeaderName → List HeaderName
unfolding insert_sorted lexb
sort [] = []
sort (n ∷ ns) = insert_sorted n (sort ns)

abbrev pub dedup_cons : HeaderName → List HeaderName → List HeaderName
dedup_cons n [] = n ∷ []
dedup_cons n (m ∷ ms) = if eqb n m then m ∷ ms else n ∷ m ∷ ms

-- `Vec::dedup`: of equal neighbours one is kept.
pub dedup : List HeaderName → List HeaderName
dedup [] = []
dedup (n ∷ ns) = dedup_cons n (dedup ns)

module _ ⦃http : Http⦄ where
  open http use {HeaderMap, get_all, to_str, header_name}

  -- The request's value for one name: its field values, trimmed and joined by commas.
  pub vary_value : HeaderMap → HeaderName → Option Text
  vary_value request name =
      let values = map (λ v. trim (from_utf8_lossy v)) (get_all request name) in
      if is_empty values then none else some (join_comma values)

  unfoldable pub vary_values : List HeaderName → HeaderMap → List (Option Text)
  unfolding vary_value
  vary_values names request = map (vary_value request) names

  -- The names of one field value's members, behind the names so far. `none` is the early return
  -- for `*` and for a member that is no field name.
  unfoldable pub push_members : List HeaderName → List Text → Option (List HeaderName)
  push_members names [] = some names
  push_members names (member ∷ members) =
      let later = λ (n : HeaderName). push_members (names ++ n ∷ []) members in
      let skip = push_members names members in
      if is_empty member
      then skip
      else if eqb member (codes "*")
      then none
      else header_name member >>= later

  unfoldable pub push_fields : List HeaderName → List HeaderValue → Option (List HeaderName)
  unfolding push_members
  push_fields names [] = some names
  push_fields names (value ∷ values) = to_str value >>= λ text.
      push_members names (map trim (split b',' text)) >>= λ more. push_fields more values

  unfoldable pub vary_names : HeaderMap → Option (List HeaderName)
  unfolding push_fields sort dedup
  vary_names response = do
    names ← push_fields [] (get_all response Names.vary)
    some (dedup (sort names))
