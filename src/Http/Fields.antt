-- ===== src/Http/Fields.antt =====
-- The values of a header map that was made of a list of fields.
use shadowstep.Prelude.{◌≡◌, sym, ◌∙◌, ap, List, [], ◌∷◌, ◌++◌, Bool-cases, inl, inr, if◌then◌else◌}
use mathlib.Core.List.{append_assoc, append-nil}
use shadowstep.Text.{eqb}
use shadowstep.Http.{Http, HeaderName, HeaderValue, append_all}

abbrev pub values_in : List (HeaderName × HeaderValue) → HeaderName → List HeaderValue
values_in [] n = []
values_in ((name, value) ∷ fields) n =
    let rest = values_in fields n in if eqb name n then value ∷ rest else rest

module _ ⦃http : Http⦄ where
  open http use {HeaderMap, get_all}

  pub get_all-append_all :
      (m : HeaderMap) (fields : List (HeaderName × HeaderValue)) (n : HeaderName)
      → get_all (append_all m fields) n ≡ get_all m n ++ values_in fields n
  unfolding append_all
  get_all-append_all m [] n = sym (append-nil (get_all m n))
  get_all-append_all m ((name, value) ∷ fields) n =
      let later = get_all-append_all (http.append m name value) fields n in
      let first = http.get_all-append m name value n in
      elim (Bool-cases (eqb name n)) [
        | inl e ↦ rw e (
            later
            ∙ ap (λ vs. vs ++ values_in fields n) (rw e at first)
            ∙ append_assoc (get_all m n) (value ∷ []) (values_in fields n))
        | inr e ↦ rw e (later ∙ ap (λ vs. vs ++ values_in fields n) (rw e at first))
      ]
