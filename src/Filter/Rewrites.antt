-- ===== src/Filter/Rewrites.antt =====
-- src/dns/filter.rs and handler.rs: what the tables of rewrites answer, by the rows they are made of.
use rust_dns_backend.Base.{
  ◌≡◌, refl, ◌∙◌, ◌≢◌, inl, inr, Option, none, some, List, [], ◌∷◌, if◌then◌else◌, Bool-cases,
  Option-cases, All,
}
use rust_dns_backend.Text.{Text, Unicode, text_eq, to_lowercase}
use rust_dns_backend.Text.Laws.{text_eq_iff}
use rust_dns_backend.Map.{Map, map_get, map_insert, map_get-insert}
use rust_dns_backend.Filter.{insert_rewrites}

abbrev pub or_else : {A : Type 0} → Option A → Option A → Option A
or_else (some x) other = some x
or_else none other = other

or_else-none : {A : Type 0} → (o : Option A) → or_else o none ≡ o
or_else-none none = refl
or_else-none (some x) = refl

module _ ⦃u : Unicode⦄ where
  -- The answer of the last row whose domain, in lower case, is the name.
  unfoldable pub last_answer : Text → List (Text × Text) → Option Text
  last_answer name [] = none
  last_answer name ((domain, answer) ∷ rows) =
      or_else (last_answer name rows)
        (if text_eq (to_lowercase domain) name then some answer else none)

  pub insert_rewrites_lem :
      (name : Text) (rows : List (Text × Text)) (m : Map Text)
      → map_get name (insert_rewrites rows m) ≡ or_else (last_answer name rows) (map_get name m)
  unfolding insert_rewrites last_answer
  insert_rewrites_lem name [] m = refl
  insert_rewrites_lem name ((domain, answer) ∷ rows) m =
      rw
        (
          insert_rewrites_lem name rows (map_insert (to_lowercase domain) answer m),
          map_get-insert (to_lowercase domain) name answer m,
        )
        (elim (Option-cases (last_answer name rows)) [
          | inl e ↦ elim (Bool-cases (text_eq (to_lowercase domain) name)) [
            | inl k ↦ rw (e, k) refl
            | inr k ↦ rw (e, k) refl
          ]
          | inr (x, e) ↦ rw e refl
        ])

  pub insert_rewrites-new :
      (name : Text) (rows : List (Text × Text))
      → map_get name (insert_rewrites rows []) ≡ last_answer name rows
  unfolding map_get
  insert_rewrites-new name rows =
      insert_rewrites_lem name rows [] ∙ or_else-none (last_answer name rows)

  -- A name that no row's domain has in lower case has no answer.
  pub last_answer-none :
      (name : Text) (rows : List (Text × Text))
      → All (λ r. to_lowercase r.0 ≢ name) rows
      → last_answer name rows ≡ none
  unfolding last_answer
  last_answer-none name [] h = refl
  last_answer-none name ((domain, answer) ∷ rows) h =
      elim (Bool-cases (text_eq (to_lowercase domain) name)) [
        | inl e ↦ absurd (h.0 ((text_eq_iff (to_lowercase domain) name).0 e))
        | inr e ↦ rw (last_answer-none name rows h.1, e) refl
      ]
