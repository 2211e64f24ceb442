-- ===== src/RewriteApi.antt =====
-- src/api/handlers/rewrites.rs: the handlers that change the table `dns_rewrites`, whose index
-- `idx_dns_rewrites_domain` keeps domains apart.
pub mod Sound
pub mod Live
use rust_dns_backend.Base.{
  ℕ, Bool, true, false, not, ◌||◌, Option, none, some, List, [], ◌∷◌, ◌++◌, map, any, keep_if,
  if◌then◌else◌, is_nil,
}
use rust_dns_backend.Text.{Text, Unicode, codes, text_eq, trim, to_lowercase}
use rust_dns_backend.Net.{parse_ip}
use rust_dns_backend.Error.{AppError, AppResult, ok, err, validation, not_found, internal, database}

pub record RewriteRow : Type 0 where
  pub rewrite_id : Text
  pub domain : Text
  pub answer : Text
  pub created_by : Text
  pub created_at : Text

-- The table, and the pairs that the filter engine has last read of it.
pub record RewritesState : Type 0 where
  pub rows : List RewriteRow
  pub loaded : List (Text × Text)

abbrev pub rewrite_of : RewriteRow → Text × Text
rewrite_of r = (r.domain, r.answer)

-- The inputs of a request: the user, the identifier that `uuid` makes, the time, and whether the
-- statements and the reload succeed.
pub record RewriteEnv : Type 0 where
  pub username : Text
  pub uuid : Text
  pub now : Text
  pub statement_ok : Bool
  pub reload_ok : Bool

pub record CreateRewriteRequest : Type 0 where
  pub new_domain : Text
  pub new_answer : Text

pub record UpdateRewriteRequest : Type 0 where
  pub domain_update : Option Text
  pub answer_update : Option Text

-- The answer reads as an address.
unfoldable pub is_ip : Text → Bool
unfolding parse_ip
is_ip s = elim (parse_ip s) [ none ↦ false | some ip ↦ true ]

unfoldable pub has_domain : Text → RewriteRow → Bool
unfolding text_eq
has_domain d r = text_eq r.domain d

unfoldable pub has_rewrite_id : Text → RewriteRow → Bool
unfolding text_eq
has_rewrite_id id r = text_eq r.rewrite_id id

-- What the index refuses.
unfoldable pub repeats_domain : List RewriteRow → Bool
unfolding any has_domain
repeats_domain [] = false
repeats_domain (r ∷ rows) = any (has_domain r.domain) rows || repeats_domain rows

abbrev pub already_rewritten : Text → AppError
already_rewritten domain =
    validation (codes "Domain '" ++ (domain ++ codes "' already has a rewrite rule"))

abbrev pub invalid_answer : AppError
invalid_answer = validation (codes "Invalid IP address format")

-- The statement that writes `rows`, and the reload behind it.
unfoldable pub write_rewrites :
    {A : Type 0}
    → RewriteEnv
    → Text
    → List RewriteRow
    → RewritesState
    → A
    → RewritesState × AppResult A
unfolding repeats_domain
write_rewrites env domain rows s a =
    if not env.statement_ok
    then (s, err (internal (codes "statement failed")))
    else if repeats_domain rows
    then (s, err (already_rewritten domain))
    else if env.reload_ok
    then (record { rows = rows; loaded = map rewrite_of rows }, ok a)
    else (record s { rows = rows }, err (internal (codes "reload failed")))

unfoldable pub find_rewrite : Text → List RewriteRow → Option RewriteRow
unfolding has_rewrite_id
find_rewrite id [] = none
find_rewrite id (r ∷ rows) = if has_rewrite_id id r then some r else find_rewrite id rows

abbrev rewrite_not_found : Text → AppError
rewrite_not_found id = not_found (codes "Rewrite rule " ++ (id ++ codes " not found"))

abbrev pub with_rewrite : Text → Text → RewriteRow → RewriteRow
with_rewrite domain answer r = record r { domain = domain; answer = answer }

-- `UPDATE dns_rewrites SET domain = $1, answer = $2 WHERE id = $3`
unfoldable pub set_rewrite : Text → Text → Text → List RewriteRow → List RewriteRow
unfolding has_rewrite_id
set_rewrite id domain answer rows =
    map (λ r. if has_rewrite_id id r then with_rewrite domain answer r else r) rows

module _ ⦃u : Unicode⦄ where
  abbrev pub new_rewrite : RewriteEnv → CreateRewriteRequest → RewriteRow
  new_rewrite env body = record {
    rewrite_id = env.uuid;
    domain = to_lowercase (trim body.new_domain);
    answer = trim body.new_answer;
    created_by = env.username;
    created_at = env.now;
  }

  unfoldable pub create_rewrite :
      RewriteEnv → CreateRewriteRequest → RewritesState → RewritesState × AppResult RewriteRow
  create_rewrite env body s =
      let row = new_rewrite env body in
      if is_nil row.domain
      then (s, err (validation (codes "Domain cannot be empty")))
      else if is_nil row.answer
      then (s, err (validation (codes "Answer (target IP) cannot be empty")))
      else if not (is_ip row.answer)
      then (s, err invalid_answer)
      else write_rewrites env row.domain (s.rows ++ row ∷ []) s row

  unfoldable pub updated_domain : Option Text → Text → Text
  unfolding trim to_lowercase
  updated_domain none old = old
  updated_domain (some d) old = to_lowercase (trim d)

  unfoldable pub updated_answer : Option Text → Text → Text
  updated_answer none old = old
  updated_answer (some a) old = a

  -- The update of a row that exists.
  unfoldable pub change_rewrite :
      RewriteEnv
      → UpdateRewriteRequest
      → RewritesState
      → RewriteRow
      → Text
      → RewritesState × AppResult RewriteRow
  change_rewrite env body s old id =
      let domain = updated_domain body.domain_update old.domain in
      let answer = updated_answer body.answer_update old.answer in
      if not (is_ip answer)
      then (s, err invalid_answer)
      else write_rewrites env domain (set_rewrite id domain answer s.rows) s
          (with_rewrite domain answer old)

  unfoldable pub update_rewrite :
      RewriteEnv
      → Text
      → UpdateRewriteRequest
      → RewritesState
      → RewritesState × AppResult RewriteRow
  update_rewrite env id body s = elim (find_rewrite id s.rows) [
    | none ↦ (s, err (rewrite_not_found id))
    | some old ↦ change_rewrite env body s old id
  ]

unfoldable pub delete_rewrite :
    RewriteEnv → Text → RewritesState → RewritesState × AppResult (Unit {0})
unfolding any keep_if has_rewrite_id
delete_rewrite env id s =
    let rows = keep_if (λ r. not (has_rewrite_id id r)) s.rows in
    if not env.statement_ok
    then (s, err (database (codes "statement failed")))
    else if not (any (has_rewrite_id id) s.rows)
    then (s, err (rewrite_not_found id))
    else if env.reload_ok
    then (record { rows = rows; loaded = map rewrite_of rows }, ok tt)
    else (record s { rows = rows }, err (internal (codes "reload failed")))
