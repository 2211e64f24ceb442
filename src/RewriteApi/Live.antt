-- ===== src/RewriteApi/Live.antt =====
-- src/api/handlers/rewrites.rs with src/dns/filter.rs: from a request to the answer for a name.
use rust_dns_backend.Base.{
  ◌≡◌, refl, ap, sym, ◌∙◌, true, false, some, List, [], ◌∷◌, ◌++◌, map, arith, if◌then◌else◌,
}
use rust_dns_backend.Text.{Text, Unicode, codes, text_eq, trim, to_lowercase}
use rust_dns_backend.Error.{ok}
use rust_dns_backend.Rules.{RegexCrate}
use rust_dns_backend.Filter.{FilterEngine, FilterDb, is_on, reload, check_rewrite}
use rust_dns_backend.Filter.Rewrites.{last_answer}
use rust_dns_backend.Filter.Laws.{reload-check_rewrite}
use rust_dns_backend.RewriteApi.{
  RewriteRow, RewritesState, rewrite_of, RewriteEnv, CreateRewriteRequest, is_ip, write_rewrites,
  create_rewrite, new_rewrite,
}

module _ ⦃u : Unicode⦄ where
  last_answer-append :
      (name : Text) (rows : List (Text × Text)) (domain answer : Text)
      → last_answer name (rows ++ (domain, answer) ∷ [])
        ≡ (if text_eq (to_lowercase domain) name then some answer else last_answer name rows)
  unfolding last_answer
  last_answer-append name [] domain answer = refl
  last_answer-append name ((d, a) ∷ rows) domain answer =
      rw (last_answer-append name rows domain answer) (ground arith)

  map-append :
      {A B : Type 0} (f : A → B) (xs : List A) (x : A) → map f (xs ++ x ∷ []) ≡ map f xs ++ f x ∷ []
  map-append f [] x = refl
  map-append f (y ∷ xs) x = ap (λ (t : List _). f y ∷ t) (map-append f xs x)

  write_rewrites-ok :
      {A : Type 0} (env : RewriteEnv) (domain : Text) (rows : List RewriteRow) (s : RewritesState)
      (a : A) {b : A}
      → (write_rewrites env domain rows s a).1 ≡ ok b
      → (a ≡ b) × ((write_rewrites env domain rows s a).0.rows ≡ rows)
  unfolding write_rewrites
  write_rewrites-ok env domain rows s a h = ground arith

  -- What a request that succeeds has stored.
  record Created (body : CreateRewriteRequest) (s s' : RewritesState) (row : RewriteRow)
      : Type 0 where
    domain_kept : row.domain ≡ to_lowercase (trim body.new_domain)
    answer_kept : row.answer ≡ trim body.new_answer
    checked : is_ip row.answer ≡ true
    stored : s'.rows ≡ s.rows ++ row ∷ []

  create_rewrite-write_rewrites :
      (env : RewriteEnv) (body : CreateRewriteRequest) (s : RewritesState) {row : RewriteRow}
      → (create_rewrite env body s).1 ≡ ok row
      → (is_ip (new_rewrite env body).answer ≡ true)
        × (create_rewrite env body s
            ≡ write_rewrites env
                (new_rewrite env body).domain
                (s.rows ++ new_rewrite env body ∷ [])
                s
                (new_rewrite env body))
  unfolding create_rewrite
  create_rewrite-write_rewrites env body s h = (ground arith, ground arith)

  create_rewrite-Created :
      (env : RewriteEnv) (body : CreateRewriteRequest) (s : RewritesState) {row : RewriteRow}
      → (create_rewrite env body s).1 ≡ ok row
      → Created body s (create_rewrite env body s).0 row
  create_rewrite-Created env body s {row} h =
      let made = new_rewrite env body in
      let (ip, e) = create_rewrite-write_rewrites env body s h in
      let (same, rows) =
        write_rewrites-ok env made.domain (s.rows ++ made ∷ []) s made (rw e at h) in
      record {
        domain_kept = ap (λ (r : RewriteRow). r.domain) (sym same);
        answer_kept = ap (λ (r : RewriteRow). r.answer) (sym same);
        checked = rw (← same) ip;
        stored = rw (e, ← same) rows;
      }

  -- A rewrite that was created, for a domain `d` and an address: once the engine has read the table
  -- again, with safe search off, the name `d`, in any case, is answered with that address, and every
  -- other name as the rows before it say. The lower case of `d` is its own lower case.
  pub create_rewrite-check_rewrite :
      {S : Type 0} ⦃re : RegexCrate S⦄ (env : RewriteEnv) (body : CreateRewriteRequest)
      (s : RewritesState) (row : RewriteRow) (db : FilterDb) (engine after : FilterEngine S)
      (name : Text)
      → (create_rewrite env body s).1 ≡ ok row
      → reload db engine ≡ (true, after)
      → db.dns_rewrites ≡ some (map rewrite_of (create_rewrite env body s).0.rows)
      → is_on db (codes "safe_search_enabled") ≡ false
      → to_lowercase (to_lowercase (trim body.new_domain)) ≡ to_lowercase (trim body.new_domain)
      → (is_ip row.answer ≡ true)
        × (check_rewrite after name ≡ (
            if text_eq (to_lowercase (trim body.new_domain)) (to_lowercase name)
            then some (trim body.new_answer)
            else last_answer (to_lowercase name) (map rewrite_of s.rows)))
  create_rewrite-check_rewrite {S} env body s row db engine after name h r k off low =
      let c = create_rewrite-Created env body s h in
      let n = to_lowercase name in
      let rows = (create_rewrite env body s).0.rows in
      let raw = reload-check_rewrite db engine after (map rewrite_of rows) name r k in
      let found : check_rewrite after name ≡ last_answer n (map rewrite_of (s.rows ++ row ∷ [])) =
        rw (off, c.stored) at raw in
      let last =
        found
        ∙ (ap (last_answer n) (map-append rewrite_of s.rows row)
            ∙ last_answer-append n (map rewrite_of s.rows) row.domain row.answer) in
      (c.checked, rw (c.domain_kept, low, c.answer_kept) at last)
