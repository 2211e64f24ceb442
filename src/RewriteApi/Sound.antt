-- ===== src/RewriteApi/Sound.antt =====
-- src/api/handlers/rewrites.rs: what holds of the table after every request.
use rust_dns_backend.Base.{
  ◌≡◌, refl, Bool, true, false, not, some, none, List, [], ◌∷◌, map, arith, is_nil, any, keep_if,
  All, All-append, Bool-cases, Option-cases, inl, inr,
}
use rust_dns_backend.Text.{Text, Unicode, trim, to_lowercase}
use rust_dns_backend.RewriteApi.{
  RewriteRow, RewritesState, rewrite_of, RewriteEnv, CreateRewriteRequest, UpdateRewriteRequest,
  is_ip, has_domain, has_rewrite_id, repeats_domain, write_rewrites, find_rewrite, set_rewrite,
  create_rewrite, update_rewrite, delete_rewrite, updated_domain, updated_answer, change_rewrite,
}

pub data Request : Type 0 where
  create : CreateRewriteRequest → Request
  update : Text → UpdateRewriteRequest → Request
  delete : Text → Request

module _ ⦃u : Unicode⦄ where
  unfoldable pub serve : RewriteEnv → Request → RewritesState → RewritesState
  unfolding create_rewrite update_rewrite delete_rewrite
  serve env (create body) s = (create_rewrite env body s).0
  serve env (update id body) s = (update_rewrite env id body s).0
  serve env (delete id) s = (delete_rewrite env id s).0

-- Every answer is an address, no domain has two rows, and the engine has read the table.
pub record IsSound (s : RewritesState) : Type 0 where
  pub are_ips : All (λ (r : RewriteRow). is_ip r.answer ≡ true) s.rows
  pub apart : repeats_domain s.rows ≡ false
  pub in_sync : s.loaded ≡ map rewrite_of s.rows

any-keep_if :
    {A : Type 0} (p q : A → Bool) (xs : List A) → any p xs ≡ false → any p (keep_if q xs) ≡ false
unfolding any keep_if
any-keep_if p q [] h = refl
any-keep_if p q (x ∷ xs) h = ground (arith, any-keep_if p q xs)

repeats_domain-keep_if :
    (p : RewriteRow → Bool) (rows : List RewriteRow)
    → repeats_domain rows ≡ false
    → repeats_domain (keep_if p rows) ≡ false
unfolding repeats_domain keep_if
repeats_domain-keep_if p [] h = refl
repeats_domain-keep_if p (r ∷ rows) h =
    ground (arith, any-keep_if (has_domain r.domain) p rows, repeats_domain-keep_if p rows)

All-keep_if :
    {A : Type 0} (P : A → Type 0) (p : A → Bool) (xs : List A) → All P xs → All P (keep_if p xs)
unfolding keep_if
All-keep_if P p [] h = tt
All-keep_if P p (x ∷ xs) h = elim (Bool-cases (p x)) [
  | inl e ↦ rw e (h.0, All-keep_if P p xs h.1)
  | inr e ↦ rw e (All-keep_if P p xs h.1)
]

All-set_rewrite :
    (id domain answer : Text) (rows : List RewriteRow)
    → is_ip answer ≡ true
    → All (λ (r : RewriteRow). is_ip r.answer ≡ true) rows
    → All (λ (r : RewriteRow). is_ip r.answer ≡ true) (set_rewrite id domain answer rows)
unfolding set_rewrite
All-set_rewrite id domain answer [] k h = tt
All-set_rewrite id domain answer (r ∷ rows) k h = elim (Bool-cases (has_rewrite_id id r)) [
  | inl e ↦ rw e (k, All-set_rewrite id domain answer rows k h.1)
  | inr e ↦ rw e (h.0, All-set_rewrite id domain answer rows k h.1)
]

module _ (env : RewriteEnv) (reloads : env.reload_ok ≡ true) (s : RewritesState)
    (h : IsSound s) where
  write_rewrites-IsSound :
      {A : Type 0} (domain : Text) (rows : List RewriteRow) (a : A)
      → All (λ (r : RewriteRow). is_ip r.answer ≡ true) rows
      → IsSound (write_rewrites env domain rows s a).0
  unfolding write_rewrites
  write_rewrites-IsSound domain rows a ips = elim (Bool-cases env.statement_ok) [
    | inr e ↦ rw e h
    | inl e ↦ elim (Bool-cases (repeats_domain rows)) [
      | inl k ↦ rw (e, k) h
      | inr k ↦ rw (e, k, reloads) (record { are_ips = ips; apart = k; in_sync = refl })
    ]
  ]

  delete_rewrite-IsSound : (id : Text) → IsSound (delete_rewrite env id s).0
  unfolding delete_rewrite
  delete_rewrite-IsSound id = elim (Bool-cases env.statement_ok) [
    | inr e ↦ rw e h
    | inl e ↦ elim (Bool-cases (any (has_rewrite_id id) s.rows)) [
      | inr k ↦ rw (e, k) h
      | inl k ↦
          rw (e, k, reloads)
            (record {
              are_ips = All-keep_if _ (λ r. not (has_rewrite_id id r)) s.rows h.are_ips;
              apart = repeats_domain-keep_if (λ r. not (has_rewrite_id id r)) s.rows h.apart;
              in_sync = refl;
            })
    ]
  ]

  module _ ⦃u : Unicode⦄ where
    create_rewrite-IsSound : (body : CreateRewriteRequest) → IsSound (create_rewrite env body s).0
    unfolding create_rewrite
    create_rewrite-IsSound body =
        let domain = to_lowercase (trim body.new_domain) in
        let answer = trim body.new_answer in
        elim (Bool-cases (is_nil domain)) [
          | inl e ↦ rw e h
          | inr e ↦ elim (Bool-cases (is_nil answer)) [
            | inl k ↦ rw (e, k) h
            | inr k ↦ elim (Bool-cases (is_ip answer)) [
              | inr i ↦ rw (e, k, i) h
              | inl i ↦
                  rw (e, k, i)
                    (write_rewrites-IsSound domain _ _ (All-append _ s.rows _ h.are_ips (i, tt)))
            ]
          ]
        ]

    change_rewrite-IsSound :
        (body : UpdateRewriteRequest) (old : RewriteRow) (id : Text)
        → IsSound (change_rewrite env body s old id).0
    unfolding change_rewrite
    change_rewrite-IsSound body old id =
        let domain = updated_domain body.domain_update old.domain in
        let answer = updated_answer body.answer_update old.answer in
        elim (Bool-cases (is_ip answer)) [
          | inr i ↦ rw i h
          | inl i ↦ rw i (
              write_rewrites-IsSound domain (set_rewrite id domain answer s.rows) _
                (All-set_rewrite id domain answer s.rows i h.are_ips))
        ]

    update_rewrite-change_rewrite :
        (id : Text) (body : UpdateRewriteRequest) {old : RewriteRow}
        → find_rewrite id s.rows ≡ some old
        → update_rewrite env id body s ≡ change_rewrite env body s old id
    unfolding update_rewrite
    update_rewrite-change_rewrite id body e = ground (arith, e)

    update_rewrite-missing :
        (id : Text) (body : UpdateRewriteRequest)
        → find_rewrite id s.rows ≡ none
        → (update_rewrite env id body s).0 ≡ s
    unfolding update_rewrite
    update_rewrite-missing id body e = ground (arith, e)

    update_rewrite-IsSound :
        (id : Text) (body : UpdateRewriteRequest) → IsSound (update_rewrite env id body s).0
    update_rewrite-IsSound id body = elim (Option-cases (find_rewrite id s.rows)) [
      | inl e ↦ rw (update_rewrite-missing id body e) h
      | inr (old, e) ↦
          rw (update_rewrite-change_rewrite id body e) (change_rewrite-IsSound body old id)
    ]

-- After every request that creates, updates or deletes a rewrite, each answer in the table reads as an
-- address, no domain has two rows, and the filter engine has read the table, if all this held before;
-- also where the request fails. The reload is taken to succeed.
pub serve-IsSound :
    ⦃u : Unicode⦄ (env : RewriteEnv) (r : Request) (s : RewritesState)
    → env.reload_ok ≡ true
    → IsSound s
    → IsSound (serve env r s)
unfolding serve
serve-IsSound env (create body) s reloads h = create_rewrite-IsSound env reloads s h body
serve-IsSound env (update id body) s reloads h = update_rewrite-IsSound env reloads s h id body
serve-IsSound env (delete id) s reloads h = delete_rewrite-IsSound env reloads s h id
