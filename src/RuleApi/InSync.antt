-- ===== src/RuleApi/InSync.antt =====
-- src/api/handlers/rules.rs: what the filter engine has loaded is what the table holds.
use rust_dns_backend.Base.{
  ◌≡◌, refl, ap, sym, ◌∙◌, Bool, true, false, ◌||◌, some, List, [], ◌∷◌, map, arith, In, here,
  there, Bool-cases, Option-cases, inl, inr, if◌then◌else◌,
}
use rust_dns_backend.Text.{Text, Unicode}
use rust_dns_backend.Text.Laws.{text_eq→≡}
use rust_dns_backend.RuleApi.{
  CustomRow, engine_rule, RulesState, RequestEnv, reload_after, CreateRuleRequest, create_rule,
  has_id, delete_rule, bulk_action, UpdateRuleRequest, find_row, updated_row, update_rule,
  toggle_rule, is_some, flips,
}

-- The handlers that change the table, without the import.
pub data Request : Type 0 where
  create : CreateRuleRequest → Request
  delete : Text → Request
  bulk : List Text → Text → Request
  update : Text → UpdateRuleRequest → Request
  toggle : Text → Bool → Request

module _ ⦃u : Unicode⦄ where
  unfoldable pub serve : RequestEnv → Request → RulesState → RulesState
  unfolding create_rule delete_rule bulk_action update_rule toggle_rule
  serve env (create body) s = (create_rule env body s).0
  serve env (delete id) s = (delete_rule env id s).0
  serve env (bulk ids action) s = (bulk_action env ids action s).0
  serve env (update id body) s = (update_rule env id body s).0
  serve env (toggle id enabled) s = (toggle_rule env id enabled s).0

-- The engine has loaded the rows of the table.
abbrev pub InSync : RulesState → Type 0
InSync s = s.loaded ≡ map engine_rule s.rows

-- No two rows share an id.
abbrev pub HasKey : List CustomRow → Type 0
HasKey rows = (q r : CustomRow) → In q rows → In r rows → q.id ≡ r.id → q ≡ r

module _ (env : RequestEnv) (reloads : env.reload_ok ≡ true) where
  reload_after-InSync :
      {A : Type 0} (rows : List CustomRow) (s : RulesState) (a : A)
      → InSync (reload_after env rows s a).0
  unfolding reload_after
  reload_after-InSync rows s a = rw reloads refl

  module _ (s : RulesState) (h : InSync s) where
    delete_rule-InSync : (id : Text) → InSync (delete_rule env id s).0
    unfolding delete_rule reload_after
    delete_rule-InSync id = ground arith

    toggle_rule-InSync : (id : Text) (enabled : Bool) → InSync (toggle_rule env id enabled s).0
    unfolding toggle_rule reload_after
    toggle_rule-InSync id enabled = ground arith

    bulk_action-InSync : (ids : List Text) (action : Text) → InSync (bulk_action env ids action s).0
    unfolding bulk_action reload_after
    bulk_action-InSync ids action = ground arith

    module _ ⦃u : Unicode⦄ where
      create_rule-InSync : (body : CreateRuleRequest) → InSync (create_rule env body s).0
      unfolding create_rule reload_after
      create_rule-InSync body = ground arith

map-In :
    {A B : Type 0} (f g : A → B) (xs : List A)
    → ((x : A) → In x xs → f x ≡ g x)
    → map f xs ≡ map g xs
map-In f g [] h = refl
map-In f g (x ∷ xs) h =
    rw (h x here) (ap (λ (t : List _). g x ∷ t) (map-In f g xs (λ y m. h y (there m))))

map-map :
    {A B C : Type 0} (f : A → B) (g : B → C) (xs : List A)
    → map g (map f xs) ≡ map (λ x. g (f x)) xs
map-map f g [] = refl
map-map f g (x ∷ xs) = ap (λ (t : List _). g (f x) ∷ t) (map-map f g xs)

pub find_row-In :
    (id : Text) (rows : List CustomRow) {r : CustomRow}
    → find_row id rows ≡ some r
    → In r rows × (r.id ≡ id)
unfolding find_row
find_row-In id [] h = cc
find_row-In id (q ∷ rows) {r} h = elim (Bool-cases (has_id id q)) [
  | inl e ↦
      let same : q ≡ r = ground (arith, e) in (rw same here, rw (← same) (text_eq→≡ q.id id e))
  | inr e ↦ let (m, k) = find_row-In id rows {r = r} (rw e at h) in (there m, k)
]

module _ ⦃u : Unicode⦄ (id : Text) (body : UpdateRuleRequest) where
  abbrev pub updated_rows : List CustomRow → List CustomRow
  updated_rows rows = map (λ r. if has_id id r then updated_row body r else r) rows

  -- The test for a reload, on the row that is updated.
  abbrev reload_needed : CustomRow → Bool
  reload_needed old =
      (flips body.enabled_update old.is_enabled || is_some body.expires_update)
      || is_some body.rule_update

  engine_rule-quiet :
      (old : CustomRow)
      → reload_needed old ≡ false
      → engine_rule (updated_row body old) ≡ engine_rule old
  unfolding updated_row
  engine_rule-quiet old h = ground arith

  engine_rule-updated :
      (rows : List CustomRow) (old : CustomRow)
      → HasKey rows
      → In old rows
      → old.id ≡ id
      → reload_needed old ≡ false
      → map engine_rule (updated_rows rows) ≡ map engine_rule rows
  engine_rule-updated rows old key m same quiet =
      map-map (λ r. if has_id id r then updated_row body r else r) engine_rule rows
      ∙ map-In (λ r. engine_rule (if has_id id r then updated_row body r else r)) engine_rule rows
          each
    where
      each :
          (r : CustomRow)
          → In r rows
          → engine_rule (if has_id id r then updated_row body r else r) ≡ engine_rule r
      each r n = elim (Bool-cases (has_id id r)) [
        | inr e ↦ rw e refl
        | inl e ↦
            let is_old : r ≡ old = key r old n m (text_eq→≡ r.id id e ∙ sym same) in
            let changed : engine_rule (updated_row body r) ≡ engine_rule r =
              rw is_old (engine_rule-quiet old quiet) in
            rw e changed
      ]

  update_rule-InSync :
      (env : RequestEnv) (s : RulesState)
      → env.reload_ok ≡ true
      → HasKey s.rows
      → InSync s
      → InSync (update_rule env id body s).0
  unfolding update_rule reload_after
  update_rule-InSync env s reloads key h = elim (Option-cases (find_row id s.rows)) [
    | inl e ↦ ground (arith, e)
    | inr (old, e) ↦
        let (m, same) = find_row-In id s.rows e in
        elim (Bool-cases (reload_needed old)) [
          | inl k ↦ ground (arith, e, k)
          | inr k ↦ ground (arith, e, k, engine_rule-updated s.rows old key m same k)
        ]
  ]

-- Every request that creates, deletes, updates or toggles rules, and every bulk action, leaves the
-- filter engine with the rules of the table, if it had them before: also where the request fails, and
-- where an update sees no need of a reload. The reload is taken to succeed, and the table to have no
-- two rows with the same id.
pub serve-InSync :
    ⦃u : Unicode⦄ (env : RequestEnv) (r : Request) (s : RulesState)
    → env.reload_ok ≡ true
    → HasKey s.rows
    → InSync s
    → InSync (serve env r s)
unfolding serve
serve-InSync env (create body) s reloads key h = create_rule-InSync env reloads s h body
serve-InSync env (delete id) s reloads key h = delete_rule-InSync env reloads s h id
serve-InSync env (bulk ids action) s reloads key h = bulk_action-InSync env reloads s h ids action
serve-InSync env (update id body) s reloads key h = update_rule-InSync id body env s reloads key h
serve-InSync env (toggle id enabled) s reloads key h = toggle_rule-InSync env reloads s h id enabled
