-- ===== src/RuleApi/Protected.antt =====
-- src/api/handlers/rules.rs: the rows that come from filter lists.
use rust_dns_backend.Base.{
  ◌≡◌, refl, ap, sym, ◌∙◌, Bool, true, false, not, ◌&&◌, some, List, [], ◌∷◌, ◌++◌, map, arith,
  keep_if, length, In, here, there, Bool-cases, Option-cases, inl, inr, if◌then◌else◌,
}
use rust_dns_backend.Text.{Text, Unicode, codes, starts_with, trim}
use rust_dns_backend.Text.Laws.{text_eq→≡}
use rust_dns_backend.RuleApi.{
  CustomRow, RulesState, RequestEnv, is_imported, reload_after, CreateRuleRequest, create_rule,
  has_id, is_selected, set_enabled, bulk_action, bulk_rows, UpdateRuleRequest, find_row,
  updated_row, update_rule, toggle_rule, with_enabled, new_row,
}
use rust_dns_backend.RuleApi.InSync.{
  Request, create, delete, bulk, update, toggle, serve, HasKey, find_row-In, updated_rows,
}

-- The rows that subscriptions have stored.
abbrev pub imported_rows : List CustomRow → List CustomRow
imported_rows rows = keep_if is_imported rows

keep_if-map :
    {A : Type 0} (p : A → Bool) (f : A → A) (xs : List A)
    → ((x : A) → In x xs → p (f x) ≡ p x)
    → ((x : A) → In x xs → p x ≡ true → f x ≡ x)
    → keep_if p (map f xs) ≡ keep_if p xs
unfolding keep_if
keep_if-map p f [] h k = refl
keep_if-map p f (x ∷ xs) h k =
    let rest = keep_if-map p f xs (λ y m. h y (there m)) (λ y m. k y (there m)) in
    elim (Bool-cases (p x)) [
      | inl e ↦ rw (k x here e, e) (ap (λ (t : List _). x ∷ t) rest)
      | inr e ↦ rw (h x here, e) rest
    ]

keep_if-drop :
    {A : Type 0} (p q : A → Bool) (xs : List A)
    → ((x : A) → p x ≡ true → q x ≡ true)
    → keep_if p (keep_if q xs) ≡ keep_if p xs
unfolding keep_if
keep_if-drop p q [] h = refl
keep_if-drop p q (x ∷ xs) h = elim (Bool-cases (q x)) [
  | inl e ↦ rw e (unfold keep_if in ground (arith, keep_if-drop p q xs h))
  | inr e ↦
      let other : p x ≡ false = not_p (p x) (λ k. ground (arith, h x k)) in
      rw (e, other) (keep_if-drop p q xs h)
]
  where
    not_p : (b : Bool) → (b ≡ true → ⊥) → b ≡ false
    not_p true h = absurd (h refl)
    not_p false h = refl

keep_if-last :
    {A : Type 0} (p : A → Bool) (xs : List A) (y : A)
    → p y ≡ false
    → keep_if p (xs ++ y ∷ []) ≡ keep_if p xs
unfolding keep_if
keep_if-last p [] y h = rw h
keep_if-last p (x ∷ xs) y h = ground (arith, keep_if-last p xs y h)

selected-own : (ids : List Text) (r : CustomRow) → is_selected ids r ≡ true → is_imported r ≡ false
unfolding is_selected
selected-own ids r h = ground arith

set_enabled-imported :
    (p : CustomRow → Bool) (b : Bool) (rows : List CustomRow)
    → ((r : CustomRow) → p r ≡ true → is_imported r ≡ false)
    → imported_rows (set_enabled p b rows) ≡ imported_rows rows
unfolding set_enabled
set_enabled-imported p b rows own =
    keep_if-map is_imported (λ r. if p r then with_enabled b r else r) rows (λ r m. same_kind r)
      (λ r m k. unchanged r k)
  where
    same_kind : (r : CustomRow) → is_imported (if p r then with_enabled b r else r) ≡ is_imported r
    same_kind r = elim (Bool-cases (p r)) [
      | inl e ↦ rw e (unfold is_imported in refl)
      | inr e ↦ rw e refl
    ]

    unchanged : (r : CustomRow) → is_imported r ≡ true → (if p r then with_enabled b r else r) ≡ r
    unchanged r k = elim (Bool-cases (p r)) [
      | inl e ↦ absurd (ground (arith, own r e))
      | inr e ↦ rw e refl
    ]

bulk_rows-imported :
    (ids : List Text) (action : Text) (rows : List CustomRow) {rows' : List CustomRow}
    → bulk_rows ids action rows ≡ some rows'
    → imported_rows rows' ≡ imported_rows rows
unfolding bulk_rows
bulk_rows-imported ids action rows {rows'} h =
    let enabled = set_enabled-imported (is_selected ids) true rows (selected-own ids) in
    let disabled = set_enabled-imported (is_selected ids) false rows (selected-own ids) in
    let dropped =
      keep_if-drop is_imported (λ (r : CustomRow). not (is_selected ids r)) rows
        (λ r k. kept r k) in
    ground (arith, enabled, disabled, dropped)
  where
    kept : (r : CustomRow) → is_imported r ≡ true → not (is_selected ids r) ≡ true
    kept r k = elim (Bool-cases (is_selected ids r)) [
      | inl e ↦ absurd (ground (arith, selected-own ids r e))
      | inr e ↦ rw e refl
    ]

reload_after-rows :
    {A : Type 0} (env : RequestEnv) (rows : List CustomRow) (s : RulesState) (a : A)
    → (reload_after env rows s a).0.rows ≡ rows
unfolding reload_after
reload_after-rows env rows s a = ground arith

module _ (env : RequestEnv) (s : RulesState) where
  toggle_rule-imported :
      (id : Text) (enabled : Bool)
      → imported_rows (toggle_rule env id enabled s).0.rows ≡ imported_rows s.rows
  unfolding toggle_rule
  toggle_rule-imported id enabled =
      let selected = λ (r : CustomRow). has_id id r && not (is_imported r) in
      let kept = set_enabled-imported selected enabled s.rows (λ r k. own r k) in
      ground (arith, kept, reload_after-rows env (set_enabled selected enabled s.rows) s enabled)
    where
      own : (r : CustomRow) → (has_id id r && not (is_imported r)) ≡ true → is_imported r ≡ false
      own r k = ground arith

  bulk_action-imported :
      (ids : List Text) (action : Text)
      → imported_rows (bulk_action env ids action s).0.rows ≡ imported_rows s.rows
  unfolding bulk_action
  bulk_action-imported ids action = elim (Option-cases (bulk_rows ids action s.rows)) [
    | inl e ↦ ground (arith, e)
    | inr (rows, e) ↦ ground (
      arith,
      e,
      bulk_rows-imported ids action s.rows e,
      reload_after-rows env rows s (length (keep_if (is_selected ids) s.rows)),
    )
  ]

  module _ ⦃u : Unicode⦄ where
    create_rule-imported :
        (body : CreateRuleRequest)
        → starts_with (codes "filter:") env.username ≡ false
        → imported_rows (create_rule env body s).0.rows ≡ imported_rows s.rows
    unfolding create_rule
    create_rule-imported body h =
        let r = new_row env (trim body.new_rule) body in
        let own : is_imported r ≡ false = unfold is_imported in h in
        let kept = keep_if-last is_imported s.rows r own in
        ground (arith, kept, reload_after-rows env (s.rows ++ r ∷ []) s env.uuid)

    updated-imported :
        (id : Text) (body : UpdateRuleRequest) (old : CustomRow)
        → HasKey s.rows
        → In old s.rows
        → old.id ≡ id
        → is_imported old ≡ false
        → imported_rows (updated_rows id body s.rows) ≡ imported_rows s.rows
    updated-imported id body old key m same own =
        keep_if-map is_imported (λ r. if has_id id r then updated_row body r else r) s.rows
          (λ r n. same_kind r) unchanged
      where
        same_kind :
            (r : CustomRow)
            → is_imported (if has_id id r then updated_row body r else r) ≡ is_imported r
        same_kind r = elim (Bool-cases (has_id id r)) [
          | inl e ↦ rw e (unfold is_imported updated_row in refl)
          | inr e ↦ rw e refl
        ]

        unchanged :
            (r : CustomRow)
            → In r s.rows
            → is_imported r ≡ true
            → (if has_id id r then updated_row body r else r) ≡ r
        unchanged r n k = elim (Bool-cases (has_id id r)) [
          | inr e ↦ rw e refl
          | inl e ↦
              let is_old : r ≡ old = key r old n m (text_eq→≡ r.id id e ∙ sym same) in
              let bad : is_imported r ≡ false = rw is_old own in absurd (ground arith)
        ]

    update_rule-imported :
        (id : Text) (body : UpdateRuleRequest)
        → HasKey s.rows
        → imported_rows (update_rule env id body s).0.rows ≡ imported_rows s.rows
    unfolding update_rule
    update_rule-imported id body key = elim (Option-cases (find_row id s.rows)) [
      | inl e ↦ ground (arith, e)
      | inr (old, e) ↦
          let (m, same) = find_row-In id s.rows e in
          elim (Bool-cases (is_imported old)) [
            | inl k ↦ ground (arith, e, k)
            | inr k ↦ ground (
              arith,
              e,
              k,
              updated-imported id body old key m same k,
              reload_after-rows env (updated_rows id body s.rows) s true,
            )
          ]
    ]

abbrev pub IsDelete : Request → Type 0
IsDelete (delete id) = Unit
IsDelete _ = ⊥

-- No request that creates, updates or toggles a rule, and no bulk action, changes, adds or removes a
-- row that a filter list has stored, whatever ids it names. The user's name does not begin like the
-- mark of a list, and no two rows have the same id. The request that deletes a single rule is left
-- out.
pub serve-imported_rows :
    ⦃u : Unicode⦄ (env : RequestEnv) (r : Request) (s : RulesState)
    → ¬ IsDelete r
    → starts_with (codes "filter:") env.username ≡ false
    → HasKey s.rows
    → imported_rows (serve env r s).rows ≡ imported_rows s.rows
unfolding serve
serve-imported_rows env (create body) s d n key = create_rule-imported env s body n
serve-imported_rows env (delete id) s d n key = absurd (d tt)
serve-imported_rows env (bulk ids action) s d n key = bulk_action-imported env s ids action
serve-imported_rows env (update id body) s d n key = update_rule-imported env s id body key
serve-imported_rows env (toggle id enabled) s d n key = toggle_rule-imported env s id enabled
