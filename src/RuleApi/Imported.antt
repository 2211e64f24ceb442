-- ===== src/RuleApi/Imported.antt =====
-- src/api/handlers/rules.rs, `import_rules`: what a transaction of an import stores.
use rust_dns_backend.Base.{
  ℕ, ◌+◌, ◌≡◌, refl, ap, sym, ◌∙◌, ◌⊎◌, inl, inr, Bool, true, false, ◌||◌, Option, some, List, [],
  ◌∷◌, ◌++◌, arith, any, length, is_nil, append_assoc, append_nil, Bool-cases, Option-cases, All,
}
use rust_dns_backend.Text.{Text, Unicode, trim}
use rust_dns_backend.Text.Laws.{text_eq_refl}
use rust_dns_backend.RuleApi.{CustomRow, RulesState}
use rust_dns_backend.RuleApi.Import.{
  RuleEntry, ImportEnv, ImportError, database_failed, no_rules, ImportResult, done, refused,
  has_rule, imported_row, insert_entries, store_entries,
}

any_append :
    {A : Type 0} (p : A → Bool) (xs ys : List A) → any p (xs ++ ys) ≡ (any p xs || any p ys)
unfolding any
any_append p [] ys = refl
any_append p (x ∷ xs) ys = ground (arith, any_append p xs ys)

abbrev pub stands_in : List CustomRow → Text → Bool
stands_in rows rule = any (has_rule rule) rows

-- No row repeats the rule of an earlier one, of the rows in front included.
abbrev pub AreNew : List CustomRow → List CustomRow → Type 0
AreNew rows [] = Unit
AreNew rows (r ∷ rs) = (stands_in rows r.rule ≡ false) × AreNew (rows ++ r ∷ []) rs

module _ ⦃u : Unicode⦄ where
  abbrev IsStored : List CustomRow → RuleEntry → Type 0
  IsStored rows e =
      (is_nil (trim e.entry_rule) ≡ true) ⊎ (stands_in rows (trim e.entry_rule) ≡ true)

  -- What the loop makes of rows, entries and the two counts.
  pub record Inserted (rows : List CustomRow) (es : List RuleEntry) (rows' : List CustomRow)
      (imported skipped : ℕ) : Type 0 where
    pub added : List CustomRow
    pub kept : rows' ≡ rows ++ added
    pub new : AreNew rows added
    pub counted : length added ≡ imported
    pub total : imported + skipped ≡ length es
    pub stored : All (IsStored rows') es

  stands_in-append :
      (rows added : List CustomRow) (rule : Text)
      → stands_in rows rule ≡ true
      → stands_in (rows ++ added) rule ≡ true
  stands_in-append rows added rule h = rw (any_append (has_rule rule) rows added, h)

  stands_in-row :
      (env : ImportEnv) (i : ℕ) (rows : List CustomRow) (rule : Text) (c : Option Text)
      → stands_in (rows ++ imported_row env i rule c ∷ []) rule ≡ true
  unfolding any
  stands_in-row env i rows rule c =
      any_append (has_rule rule) rows (imported_row env i rule c ∷ [])
      ∙ ground (arith, text_eq_refl rule)

  Inserted-skip :
      (rows : List CustomRow) (e : RuleEntry) (es : List RuleEntry) (rows' : List CustomRow)
      (a b : ℕ)
      → Inserted rows es rows' a b
      → (is_nil (trim e.entry_rule) ≡ true) ⊎ (stands_in rows (trim e.entry_rule) ≡ true)
      → Inserted rows (e ∷ es) rows' a (b + 1)
  Inserted-skip rows e es rows' a b s h = record {
    added = s.added;
    kept = s.kept;
    new = s.new;
    counted = s.counted;
    total = omega (arith, s.total);
    stored = (still h, s.stored);
  }
    where
      still :
          (is_nil (trim e.entry_rule) ≡ true) ⊎ (stands_in rows (trim e.entry_rule) ≡ true)
          → IsStored rows' e
      still (inl blank) = inl blank
      still (inr old) = inr (rw s.kept (stands_in-append rows s.added (trim e.entry_rule) old))

  Inserted-add :
      (env : ImportEnv) (i : ℕ) (rows : List CustomRow) (e : RuleEntry) (es : List RuleEntry)
      (rows' : List CustomRow) (a b : ℕ)
      → Inserted (rows ++ imported_row env i (trim e.entry_rule) e.entry_comment ∷ []) es rows' a b
      → stands_in rows (trim e.entry_rule) ≡ false
      → Inserted rows (e ∷ es) rows' (a + 1) b
  Inserted-add env i rows e es rows' a b s h =
      let rule = trim e.entry_rule in
      let r = imported_row env i rule e.entry_comment in
      let there_now = stands_in-row env i rows rule e.entry_comment in
      record {
        added = r ∷ s.added;
        kept = s.kept ∙ append_assoc rows (r ∷ []) s.added;
        new = (h, s.new);
        counted = omega (arith, s.counted);
        total = omega (arith, s.total);
        stored =
            (inr (rw s.kept (stands_in-append (rows ++ r ∷ []) s.added rule there_now)), s.stored);
      }

  insert_entries-Inserted :
      (env : ImportEnv) (i : ℕ) (es : List RuleEntry) (rows : List CustomRow) (m k : ℕ)
      {rows' : List CustomRow} {m' k' : ℕ}
      → insert_entries env i es rows m k ≡ some (rows', m', k')
      → (a b : ℕ) × (m' ≡ m + a) × (k' ≡ k + b) × Inserted rows es rows' a b
  unfolding insert_entries
  insert_entries-Inserted env i [] rows m k {rows'} {m'} {k'} h =
      let same : rows' ≡ rows = ground arith in
      (
        0,
        0,
        ground arith,
        ground arith,
        record {
          added = [];
          kept = same ∙ sym (append_nil rows);
          new = tt;
          counted = refl;
          total = omega arith;
          stored = tt;
        },
      )
  insert_entries-Inserted env i (e ∷ es) rows m k {rows'} {m'} {k'} h =
      let rule = trim e.entry_rule in
      let r = imported_row env i rule e.entry_comment in
      elim (Bool-cases (is_nil rule)) [
        | inl blank ↦
            let (a, b, p, q, s) =
              insert_entries-Inserted env (i + 1) es rows m (k + 1) {rows' = rows'} {m' = m'}
                {k' = k'} (ground (arith, blank)) in
            (a, b + 1, p, omega arith, Inserted-skip rows e es rows' a b s (inl blank))
        | inr full ↦ elim (Bool-cases (env.entry_ok i)) [
          | inr bad ↦ absurd (ground (arith, full, bad))
          | inl good ↦ elim (Bool-cases (stands_in rows rule)) [
            | inl old ↦
                let (a, b, p, q, s) =
                  insert_entries-Inserted env (i + 1) es rows m (k + 1) {rows' = rows'} {m' = m'}
                    {k' = k'} (ground (arith, full, good, old)) in
                (a, b + 1, p, omega arith, Inserted-skip rows e es rows' a b s (inr old))
            | inr fresh ↦
                let (a, b, p, q, s) =
                  insert_entries-Inserted env (i + 1) es (rows ++ r ∷ []) (m + 1) k {rows' = rows'}
                    {m' = m'} {k' = k'} (ground (arith, full, good, fresh)) in
                (a + 1, b, omega arith, q, Inserted-add env i rows e es rows' a b s fresh)
          ]
        ]
      ]

  -- An import that reports its counts has only added rows, as many as it reports, each with a rule
  -- that no row before it had; imported and skipped entries make up the total; and afterwards the rule
  -- of every entry stands in the table, unless it is blank. An import that reports an error has changed
  -- nothing.
  pub store_entries-Inserted :
      (env : ImportEnv) (es : List RuleEntry) (s : RulesState)
      → (((store_entries env es s).0 ≡ s)
          × ((x : ImportError) × ((store_entries env es s).1 ≡ refused x)))
        ⊎ ((a b : ℕ) × ((store_entries env es s).1 ≡ done a b (length es))
            × Inserted s.rows es (store_entries env es s).0.rows a b)
  unfolding store_entries
  store_entries-Inserted env es s = elim (Bool-cases (is_nil es)) [
    | inl none_left ↦ inl (nothing no_rules (ground (arith, none_left)))
    | inr some_left ↦ elim (Bool-cases env.begun) [
      | inr b ↦ inl (nothing database_failed (ground (arith, some_left, b)))
      | inl b ↦ elim (Option-cases (insert_entries env 0 es s.rows 0 0)) [
        | inl e ↦ inl (nothing database_failed (ground (arith, some_left, b, e)))
        | inr (out, e) ↦ elim (Bool-cases env.committed) [
          | inr c ↦ inl (nothing database_failed (ground (arith, some_left, b, e, c)))
          | inl c ↦
              let (m, n, p, q, ins) =
                insert_entries-Inserted env 0 es s.rows 0 0 {rows' = out.0} {m' = out.1}
                  {k' = out.2} e in
              let same : (store_entries env es s).0.rows ≡ out.0 =
                ground (arith, some_left, b, e, c) in
              inr (m, n, ground (arith, some_left, b, e, c, p, q), rw same ins)
        ]
      ]
    ]
  ]
    where
      nothing :
          (x : ImportError)
          → store_entries env es s ≡ (s, refused x)
          → ((store_entries env es s).0 ≡ s)
            × ((y : ImportError) × ((store_entries env es s).1 ≡ refused y))
      nothing x h = (
        ap (λ (r : RulesState × ImportResult). r.0) h,
        (x, ap (λ (r : RulesState × ImportResult). r.1) h),
      )
