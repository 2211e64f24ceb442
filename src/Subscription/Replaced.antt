-- ===== src/Subscription/Replaced.antt =====
-- src/dns/subscription.rs, `sync_filter_list`: a list is replaced as a whole or not at all.
use rust_dns_backend.Base.{
  ℕ, zero, suc, ◌+◌, ◌-◌, ◌≤◌, ◌≡◌, ◌≢◌, refl, ap, sym, ◌∙◌, ◌⊎◌, inl, inr, Bool, true, false, not,
  ◌||◌, none, some, List, [], ◌∷◌, ◌++◌, arith, append_assoc, append_nil, any, keep_if, length,
  Bool-cases, Option-cases, if◌then◌else◌,
}
use rust_dns_backend.Text.{Text, Unicode, text_eq, codes}
use rust_dns_backend.Text.Laws.{text_eq→≡, text_eq_iff}
use rust_dns_backend.Subscription.Sync.{
  RuleRow, delete_rules, insert_row, insert_rows, chunks_from, chunks, Outcomes, rows_of,
  insert_chunks, replaced_rows, RuleTables, store_list, filter_prefix, batch_limit,
}

abbrev concat : {A : Type 0} → List (List A) → List A
concat [] = []
concat (x ∷ xs) = x ++ concat xs

concat-chunks_from :
    {A : Type 0} (size left : ℕ) (chunk xs : List A)
    → concat (chunks_from size left chunk xs) ≡ chunk ++ xs
unfolding chunks_from
concat-chunks_from size left [] [] = refl
concat-chunks_from size left (c ∷ cs) [] = refl
concat-chunks_from size zero chunk (x ∷ xs) =
    ap (λ (r : List _). chunk ++ r) (concat-chunks_from size (size - 1) (x ∷ []) xs)
concat-chunks_from size (suc left) chunk (x ∷ xs) =
    concat-chunks_from size left (chunk ++ x ∷ []) xs ∙ append_assoc chunk (x ∷ []) xs

-- Identifiers are new: they differ from one another and from those of the rows.
abbrev has_id : Text → List RuleRow → Bool
has_id id rows = any (λ (x : RuleRow). text_eq x.row_id id) rows

pub record AreFresh (o : Outcomes) (rows : List RuleRow) : Type 0 where
  pub distinct : (i j : ℕ) → o.uuid i ≡ o.uuid j → i ≡ j
  pub unused : (i : ℕ) → has_id (o.uuid i) rows ≡ false

any_append :
    {A : Type 0} (p : A → Bool) (xs ys : List A) → any p (xs ++ ys) ≡ (any p xs || any p ys)
unfolding any
any_append p [] ys = refl
any_append p (x ∷ xs) ys = ground (arith, any_append p xs ys)

any-keep_if :
    {A : Type 0} (p q : A → Bool) (xs : List A) → any p xs ≡ false → any p (keep_if q xs) ≡ false
unfolding any keep_if
any-keep_if p q [] h = refl
any-keep_if p q (x ∷ xs) h = ground (arith, any-keep_if p q xs)

-- Rows from the identifier `i` on, after rows that have none of these.
abbrev From : Outcomes → ℕ → List RuleRow → Type 0
From o i rows = (j : ℕ) → i ≤ j → has_id (o.uuid j) rows ≡ false

module _ (o : Outcomes) (creator : Text) (distinct : (i j : ℕ) → o.uuid i ≡ o.uuid j → i ≡ j) where
  abbrev row : ℕ → Text → RuleRow
  row i r = record {
    row_id = o.uuid i;
    rule = r;
    is_enabled = true;
    created_by = creator;
    created_at = o.now;
  }

  insert_row-fresh :
      (i : ℕ) (r : Text) (rows : List RuleRow)
      → has_id (o.uuid i) rows ≡ false
      → insert_row (row i r) rows ≡ rows ++ row i r ∷ []
  unfolding insert_row
  insert_row-fresh i r rows h = rw h

  other_id : (i j : ℕ) → suc i ≤ j → text_eq (o.uuid i) (o.uuid j) ≡ false
  other_id i j h = elim (Bool-cases (text_eq (o.uuid i) (o.uuid j))) [
    | inr e ↦ e
    | inl e ↦
        let same : i ≡ j = distinct i j (text_eq→≡ (o.uuid i) (o.uuid j) e) in absurd (omega arith)
  ]

  From-row :
      (i : ℕ) (r : Text) (rows : List RuleRow)
      → From o i rows
      → From o (i + 1) (rows ++ row i r ∷ [])
  unfolding any
  From-row i r rows h j le =
      any_append (λ (x : RuleRow). text_eq x.row_id (o.uuid j)) rows (row i r ∷ [])
      ∙ rw (h j (omega arith), other_id i j (omega arith)) refl

  insert_rows-append :
      (i : ℕ) (rules : List Text) (rows : List RuleRow)
      → From o i rows
      → (insert_rows (rows_of o creator i rules) rows ≡ rows ++ rows_of o creator i rules)
        × From o (i + length rules) (rows ++ rows_of o creator i rules)
  unfolding insert_rows rows_of
  insert_rows-append i [] rows h = rw (append_nil rows) (refl, λ j le. h j (omega arith))
  insert_rows-append i (r ∷ rs) rows h =
      let (all, next) =
        insert_rows-append (i + 1) rs (rows ++ row i r ∷ []) (From-row i r rows h) in
      let assoc = append_assoc rows (row i r ∷ []) (rows_of o creator (i + 1) rs) in
      (
        ap (insert_rows (rows_of o creator (i + 1) rs))
              (insert_row-fresh i r rows (h i (omega arith)))
            ∙ (all ∙ assoc),
        λ j le. rw (← assoc) (next j (omega arith)),
      )

  rows_of-append :
      (i : ℕ) (xs ys : List Text)
      → rows_of o creator i (xs ++ ys)
        ≡ rows_of o creator i xs ++ rows_of o creator (i + length xs) ys
  unfolding rows_of
  rows_of-append i [] ys = ap (λ (k : ℕ). rows_of o creator k ys) (omega arith)
  rows_of-append i (x ∷ xs) ys =
      let shift : i + 1 + length xs ≡ i + suc (length xs) = omega arith in
      ap (λ (rest : List RuleRow). row i x ∷ rest)
        (rows_of-append (i + 1) xs ys
          ∙ ap (λ (k : ℕ). rows_of o creator (i + 1) xs ++ rows_of o creator k ys) shift)

  insert_chunks-append :
      (batch next : ℕ) (cs : List (List Text)) (rows : List RuleRow) {rows' : List RuleRow}
      → From o next rows
      → insert_chunks o creator batch next cs rows ≡ some rows'
      → rows' ≡ rows ++ rows_of o creator next (concat cs)
  unfolding insert_chunks
  insert_chunks-append batch next [] rows {rows'} h e =
      let same : rows' ≡ rows = ground arith in same ∙ sym (append_nil rows)
  insert_chunks-append batch next (c ∷ cs) rows h e = elim (Bool-cases (o.inserted batch)) [
    | inr bad ↦ absurd (ground (arith, bad))
    | inl good ↦
        let (here, fresh) = insert_rows-append next c rows h in
        let rest =
          insert_chunks-append (batch + 1) (next + length c) cs (rows ++ rows_of o creator next c)
            fresh (rw here at (rw good at e)) in
        rest
        ∙ (append_assoc rows (rows_of o creator next c)
              (rows_of o creator (next + length c) (concat cs))
            ∙ ap (λ (t : List RuleRow). rows ++ t) (sym (rows_of-append next c (concat cs))))
  ]

  delete_rules-unused :
      (j : ℕ) (rows : List RuleRow)
      → has_id (o.uuid j) rows ≡ false
      → has_id (o.uuid j) (delete_rules creator rows) ≡ false
  unfolding delete_rules
  delete_rules-unused j rows h =
      any-keep_if (λ (x : RuleRow). text_eq x.row_id (o.uuid j))
        (λ (x : RuleRow). not (text_eq x.created_by creator)) rows h

  -- The rows that a commit leaves.
  replaced_rows-append :
      (rules : List Text) (rows : List RuleRow) {rows' : List RuleRow}
      → From o 0 rows
      → replaced_rows o creator rules rows ≡ some rows'
      → rows' ≡ delete_rules creator rows ++ rows_of o creator 0 rules
  unfolding replaced_rows chunks
  replaced_rows-append rules rows {rows'} h e =
      let base = delete_rules creator rows in
      let cs = chunks batch_limit rules in
      let all : concat cs ≡ rules = concat-chunks_from batch_limit batch_limit [] rules in
      let base_fresh : From o 0 base = λ j le. delete_rules-unused j rows (h j le) in
      elim (Option-cases (insert_chunks o creator 0 0 cs base)) [
        | inl n ↦ absurd (ground (arith, n))
        | inr (r, k) ↦
            let same : r ≡ rows' = ground (arith, k) in
            sym same
            ∙ (insert_chunks-append 0 0 cs base base_fresh k
                ∙ ap (λ (x : List Text). base ++ rows_of o creator 0 x) all)
      ]

-- `kept` are the rows of `rows` that others than the creator made, in their order.
pub data Keeps (creator : Text) : List RuleRow → List RuleRow → Type 0 where
  none_left : Keeps creator [] []
  another :
      (r : RuleRow) {rows kept : List RuleRow}
      → r.created_by ≢ creator
      → Keeps creator rows kept
      → Keeps creator (r ∷ rows) (r ∷ kept)
  own :
      (r : RuleRow) {rows kept : List RuleRow}
      → r.created_by ≡ creator
      → Keeps creator rows kept
      → Keeps creator (r ∷ rows) kept

delete_rules-Keeps :
    (creator : Text) (rows : List RuleRow) → Keeps creator rows (delete_rules creator rows)
unfolding delete_rules keep_if
delete_rules-Keeps creator [] = none_left
delete_rules-Keeps creator (r ∷ rows) = elim (Bool-cases (text_eq r.created_by creator)) [
  | inl e ↦ rw e (own r (text_eq→≡ r.created_by creator e) (delete_rules-Keeps creator rows))
  | inr e ↦ rw e (
      another r
        (λ same. let k = (text_eq_iff r.created_by creator).1 same in absurd (ground (arith, k)))
        (delete_rules-Keeps creator rows))
]

module _ ⦃u : Unicode⦄ where
  -- The rules of a list are replaced as a whole or not at all, at whatever statement the database
  -- fails. Either no row has changed and an error is reported; or the rows that others made stand as
  -- they did, each in its place, all rows of the list are gone, and one row for each rule of the list
  -- follows, in its order, and unless the last statement fails the number of these is reported. The
  -- identifiers are taken to be new.
  pub store_list-replaced :
      (t : RuleTables) (filter_id : Text) (o : Outcomes) (rules : List Text)
      → AreFresh o t.rules
      → (((store_list t filter_id o rules).0 ≡ t) × ((store_list t filter_id o rules).1 ≡ none))
        ⊎ ((kept : List RuleRow) × Keeps (codes "filter:" ++ filter_id) t.rules kept
            × ((store_list t filter_id o rules).0.rules
                ≡ kept ++ rows_of o (codes "filter:" ++ filter_id) 0 rules)
            × ((store_list t filter_id o rules).1
                ≡ (if o.updated then some (length rules) else none)))
  unfolding store_list filter_prefix
  store_list-replaced t filter_id o rules f =
      elim (Option-cases (replaced_rows o (filter_prefix filter_id) rules t.rules)) [
        | inl e ↦ inl (ground (arith, e), ground (arith, e))
        | inr (rows, e) ↦
            let all =
              replaced_rows-append o (filter_prefix filter_id) f.distinct rules t.rules
                (λ j le. f.unused j) e in
            let kept = delete_rules (filter_prefix filter_id) t.rules in
            let others = delete_rules-Keeps (filter_prefix filter_id) t.rules in
            elim (Bool-cases o.updated) [
              | inl k ↦ inr (kept, others, ground (arith, e, k, all), ground (arith, e, k))
              | inr k ↦ inr (kept, others, ground (arith, e, k, all), ground (arith, e, k))
            ]
      ]
