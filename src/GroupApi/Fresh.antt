-- ===== src/GroupApi/Fresh.antt =====
-- src/api/handlers/client_groups.rs: the cache of configurations against the tables.
use rust_dns_backend.Base.{
  ℕ, ℤ, ◌+◌, ◌<◌, ◌≡◌, refl, Bool, true, not, Option, none, List, [], ◌∷◌, ltb, arith, Bool-cases,
  Option-cases, inl, inr, any, All, ◌⊎◌, keep_if, ◌++◌,
}
use rust_dns_backend.Text.{Text, text_eq}
use rust_dns_backend.GroupApi.{
  GroupTables, GroupState, Binding, has_group, look_up, is_membership, add_clients,
  with_memberships, with_bindings, invalidate_if, batch_add_clients, remove_clients,
  batch_remove_clients, delete_group, move_clients, batch_move_clients,
}
use rust_dns_backend.Map.{Map, map_get, map_insert}
use rust_dns_backend.GroupApi.Bindings.{
  BindRuleRequest, is_rule_type, rule_exists, is_binding, bind_rules, batch_bind_rules,
  unbind_rules, batch_unbind_rules, new_binding,
}

-- Each configuration that the cache holds was read from the tables as they are.
abbrev pub IsFresh : GroupState → Type 0
IsFresh s = All (λ (e : Text × GroupTables). e.1 ≡ s.tables) s.cached

map_insert-All :
    {V : Type 0} (P : V → Type 0) (k : Text) (v : V) (m : Map V)
    → P v
    → All (λ (e : Text × V). P e.1) m
    → All (λ (e : Text × V). P e.1) (map_insert k v m)
unfolding map_insert
map_insert-All P k v [] p h = (p, tt)
map_insert-All P k v ((j, w) ∷ m) p h = elim (Bool-cases (text_eq j k)) [
  | inl e ↦ rw e (p, h.1)
  | inr e ↦ rw e (h.0, map_insert-All P k v m p h.1)
]

pub data Request : Type 0 where
  query : Text → Request
  add remove : Bool → ℤ → List Text → Request
  move : Option ℤ → Option ℤ → List Text → Request
  bind : ℤ → List BindRuleRequest → Request
  unbind : ℤ → Option Text → List Text → Request
  delete : Bool → ℤ → Request

unfoldable pub serve : Request → GroupState → GroupState
unfolding look_up batch_add_clients batch_remove_clients batch_move_clients batch_bind_rules
    batch_unbind_rules delete_group
serve (query client_ip) s = look_up client_ip s
serve (add committed id clients) s = (batch_add_clients committed id clients s).0
serve (remove committed id clients) s = (batch_remove_clients committed id clients s).0
serve (move from to clients) s = (batch_move_clients from to clients s).0
serve (bind id rules) s = (batch_bind_rules id rules s).0
serve (unbind id rule_type rules) s = (batch_unbind_rules id rule_type rules s).0
serve (delete committed id) s = (delete_group committed id s).0

-- A loop that counts nothing has changed nothing.
abbrev Counts {ℓ} : {A : Type ℓ} → A → ℕ → A → ℕ → Type ℓ
Counts rows n rows' n' = (n < n') ⊎ ((n' ≡ n) × (rows' ≡ rows))

Counts-more {ℓ} :
    {A : Type ℓ} (rows mid rows' : A) (n n' : ℕ)
    → Counts mid (n + 1) rows' n'
    → Counts rows n rows' n'
Counts-more rows mid rows' n n' (inl h) = inl (omega arith)
Counts-more rows mid rows' n n' (inr h) = inl (omega (arith, h.0))

add_clients-Counts :
    (clients : List Text) (id : ℤ) (cs : List Text) (rows : List (Text × ℤ)) (added : ℕ)
    (skipped : List Text)
    → Counts rows added
        (add_clients clients id cs rows added skipped).0
        (add_clients clients id cs rows added skipped).1
unfolding add_clients
add_clients-Counts clients id [] rows added skipped = inr (refl, refl)
add_clients-Counts clients id (c ∷ cs) rows added skipped =
    let skip = add_clients-Counts clients id cs rows added (skipped ++ c ∷ []) in
    elim (Bool-cases (any (text_eq c) clients)) [
      | inr e ↦ rw e skip
      | inl e ↦ elim (Bool-cases (any (is_membership c id) rows)) [
        | inl k ↦ rw (e, k) skip
        | inr k ↦
            rw (e, k)
              (Counts-more rows (rows ++ (c, id) ∷ []) _ added _
                (add_clients-Counts clients id cs (rows ++ (c, id) ∷ []) (added + 1) skipped))
      ]
    ]

remove_clients-Counts :
    (id : ℤ) (cs : List Text) (rows : List (Text × ℤ)) (removed : ℕ)
    → Counts rows removed
        (remove_clients id cs rows removed).0
        (remove_clients id cs rows removed).1
unfolding remove_clients
remove_clients-Counts id [] rows removed = inr (refl, refl)
remove_clients-Counts id (c ∷ cs) rows removed =
    let left = keep_if (λ m. not (is_membership c id m)) rows in
    elim (Bool-cases (any (is_membership c id) rows)) [
      | inr k ↦ rw k (remove_clients-Counts id cs rows removed)
      | inl k ↦
          rw k (Counts-more rows left _ removed _ (remove_clients-Counts id cs left (removed + 1)))
    ]

unbind_rules-Counts :
    (id : ℤ) (type : Text) (rs : List Text) (rows : List Binding) (unbound : ℕ)
    → Counts rows unbound
        (unbind_rules id type rs rows unbound).0
        (unbind_rules id type rs rows unbound).1
unfolding unbind_rules
unbind_rules-Counts id type [] rows unbound = inr (refl, refl)
unbind_rules-Counts id type (r ∷ rs) rows unbound =
    let left = keep_if (λ b. not (is_binding id r type b)) rows in
    elim (Bool-cases (any (is_binding id r type) rows)) [
      | inr k ↦ rw k (unbind_rules-Counts id type rs rows unbound)
      | inl k ↦
          rw k
            (Counts-more rows left _ unbound _ (unbind_rules-Counts id type rs left (unbound + 1)))
    ]

-- Every type is one that a group takes.
abbrev AreTyped : List BindRuleRequest → Type 0
AreTyped rules = All (λ (r : BindRuleRequest). is_rule_type r.wanted_type ≡ true) rules

bind_rules-Counts :
    (t : GroupTables) (id : ℤ) (rs : List BindRuleRequest) (rows : List Binding) (bound skipped : ℕ)
    → AreTyped rs
    → Counts rows bound
        (bind_rules t id rs rows bound skipped).0
        (bind_rules t id rs rows bound skipped).1
      × ((bind_rules t id rs rows bound skipped).3 ≡ none)
unfolding bind_rules
bind_rules-Counts t id [] rows bound skipped h = (inr (refl, refl), refl)
bind_rules-Counts t id (r ∷ rs) rows bound skipped h =
    let skip = bind_rules-Counts t id rs rows bound (skipped + 1) h.1 in
    elim (Bool-cases (rule_exists t r)) [
      | inr e ↦ rw (h.0, e) skip
      | inl e ↦ elim (Bool-cases (any (is_binding id r.wanted_id r.wanted_type) rows)) [
        | inl k ↦ rw (h.0, e, k) skip
        | inr k ↦
            let mid = rows ++ new_binding id r ∷ [] in
            let rest = bind_rules-Counts t id rs mid (bound + 1) skipped h.1 in
            rw (h.0, e, k) (Counts-more rows mid _ bound _ rest.0, rest.1)
      ]
    ]

module _ (s : GroupState) (h : IsFresh s) where
  memberships-IsFresh :
      (rows : List (Text × ℤ)) (n : ℕ)
      → Counts s.tables.memberships 0 rows n
      → IsFresh (invalidate_if n (with_memberships s rows))
  unfolding invalidate_if
  memberships-IsFresh rows n (inl more) = let test : ltb 0 n ≡ true = ground arith in rw test tt
  memberships-IsFresh rows n (inr (zero_, same)) = rw (zero_, same) h

  bindings-IsFresh :
      (rows : List Binding) (n : ℕ)
      → Counts s.tables.bindings 0 rows n
      → IsFresh (invalidate_if n (with_bindings s rows))
  unfolding invalidate_if
  bindings-IsFresh rows n (inl more) = let test : ltb 0 n ≡ true = ground arith in rw test tt
  bindings-IsFresh rows n (inr (zero_, same)) = rw (zero_, same) h

  add-IsFresh :
      (committed : Bool) (id : ℤ) (clients : List Text)
      → IsFresh (batch_add_clients committed id clients s).0
  unfolding batch_add_clients
  add-IsFresh committed id clients =
      let counts = add_clients-Counts s.tables.client_ids id clients s.tables.memberships 0 [] in
      elim (Bool-cases (has_group id s.tables)) [
        | inr e ↦ rw e h
        | inl e ↦ elim (Bool-cases committed) [
          | inr k ↦ rw (e, k) h
          | inl k ↦ rw (e, k) (memberships-IsFresh _ _ counts)
        ]
      ]

  remove-IsFresh :
      (committed : Bool) (id : ℤ) (clients : List Text)
      → IsFresh (batch_remove_clients committed id clients s).0
  unfolding batch_remove_clients
  remove-IsFresh committed id clients =
      let counts = remove_clients-Counts id clients s.tables.memberships 0 in
      elim (Bool-cases (has_group id s.tables)) [
        | inr e ↦ rw e h
        | inl e ↦ elim (Bool-cases committed) [
          | inr k ↦ rw (e, k) h
          | inl k ↦ rw (e, k) (memberships-IsFresh _ _ counts)
        ]
      ]

  bind-IsFresh :
      (id : ℤ) (rules : List BindRuleRequest)
      → AreTyped rules
      → IsFresh (batch_bind_rules id rules s).0
  unfolding batch_bind_rules
  bind-IsFresh id rules typed =
      let (counts, untroubled) = bind_rules-Counts s.tables id rules s.tables.bindings 0 0 typed in
      elim (Bool-cases (has_group id s.tables)) [
        | inr e ↦ rw e h
        | inl e ↦ rw (e, untroubled) (bindings-IsFresh _ _ counts)
      ]

  unbind-IsFresh :
      (id : ℤ) (rule_type : Option Text) (rules : List Text)
      → IsFresh (batch_unbind_rules id rule_type rules s).0
  unfolding batch_unbind_rules
  unbind-IsFresh id rule_type rules = elim (Bool-cases (has_group id s.tables)) [
    | inr e ↦ rw e h
    | inl e ↦ rw e (bindings-IsFresh _ _ (unbind_rules-Counts id _ rules s.tables.bindings 0))
  ]

  delete-IsFresh : (committed : Bool) (id : ℤ) → IsFresh (delete_group committed id s).0
  unfolding delete_group
  delete-IsFresh committed id = elim (Bool-cases (has_group id s.tables)) [
    | inr e ↦ rw e h
    | inl e ↦ elim (Bool-cases committed) [ inl k ↦ rw (e, k) tt | inr k ↦ rw (e, k) tt ]
  ]

  query-IsFresh : (client_ip : Text) → IsFresh (look_up client_ip s)
  unfolding look_up
  query-IsFresh client_ip = elim (Option-cases (map_get client_ip s.cached)) [
    | inl e ↦
        rw (e, look_up) (map_insert-All (λ e. e ≡ s.tables) client_ip s.tables s.cached refl h)
    | inr (t, e) ↦ rw (e, look_up) h
  ]

  move-IsFresh :
      (from to : Option ℤ) (clients : List Text)
      → (move_clients s.tables from to clients s.tables.memberships 0).0 ≡ s.tables.memberships
      → IsFresh (batch_move_clients from to clients s).0
  unfolding batch_move_clients
  move-IsFresh from to clients same = rw same h

-- No rule of a request to bind has a type that is not known, and a move of clients moves nobody.
abbrev pub IsSafe : Request → GroupState → Type 0
IsSafe (bind id rules) s = AreTyped rules
IsSafe (move from to clients) s =
    (move_clients s.tables from to clients s.tables.memberships 0).0 ≡ s.tables.memberships
IsSafe _ s = Unit

-- However batches that add or remove members, batches that bind or unbind rules, and deletions of groups
-- come between the queries of any clients, each configuration that the cache holds was read from the
-- tables as they are, if it was so before; also where the group does not exist or a transaction fails.
-- Requests come one after the other. A batch that moves clients is covered only where it changes no
-- membership, and one that binds rules only where it names no unknown type; the statements of binding
-- and unbinding, which have no transaction, are taken to succeed.
pub serve-IsFresh : (r : Request) (s : GroupState) → IsSafe r s → IsFresh s → IsFresh (serve r s)
unfolding serve
serve-IsFresh (query client_ip) s t h = query-IsFresh s h client_ip
serve-IsFresh (add committed id clients) s t h = add-IsFresh s h committed id clients
serve-IsFresh (remove committed id clients) s t h = remove-IsFresh s h committed id clients
serve-IsFresh (move from to clients) s t h = move-IsFresh s h from to clients t
serve-IsFresh (bind id rules) s t h = bind-IsFresh s h id rules t
serve-IsFresh (unbind id rule_type rules) s t h = unbind-IsFresh s h id rule_type rules
serve-IsFresh (delete committed id) s t h = delete-IsFresh s h committed id
