-- ===== src/Auth/Once.antt =====
-- src/api/handlers/ws.rs: how often and how long a ticket opens a WebSocket.
use rust_dns_backend.Base.{
  ℕ, ◌+◌, ◌<◌, ◌≡◌, ◌↔◌, refl, ◌∙◌, inl, inr, true, false, not, ◌&&◌, leb, Bool, none, some, List,
  [], ◌∷◌, arith, all, All, All-In, Bool-cases, Option-cases, leb,
}
use rust_dns_backend.Text.{Text, text_eq}
use rust_dns_backend.Text.Laws.{text_eq_refl}
use rust_dns_backend.Map.{
  map_get, map_insert, map_remove, map_get-insert, map_get-insert_self, map_get-remove, map_get-In,
}
use rust_dns_backend.Auth.Tickets.{
  ws_ticket_ttl, Tickets, is_fresh, evict, issue_ticket, upgraded, query_log_ws,
}

-- The requests, each at its instant.
pub data Request : Type 0 where
  issue : ℕ → Text → Request
  open_ws : ℕ → Text → Request

unfoldable pub serve_all : Tickets → List Request → Tickets
unfolding issue_ticket query_log_ws
serve_all m [] = m
serve_all m (issue now ticket ∷ rs) = serve_all (issue_ticket now ticket m) rs
serve_all m (open_ws now ticket ∷ rs) = serve_all (query_log_ws now ticket m).0 rs

-- Identifiers are new: no request issues the ticket again; and none comes later than `now`.
unfoldable pub is_before : ℕ → Text → Request → Bool
unfolding text_eq
is_before now k (issue at ticket) = leb at now && not (text_eq ticket k)
is_before now k (open_ws at ticket) = leb at now

unfoldable pub spares : Text → Request → Bool
unfolding text_eq
spares k (issue at ticket) = true
spares k (open_ws at ticket) = not (text_eq ticket k)

-- What stands under a key is one value.
abbrev Only : Text → ℕ → Tickets → Type 0
Only k t m = All (λ (e : Text × ℕ). text_eq e.0 k ≡ true → e.1 ≡ t) m

module _ (k : Text) where
  evict-none : (now : ℕ) (m : Tickets) → map_get k m ≡ none → map_get k (evict now m) ≡ none
  unfolding map_get evict
  evict-none now [] h = refl
  evict-none now ((j, v) ∷ m) h = ground (arith, evict-none now m)

  evict-some :
      (now t : ℕ) (m : Tickets)
      → map_get k m ≡ some t
      → is_fresh now t ≡ true
      → map_get k (evict now m) ≡ some t
  unfolding map_get evict
  evict-some now t [] h f = cc
  evict-some now t ((j, v) ∷ m) h f = ground (arith, evict-some now t m)

  none-Only : (t : ℕ) (m : Tickets) → map_get k m ≡ none → Only k t m
  unfolding map_get
  none-Only t [] h = tt
  none-Only t ((j, v) ∷ m) h = (λ e. absurd (ground arith), none-Only t m (ground arith))

  Only-evict : (now t : ℕ) (m : Tickets) → Only k t m → Only k t (evict now m)
  unfolding evict
  Only-evict now t [] h = tt
  Only-evict now t ((j, v) ∷ m) h = elim (Bool-cases (is_fresh now v)) [
    | inl e ↦ rw e (h.0, Only-evict now t m h.1)
    | inr e ↦ rw e (Only-evict now t m h.1)
  ]

  Only-remove : (t : ℕ) (j : Text) (m : Tickets) → Only k t m → Only k t (map_remove j m)
  unfolding map_remove
  Only-remove t j [] h = tt
  Only-remove t j ((i, v) ∷ m) h = elim (Bool-cases (text_eq i j)) [
    | inl e ↦ rw e (Only-remove t j m h.1)
    | inr e ↦ rw e (h.0, Only-remove t j m h.1)
  ]

  Only-insert :
      (t v : ℕ) (j : Text) (m : Tickets)
      → (text_eq j k ≡ true → v ≡ t)
      → Only k t m
      → Only k t (map_insert j v m)
  unfolding map_insert
  Only-insert t v j [] new h = (new, tt)
  Only-insert t v j ((i, w) ∷ m) new h = elim (Bool-cases (text_eq i j)) [
    | inl e ↦ rw e (new, h.1)
    | inr e ↦ rw e (h.0, Only-insert t v j m new h.1)
  ]

  -- A ticket that is not there stays away, if it is not issued.
  gone :
      (now : ℕ) (m : Tickets) (rs : List Request)
      → all (is_before now k) rs ≡ true
      → map_get k m ≡ none
      → map_get k (serve_all m rs) ≡ none
  unfolding serve_all all is_before issue_ticket query_log_ws
  gone now m [] h f = f
  gone now m (issue at j ∷ rs) h f =
      gone now (issue_ticket at j m) rs (ground arith)
        (map_get-insert j k at (evict at m) ∙ ground (arith, evict-none at m f))
  gone now m (open_ws at j ∷ rs) h f =
      gone now (map_remove j m) rs (ground arith) (map_get-remove j k m ∙ ground arith)

  -- A ticket that is there and fresh stays, if it is not opened.
  stays :
      (now t : ℕ) (m : Tickets) (rs : List Request)
      → all (is_before now k) rs ≡ true
      → all (spares k) rs ≡ true
      → now < t + ws_ticket_ttl
      → map_get k m ≡ some t
      → map_get k (serve_all m rs) ≡ some t
  unfolding serve_all all is_before spares issue_ticket query_log_ws
  stays now t m [] h g l f = f
  stays now t m (issue at j ∷ rs) h g l f =
      let fresh : is_fresh at t ≡ true = unfold is_fresh in ground arith in
      stays now t (issue_ticket at j m) rs (ground arith) (ground arith) l
        (map_get-insert j k at (evict at m) ∙ ground (arith, evict-some at t m f fresh))
  stays now t m (open_ws at j ∷ rs) h g l f =
      stays now t (map_remove j m) rs (ground arith) (ground arith) l
        (map_get-remove j k m ∙ ground arith)

  -- Whatever happens, nothing but the one instant stands under the ticket.
  serve_all-Only :
      (now t : ℕ) (m : Tickets) (rs : List Request)
      → all (is_before now k) rs ≡ true
      → Only k t m
      → Only k t (serve_all m rs)
  unfolding serve_all all is_before issue_ticket query_log_ws
  serve_all-Only now t m [] h o = o
  serve_all-Only now t m (issue at j ∷ rs) h o =
      serve_all-Only now t (issue_ticket at j m) rs (ground arith)
        (Only-insert t at j (evict at m) (λ e. absurd (ground arith)) (Only-evict at t m o))
  serve_all-Only now t m (open_ws at j ∷ rs) h o =
      serve_all-Only now t (map_remove j m) rs (ground arith) (Only-remove t j m o)

  -- A ticket that some request opens is gone afterwards.
  spent :
      (now : ℕ) (m : Tickets) (rs : List Request)
      → all (is_before now k) rs ≡ true
      → all (spares k) rs ≡ false
      → map_get k (serve_all m rs) ≡ none
  unfolding serve_all all is_before spares issue_ticket query_log_ws
  spent now m [] h g = absurd (ground arith)
  spent now m (issue at j ∷ rs) h g =
      spent now (issue_ticket at j m) rs (ground arith) (ground arith)
  spent now m (open_ws at j ∷ rs) h g = elim (Bool-cases (text_eq j k)) [
    | inl e ↦ gone now (map_remove j m) rs (ground arith) (map_get-remove j k m ∙ ground arith)
    | inr e ↦ spent now (map_remove j m) rs (ground arith) (ground arith)
  ]

  fresh_iff : (now t : ℕ) → is_fresh now t ≡ true → now < t + ws_ticket_ttl
  unfolding is_fresh
  fresh_iff now t h = ground arith

  -- A ticket that is issued at the instant `t`, and asked for at `now`, opens a WebSocket exactly if
  -- thirty seconds are not over and no request has opened it before, whatever other tickets are issued
  -- and opened meanwhile. The ticket is new, it is not issued again, and the requests between come no
  -- later than `now`.
  pub query_log_ws_iff :
      (m : Tickets) (t now : ℕ) (rs : List Request)
      → map_get k m ≡ none
      → all (is_before now k) rs ≡ true
      → ((query_log_ws now k (serve_all (issue_ticket t k m) rs)).1 ≡ upgraded)
        ↔ ((now < t + ws_ticket_ttl) × (all (spares k) rs ≡ true))
  unfolding query_log_ws issue_ticket
  query_log_ws_iff m t now rs new h =
      let m' = issue_ticket t k m in
      let issued : map_get k m' ≡ some t = map_get-insert_self k t (evict t m) in
      let only : Only k t (serve_all m' rs) =
        serve_all-Only now t m' rs h
          (Only-insert t t k (evict t m) (λ e. refl) (Only-evict t t m (none-Only t m new))) in
      (
        λ opened. elim (Bool-cases (all (spares k) rs)) [
          | inr e ↦ absurd (ground (arith, spent now m' rs h e))
          | inl e ↦ elim (Option-cases (map_get k (serve_all m' rs))) [
            | inl n ↦ absurd (ground arith)
            | inr (u, n) ↦
                let same : u ≡ t =
                  All-In _ (serve_all m' rs) only (map_get-In k (serve_all m' rs) n)
                    (text_eq_refl k) in
                (rw (← same) (fresh_iff now u (ground arith)), e)
          ]
        ],
        λ x.
            let fresh : is_fresh now t ≡ true = unfold is_fresh in ground arith in
            ground (arith, stays now t m' rs h x.1 x.0 issued),
      )
