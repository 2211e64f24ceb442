-- ===== src/Auth/Tickets.antt =====
-- src/api/handlers/ws.rs: the one-time tickets that open a WebSocket.
use rust_dns_backend.Base.{ℕ, ◌-◌, ltb, none, some, keep_if, if◌then◌else◌, Bool}
use rust_dns_backend.Text.{Text}
use rust_dns_backend.Map.{Map, map_get, map_insert, map_remove}

-- Thirty seconds in nanoseconds.
abbrev pub ws_ticket_ttl : ℕ
ws_ticket_ttl = 30000000000

-- `ws_tickets`: when each ticket was issued.
abbrev pub Tickets : Type 0
Tickets = Map ℕ

-- `issued_at.elapsed() < WS_TICKET_TTL`
unfoldable pub is_fresh : ℕ → ℕ → Bool
is_fresh now issued_at = ltb (now - issued_at) ws_ticket_ttl

-- `retain`
unfoldable pub evict : ℕ → Tickets → Tickets
unfolding keep_if is_fresh
evict now tickets = keep_if (λ (e : Text × ℕ). is_fresh now e.1) tickets

-- The ticket is a new UUID.
unfoldable pub issue_ticket : ℕ → Text → Tickets → Tickets
unfolding evict map_insert
issue_ticket now ticket tickets = map_insert ticket now (evict now tickets)

pub data Upgrade : Type 0 where
  upgraded ticket_expired invalid_ticket : Upgrade

unfoldable pub query_log_ws : ℕ → Text → Tickets → Tickets × Upgrade
unfolding map_get map_remove is_fresh
query_log_ws now ticket tickets = (
  map_remove ticket tickets,
  elim (map_get ticket tickets) [
    | none ↦ invalid_ticket
    | some issued_at ↦ if is_fresh now issued_at then upgraded else ticket_expired
  ],
)
