-- ===== src/QueryLog.antt =====
-- src/db/query_log_writer.rs, `run`: the batches of the query log and the detector of bursts of
-- blocked queries. Times are instants in milliseconds; an outcome of a write is an input.
pub mod Batches
pub mod Bursts
use rust_dns_backend.Base.{
  ℕ, ◌+◌, ◌-◌, ◌/◌, Bool, true, false, Option, none, some, List, [], ◌∷◌, ◌++◌, ◌==◌, ltb, leb,
  if◌then◌else◌, is_nil, length,
}
use rust_dns_backend.Text.{Text, codes, text_eq}
use rust_dns_backend.Map.{Map, map_get, map_insert}
use rust_dns_backend.Handler.State.{LogEntry}

abbrev pub batch_size : ℕ
batch_size = 500

-- `block_counts`, with the number of blocked entries of each client and the time of the first, and
-- the clients that alerts were sent for, newest last.
pub record Detector : Type 0 where
  pub block_counts : Map (ℕ × ℕ)
  pub alerts : List Text

-- `flushed` is the outcome of each write with its batch, newest last.
pub record Writer : Type 0 where
  pub batch : List LogEntry
  pub detector : Detector
  pub flushed : List (Bool × List LogEntry)

-- `now.duration_since(first).as_secs()`
unfoldable pub seconds_since : ℕ → ℕ → ℕ
seconds_since now first = (now - first) / 1000

-- A blocked entry of a client, with its tracker as `or_insert` gives it.
unfoldable pub track : Text → ℕ → ℕ × ℕ → Detector → Detector
track client now (count, first) d =
    if ltb 60 (seconds_since now first)
    then record d { block_counts = map_insert client (1, now) d.block_counts }
    else record {
      block_counts = map_insert client (count + 1, first) d.block_counts;
      alerts = if count + 1 == 50 then d.alerts ++ client ∷ [] else d.alerts;
    }

unfoldable pub count_block : Text → ℕ → Detector → Detector
count_block client now d = elim (map_get client d.block_counts) [
  | none ↦ track client now (0, now) d
  | some tracker ↦ track client now tracker d
]

unfoldable pub detect : LogEntry → ℕ → Detector → Detector
detect entry now d =
    if text_eq entry.status (codes "blocked") then count_block entry.client_ip now d else d

-- The outcome of the write is only logged; the batch is cleared either way.
unfoldable pub flush : Bool → Writer → Writer
flush succeeds w = record w { batch = []; flushed = w.flushed ++ (succeeds, w.batch) ∷ [] }

-- `if !batch.is_empty()` in front of a flush.
unfoldable pub flush_rest : Bool → Writer → Writer
flush_rest succeeds w = if is_nil w.batch then w else flush succeeds w

unfoldable pub receive : Bool → LogEntry → ℕ → Writer → Writer
receive succeeds entry now w =
    let w' : Writer = record w {
      batch = w.batch ++ entry ∷ [];
      detector = detect entry now w.detector;
    } in
    if leb batch_size (length w'.batch) then flush succeeds w' else w'

-- `retain` of the trackers younger than two minutes.
unfoldable pub retain : ℕ → Map (ℕ × ℕ) → Map (ℕ × ℕ)
retain now [] = []
retain now ((client, (count, first)) ∷ m) =
    let rest = retain now m in
    if ltb (seconds_since now first) 120 then (client, (count, first)) ∷ rest else rest

unfoldable pub tick : Bool → ℕ → Writer → Writer
tick succeeds now w =
    let w' = flush_rest succeeds w in
    record w' {
      detector = record w'.detector { block_counts = retain now w'.detector.block_counts };
    }

-- What the loop waits for, with the outcome of a write that it may lead to.
pub data Event : Type 0 where
  entry_arrived : Bool → LogEntry → ℕ → Event
  channel_closed : Bool → Event
  ticked : Bool → ℕ → Event

-- The loop over what happens; it ends when the channel is closed.
unfoldable pub run : List Event → Writer → Writer
run [] w = w
run (entry_arrived succeeds entry now ∷ events) w = run events (receive succeeds entry now w)
run (ticked succeeds now ∷ events) w = run events (tick succeeds now w)
run (channel_closed succeeds ∷ events) w = flush_rest succeeds w
