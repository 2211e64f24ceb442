-- ===== src/QueryLog/Batches.antt =====
-- src/db/query_log_writer.rs: no entry is written twice or out of order, and batches stay small.
use rust_dns_backend.Base.{
  append_nil, ℕ, ◌≡◌, ◌<◌, refl, sym, ap, ◌∙◌, inl, inr, Bool, List, [], ◌∷◌, ◌++◌, append_assoc,
  arith, leb, Bool-cases, length, is_nil,
}
use rust_dns_backend.Handler.State.{LogEntry}
use rust_dns_backend.QueryLog.{
  Writer, Event, entry_arrived, channel_closed, ticked, batch_size, flush, flush_rest, receive,
  tick, run,
}

-- The entries of the batches that were flushed, in order.
abbrev pub flushed_entries : List (Bool × List LogEntry) → List LogEntry
flushed_entries [] = []
flushed_entries ((succeeds, batch) ∷ rest) = batch ++ flushed_entries rest

-- Every entry that the writer has taken, in order.
abbrev pub taken : Writer → List LogEntry
taken w = flushed_entries w.flushed ++ w.batch

-- The entries that arrive before the channel is closed.
unfoldable pub arrivals : List Event → List LogEntry
arrivals [] = []
arrivals (entry_arrived succeeds entry now ∷ events) = entry ∷ arrivals events
arrivals (ticked succeeds now ∷ events) = arrivals events
arrivals (channel_closed succeeds ∷ events) = []

flushed_entries-append :
    (xs : List (Bool × List LogEntry)) (succeeds : Bool) (batch : List LogEntry)
    → flushed_entries (xs ++ (succeeds, batch) ∷ []) ≡ flushed_entries xs ++ batch
flushed_entries-append [] succeeds batch = append_nil batch
flushed_entries-append ((s, b) ∷ xs) succeeds batch =
    ap (λ r. b ++ r) (flushed_entries-append xs succeeds batch)
    ∙ sym (append_assoc b (flushed_entries xs) batch)

taken-flush : (succeeds : Bool) (w : Writer) → taken (flush succeeds w) ≡ taken w
unfolding flush
taken-flush succeeds w =
    append_nil (flushed_entries (w.flushed ++ (succeeds, w.batch) ∷ []))
    ∙ flushed_entries-append w.flushed succeeds w.batch

taken-flush_rest : (succeeds : Bool) (w : Writer) → taken (flush_rest succeeds w) ≡ taken w
unfolding flush_rest
taken-flush_rest succeeds w = elim (Bool-cases (is_nil w.batch)) [
  | inl e ↦ rw e refl
  | inr e ↦ rw e (taken-flush succeeds w)
]

taken-receive :
    (succeeds : Bool) (entry : LogEntry) (now : ℕ) (w : Writer)
    → taken (receive succeeds entry now w) ≡ taken w ++ entry ∷ []
unfolding receive
taken-receive succeeds entry now w =
    elim (Bool-cases (leb batch_size (length (w.batch ++ entry ∷ [])))) [
      | inl e ↦ rw e (
          taken-flush succeeds _
          ∙ sym (append_assoc (flushed_entries w.flushed) w.batch (entry ∷ [])))
      | inr e ↦ rw e (sym (append_assoc (flushed_entries w.flushed) w.batch (entry ∷ [])))
    ]

-- The entries flushed and those still in the batch are those taken before and then those that arrive,
-- each once and in order: none is lost on the way to a write, none is written twice.
pub run-taken :
    (events : List Event) (w : Writer) → taken (run events w) ≡ taken w ++ arrivals events
unfolding run arrivals tick
run-taken [] w = sym (append_nil (taken w))
run-taken (entry_arrived succeeds entry now ∷ events) w =
    run-taken events (receive succeeds entry now w)
    ∙ (ap (λ t. t ++ arrivals events) (taken-receive succeeds entry now w)
        ∙ append_assoc (taken w) (entry ∷ []) (arrivals events))
run-taken (ticked succeeds now ∷ events) w =
    run-taken events (tick succeeds now w)
    ∙ ap (λ t. t ++ arrivals events) (taken-flush_rest succeeds w)
run-taken (channel_closed succeeds ∷ events) w =
    taken-flush_rest succeeds w ∙ sym (append_nil (taken w))

small_batch-flush_rest :
    (succeeds : Bool) (w : Writer)
    → length w.batch < batch_size
    → length (flush_rest succeeds w).batch < batch_size
unfolding flush_rest flush
small_batch-flush_rest succeeds w h = elim (Bool-cases (is_nil w.batch)) [
  | inl e ↦ rw e h
  | inr e ↦ rw e (omega arith)
]

small_batch-receive :
    (succeeds : Bool) (entry : LogEntry) (now : ℕ) (w : Writer)
    → length (receive succeeds entry now w).batch < batch_size
unfolding receive flush
small_batch-receive succeeds entry now w =
    elim (Bool-cases (leb batch_size (length (w.batch ++ entry ∷ [])))) [
      | inl e ↦ rw e (omega arith)
      | inr e ↦ rw e (ground arith)
    ]

-- Between two events the batch is smaller than the batch size, if it was at the start.
pub run_small_batch :
    (events : List Event) (w : Writer)
    → length w.batch < batch_size
    → length (run events w).batch < batch_size
unfolding run tick
run_small_batch [] w h = h
run_small_batch (entry_arrived succeeds entry now ∷ events) w h =
    run_small_batch events (receive succeeds entry now w) (small_batch-receive succeeds entry now w)
run_small_batch (ticked succeeds now ∷ events) w h =
    run_small_batch events (tick succeeds now w) (small_batch-flush_rest succeeds w h)
run_small_batch (channel_closed succeeds ∷ events) w h = small_batch-flush_rest succeeds w h
