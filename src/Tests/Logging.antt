-- ===== src/Tests/Logging.antt =====
-- src/db/query_log_writer.rs and app_catalog_cache.rs at fixed inputs.
use rust_dns_backend.Base.{
  ℤ, pos, ℕ, ◌+◌, ◌≡◌, ◌≤◌, refl, true, false, none, some, List, [], ◌∷◌, ◌++◌, arith, length,
}
use rust_dns_backend.Text.{trim_end, Text, codes}
use rust_dns_backend.Map.{Map, map_get, map_insert}
use rust_dns_backend.Text.Split.{split, join}
use rust_dns_backend.AppCatalog.{match_app, match_parents}
use rust_dns_backend.Handler.State.{LogEntry}
use rust_dns_backend.QueryLog.{
  Detector, Writer, Event, entry_arrived, ticked, channel_closed, run, receive, tick, flush,
  flush_rest, seconds_since, track, count_block,
}
use rust_dns_backend.QueryLog.Batches.{taken, arrivals, run-taken}
use rust_dns_backend.QueryLog.Bursts.{count_blocks, crossing, count_blocks_lem}

abbrev entry : Text → LogEntry
entry question = record {
  time = codes "2026";
  client_ip = codes "10.0.0.1";
  question = question;
  qtype = codes "A";
  status = codes "blocked";
  reason = none;
  answer = none;
  elapsed_ns = 5;
  upstream_ns = none;
  upstream_name = none;
  app_id = none;
}

abbrev idle : Writer
idle = record { batch = []; detector = record { block_counts = []; alerts = [] }; flushed = [] }

abbrev happened : List Event
happened =
    entry_arrived true (entry (codes "a.com.")) 10
    ∷ ticked false 2000
    ∷ entry_arrived true (entry (codes "b.com.")) 2500
    ∷ channel_closed true
    ∷ []

run-taken_example : taken (run happened idle) ≡ taken idle ++ arrivals happened
run-taken_example = run-taken happened idle

batches_run :
    (run happened idle).flushed
    ≡ (false, entry (codes "a.com.") ∷ []) ∷ (true, entry (codes "b.com.") ∷ []) ∷ []
unfolding run receive tick flush flush_rest
batches_run = refl

-- A client that has 48 blocked queries since the start.
abbrev busy : Detector
busy = record { block_counts = (codes "10.0.0.1", (48, 0)) ∷ []; alerts = [] }

abbrev times : List ℕ
times = 100 ∷ 200 ∷ 60000 ∷ []

busy_run : map_get (codes "10.0.0.1") busy.block_counts ≡ some (48, 0)
unfolding map_get
busy_run = refl

in_time : (seconds_since 100 0 ≤ 60) × (seconds_since 200 0 ≤ 60) × (seconds_since 60000 0 ≤ 60)
unfolding seconds_since
in_time = (omega arith, omega arith, omega arith)

count_blocks_lem_example :
    (map_get (codes "10.0.0.1") (count_blocks (codes "10.0.0.1") times busy).block_counts
      ≡ some (48 + length times, 0))
    × ((count_blocks (codes "10.0.0.1") times busy).alerts
        ≡ [] ++ crossing (codes "10.0.0.1") 48 (48 + length times))
count_blocks_lem_example =
    count_blocks_lem (codes "10.0.0.1") times 48 0 busy busy_run
      (in_time.0, (in_time.1, (in_time.2, tt)))

alert_run : (count_blocks (codes "10.0.0.1") times busy).alerts ≡ codes "10.0.0.1" ∷ []
unfolding count_blocks count_block track map_get map_insert seconds_since
alert_run = refl

abbrev catalog : Map ℤ
catalog = (codes "youtube.com", pos 7) ∷ (codes "com", pos 1) ∷ []

app_run : match_app catalog (codes "api.youtube.com.") ≡ some (pos 7)
unfolding match_app match_parents map_get trim_end split join
app_run = refl
