-- ===== src/Tests/Tables.antt =====
-- src/api/handlers/rewrites.rs and ws.rs at fixed inputs.
use rust_dns_backend.Base.{
  ◌+◌, ◌<◌, ◌≡◌, ◌↔◌, refl, true, false, none, some, List, [], ◌∷◌, map, all, if◌then◌else◌,
}
use rust_dns_backend.Text.{Text, codes, text_eq, trim, to_lowercase}
use rust_dns_backend.Text.Split.{split}
use rust_dns_backend.Net.{parse_ip, parse_ipv4}
use rust_dns_backend.Map.{map_get}
use rust_dns_backend.Error.{ok, err}
use rust_dns_backend.Filter.{
  parental_rules, FilterEngine, FilterDb, is_on, load, reload, check_rewrite,
}
use rust_dns_backend.Filter.Rewrites.{last_answer}
use rust_dns_backend.RewriteApi.{
  find_rewrite, change_rewrite, updated_answer, updated_domain, set_rewrite, RewriteRow,
  RewritesState, RewriteEnv, CreateRewriteRequest, UpdateRewriteRequest, rewrite_of, is_ip,
  repeats_domain, create_rewrite, already_rewritten, new_rewrite, write_rewrites,
}
use rust_dns_backend.RewriteApi.Sound.{update, serve, IsSound, serve-IsSound}
use rust_dns_backend.RewriteApi.Live.{create_rewrite-check_rewrite}
use rust_dns_backend.Auth.Tickets.{
  ws_ticket_ttl, issue_ticket, query_log_ws, upgraded, invalid_ticket,
}
use rust_dns_backend.Auth.Once.{issue, open_ws, serve_all, is_before, spares, query_log_ws_iff}
use rust_dns_backend.Auth.Once as Once
use rust_dns_backend.Tests.Fixtures.{configs, ascii, literal_regex}
use rust_dns_backend.Tests.Engine.{empty_engine}

abbrev nas : RewriteRow
nas = record {
  rewrite_id = codes "1";
  domain = codes "nas.lan";
  answer = codes "10.0.0.2";
  created_by = codes "alice";
  created_at = codes "then";
}

abbrev table : RewritesState
table = record { rows = nas ∷ []; loaded = rewrite_of nas ∷ [] }

abbrev env : RewriteEnv
env = record {
  username = codes "alice";
  uuid = codes "2";
  now = codes "now";
  statement_ok = true;
  reload_ok = true;
}

abbrev printer : CreateRewriteRequest
printer = record { new_domain = codes " Printer.lan"; new_answer = codes "10.0.0.3 " }

table-IsSound : IsSound table
unfolding is_ip parse_ip parse_ipv4 split repeats_domain
table-IsSound = record { are_ips = (refl, tt); apart = refl; in_sync = refl }

-- A blank domain is not refused by an update.
abbrev blank : UpdateRewriteRequest
blank = record { domain_update = some (codes " "); answer_update = none }

serve-IsSound_example : IsSound (serve env (update (codes "1") blank) table)
serve-IsSound_example = serve-IsSound env (update (codes "1") blank) table refl table-IsSound

blank_run :
    map (λ (r : RewriteRow). r.domain) (serve env (update (codes "1") blank) table).rows ≡ [] ∷ []
unfolding serve trim to_lowercase is_ip parse_ip parse_ipv4 split find_rewrite change_rewrite
    updated_answer updated_domain write_rewrites set_rewrite
blank_run = refl

repeated_run :
    (create_rewrite env
      (record { new_domain = codes "NAS.lan"; new_answer = codes "10.0.0.9" })
      table).1
    ≡ err (already_rewritten (codes "nas.lan"))
unfolding create_rewrite write_rewrites trim to_lowercase is_ip parse_ip parse_ipv4 split
repeated_run = refl

created_run : (create_rewrite env printer table).1 ≡ ok (new_rewrite env printer)
unfolding create_rewrite write_rewrites trim to_lowercase is_ip parse_ip parse_ipv4 split
created_run = refl

-- What a reload reads after it.
abbrev after_db : FilterDb
after_db = record {
  custom_rules = some [];
  filter_list_count = some 0;
  dns_rewrites = some (map rewrite_of (create_rewrite env printer table).0.rows);
  setting = λ key. none;
  parental_control_categories = some [];
  json_strings = λ s. none;
  now_rfc3339 = codes "2026";
  later = λ s t. false;
}

abbrev after_engine : FilterEngine (List Text)
after_engine = (reload after_db empty_engine).1

reloaded_run : reload after_db empty_engine ≡ (true, after_engine)
unfolding reload load parental_rules
reloaded_run = refl

safe_search_off : is_on after_db (codes "safe_search_enabled") ≡ false
unfolding is_on
safe_search_off = refl

lower_run :
    to_lowercase (to_lowercase (trim (codes " Printer.lan")))
    ≡ to_lowercase (trim (codes " Printer.lan"))
unfolding trim to_lowercase
lower_run = refl

create_rewrite-check_rewrite_example :
    (is_ip (new_rewrite env printer).answer ≡ true)
    × (check_rewrite after_engine (codes "PRINTER.lan") ≡ (
        if text_eq (to_lowercase (trim (codes " Printer.lan"))) (to_lowercase (codes "PRINTER.lan"))
        then some (trim (codes "10.0.0.3 "))
        else last_answer (to_lowercase (codes "PRINTER.lan")) (map rewrite_of (nas ∷ []))))
create_rewrite-check_rewrite_example =
    create_rewrite-check_rewrite env printer table (new_rewrite env printer) after_db empty_engine
      after_engine (codes "PRINTER.lan") created_run reloaded_run refl safe_search_off lower_run

abbrev ticket : Text
ticket = codes "t"

abbrev between_times : List Once.Request
between_times = issue 2 (codes "u") ∷ open_ws 3 (codes "u") ∷ []

none_later : all (is_before 4 ticket) between_times ≡ true
unfolding all is_before text_eq
none_later = refl

query_log_ws_iff_example :
    ((query_log_ws 4 ticket (serve_all (issue_ticket 1 ticket []) between_times)).1 ≡ upgraded)
    ↔ ((4 < 1 + ws_ticket_ttl) × (all (spares ticket) between_times ≡ true))
unfolding map_get
query_log_ws_iff_example = query_log_ws_iff ticket [] 1 4 between_times refl none_later

used_run :
    (query_log_ws 5 ticket (serve_all (issue_ticket 1 ticket []) (open_ws 2 ticket ∷ []))).1
    ≡ invalid_ticket
unfolding query_log_ws serve_all
used_run = refl
