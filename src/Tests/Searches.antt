-- ===== src/Tests/Searches.antt =====
-- src/api/handlers/query_log_advanced.rs at fixed inputs.
use rust_dns_backend.Base.{pos, true, ◌≡◌, refl, some, none, List, [], ◌∷◌, ◌++◌, length}
use rust_dns_backend.Text.{Text, codes}
use rust_dns_backend.Text.Split.{join}
use rust_dns_backend.Error.{ok, err, validation}
use rust_dns_backend.Json.{Value, string, array, bool, cons, nil, to_vec}
use rust_dns_backend.LogQuery.{Filter, QueryBuilder, new_builder, add_filters}
use rust_dns_backend.LogQuery.Relative.{Chrono, parse_relative_time}
use rust_dns_backend.LogQuery.Queries.{pg_numbered, build, where_clause, bind_all, count_sql}
use rust_dns_backend.LogQuery.Numbered.{number_marks, pg_numbered_lem}
use rust_dns_backend.LogQuery.Shape.{value_count, build-shape_of}

-- A clock that stands still.
instance abbrev frozen : Chrono
frozen = record {
  now = codes "now";
  hours_ago = λ n. some (codes "then");
  days_ago = λ n. none;
  weeks_ago = λ n. none;
}

abbrev name_filter : Text → Filter
name_filter s = record { field = codes "question"; operator = codes "like"; value = string s }

abbrev status_filter : Value → Value → Filter
status_filter v w = record {
  field = codes "status";
  operator = codes "in";
  value = array (cons v (cons w nil));
}

abbrev last_day : Filter
last_day = record {
  field = codes "time";
  operator = codes "relative";
  value = string (codes "-24h");
}

abbrev search_filters : Text → List Filter
search_filters s = name_filter s ∷ last_day ∷ status_filter (string s) (bool true) ∷ []

abbrev searched : Text → QueryBuilder
searched s = record {
  conditions =
      codes "question LIKE ?" ∷ codes "time BETWEEN ? AND ?" ∷ codes "status IN (?,?)" ∷ [];
  bindings =
      string (codes "%" ++ (s ++ codes "%"))
      ∷ string (codes "then")
      ∷ string (codes "now")
      ∷ string s
      ∷ bool true
      ∷ [];
}

search_run : (s : Text) → add_filters new_builder (search_filters s) ≡ ok (searched s)
unfolding add_filters to_vec
search_run s = refl

unknown_unit_run :
    parse_relative_time (codes "-5m") ≡ err (validation (codes "Unsupported time unit: m"))
unfolding parse_relative_time
unknown_unit_run = refl

-- A value that is no number and no text is not bound, though its mark stands in the statement.
unbound_run : length (bind_all (searched (codes "ads")).bindings) ≡ 4
unfolding bind_all
unbound_run = refl

where_run :
    where_clause true (searched (codes "x"))
    ≡ codes "WHERE question LIKE ? OR time BETWEEN ? AND ? OR status IN (?,?)"
unfolding where_clause join
where_run = refl

pg_numbered_lem_example :
    pg_numbered (codes "a = ? AND b IN (?,?)") ≡ number_marks 0 (codes "a = ? AND b IN (?,?)")
pg_numbered_lem_example = pg_numbered_lem (codes "a = ? AND b IN (?,?)")

numbered_run : pg_numbered (codes "a = ? AND b IN (?,?)") ≡ codes "a = $1 AND b IN ($2,$3)"
unfolding pg_numbered
numbered_run = refl

build-shape_of_example :
    ((build (searched (codes "ads")) (codes "AND") (pos 50) (pos 0)).0
      ≡ (build (searched (codes "' OR 1=1 --?")) (codes "AND") (pos 10) (pos 20)).0)
    × (count_sql (searched (codes "ads")) (codes "AND")
        ≡ count_sql (searched (codes "' OR 1=1 --?")) (codes "AND"))
unfolding value_count to_vec
build-shape_of_example =
    build-shape_of (search_filters (codes "ads")) (search_filters (codes "' OR 1=1 --?"))
      (codes "AND") (pos 50) (pos 10) (pos 0) (pos 20) (search_run (codes "ads"))
      (search_run (codes "' OR 1=1 --?")) refl
