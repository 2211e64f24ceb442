-- ===== src/AppCatalog.antt =====
-- src/db/app_catalog_cache.rs: the application that a queried name belongs to.
pub mod Nearest
use rust_dns_backend.Base.{ℤ, ℕ, Option, none, some, List, [], ◌∷◌, is_nil, if◌then◌else◌}
use rust_dns_backend.Text.{Text, trim_end}
use rust_dns_backend.Text.Split.{split, join}
use rust_dns_backend.Map.{Map, map_get, map_insert}

-- `load_from_db`: the rows `(app_id, domain)`, or a failed query that leaves the cache as it is.
unfoldable pub insert_domains : List (ℤ × Text) → Map ℤ → Map ℤ
insert_domains [] cache = cache
insert_domains ((app_id, domain) ∷ rows) cache =
    insert_domains rows (map_insert domain app_id cache)

unfoldable pub load_from_db : Option (List (ℤ × Text)) → Map ℤ → Map ℤ
load_from_db none cache = cache
load_from_db (some rows) cache = insert_domains rows []

-- The loop that drops the first part of the name while there is more than one.
unfoldable pub match_parents : Map ℤ → List Text → Option ℤ
match_parents cache [] = none
match_parents cache (p ∷ []) = none
match_parents cache (p ∷ q ∷ parts) =
    let rest = match_parents cache (q ∷ parts) in
    elim (map_get (join (b'.' ∷ []) (q ∷ parts)) cache) [ some app_id ↦ some app_id | none ↦ rest ]

unfoldable pub match_app : Map ℤ → Text → Option ℤ
match_app cache domain =
    if is_nil cache then none else elim (map_get (trim_end b'.' domain) cache) [
      | some app_id ↦ some app_id
      | none ↦ match_parents cache (split b'.' (trim_end b'.' domain))
    ]
