-- ===== src/Cache.antt =====
-- src/dns/cache.rs: the response cache. The crate `moka` is the instance `MokaCrate`: a cache of
-- values that each carry their time to live, read and written at a time in seconds.
pub mod Laws
use rust_dns_backend.Base.{
  ℕ, ◌+◌, ◌≡◌, ◌<◌, ◌≤◌, Bool, true, false, Option, none, some, List, [], ◌∷◌, ◌++◌, ltb,
  if◌then◌else◌,
}
use rust_dns_backend.Text.{Text, Unicode, to_lowercase}
use rust_dns_backend.Dns.{RecordType, Hickory}

abbrev pub ttl_min_secs : ℕ
ttl_min_secs = 5

abbrev pub ttl_max_secs : ℕ
ttl_max_secs = 86400

abbrev pub ttl_default_secs : ℕ
ttl_default_secs = 300

abbrev pub dns_cache_max_capacity : ℕ
dns_cache_max_capacity = 50000

pub record CacheEntry : Type 0 where
  pub bytes : List ℕ
  pub ttl : ℕ

-- `moka::future::Cache` whose entries expire after `expiry` of their value.
pub record MokaCrate (V C : Type 0) : Type 0 where
  pub cache_get : ℕ → Text → C → Option V
  pub cache_insert : ℕ → Text → V → C → C
  pub cache_invalidate : Text → C → C
  pub cache_invalidate_all : C → C
  pub entry_count : C → ℕ

-- What the documentation of `moka` promises of a cache whose `Expiry` has `expire_after_create` only. A
-- read gives the value last written under its key or nothing (an entry may be evicted), nothing from
-- the entry's deadline on, and nothing that was invalidated. An entry that is created gets its
-- deadline from its value; one that is overwritten keeps the deadline that it had.
pub record MokaLaws {V C : Type 0} (expiry : V → ℕ) (moka : MokaCrate V C) : Type 0 where
  pub deadline : Text → C → ℕ
  pub get_live :
      (now : ℕ) (k : Text) (c : C) {v : V} → moka.cache_get now k c ≡ some v → now < deadline k c
  pub get_written :
      (now written : ℕ) (k : Text) (v : V) (c : C) {w : V}
      → moka.cache_get now k (moka.cache_insert written k v c) ≡ some w
      → w ≡ v
  pub get_other :
      (now written : ℕ) (k j : Text) (v : V) (c : C) {w : V}
      → ¬ (k ≡ j)
      → moka.cache_get now j (moka.cache_insert written k v c) ≡ some w
      → moka.cache_get now j c ≡ some w
  pub deadline_created :
      (written : ℕ) (k : Text) (v : V) (c : C)
      → moka.cache_get written k c ≡ none
      → deadline k (moka.cache_insert written k v c) ≡ written + expiry v
  pub deadline_kept :
      (written : ℕ) (k : Text) (v : V) (c : C) {old : V}
      → moka.cache_get written k c ≡ some old
      → deadline k (moka.cache_insert written k v c) ≡ deadline k c
  pub deadline_other :
      (written : ℕ) (k j : Text) (v : V) (c : C)
      → ¬ (k ≡ j)
      → deadline j (moka.cache_insert written k v c) ≡ deadline j c
  pub get_invalidated :
      (now : ℕ) (k : Text) (c : C) → moka.cache_get now k (moka.cache_invalidate k c) ≡ none
  pub get_invalidated_all :
      (now : ℕ) (k : Text) (c : C) → moka.cache_get now k (moka.cache_invalidate_all c) ≡ none

-- `DnsCacheExpiry::expire_after_create`
unfoldable pub expire_after_create : CacheEntry → ℕ
expire_after_create entry = entry.ttl

-- `clamp(TTL_MIN_SECS, TTL_MAX_SECS)` of the given or the default time to live.
unfoldable pub clamp_ttl : Option ℕ → ℕ
clamp_ttl min_ttl =
    let secs : ℕ = elim min_ttl [ none ↦ ttl_default_secs | some t ↦ t ] in
    if ltb secs ttl_min_secs
    then ttl_min_secs
    else if ltb ttl_max_secs secs
    then ttl_max_secs
    else secs

module _ ⦃u : Unicode⦄ ⦃hickory : Hickory⦄ where
  unfoldable pub cache_key : Text → RecordType → Text
  unfolding to_lowercase
  cache_key domain qtype = to_lowercase domain ++ (b':' ∷ hickory.debug_type qtype)

module _ ⦃u : Unicode⦄ ⦃hickory : Hickory⦄ {C : Type 0} ⦃moka : MokaCrate CacheEntry C⦄ where
  unfoldable pub get : ℕ → C → Text → RecordType → Option (List ℕ)
  get now cache domain qtype = elim (moka.cache_get now (cache_key domain qtype) cache) [
    | none ↦ none
    | some e ↦ some e.bytes
  ]

  unfoldable pub set_with_ttl : ℕ → C → Text → RecordType → List ℕ → Option ℕ → C
  set_with_ttl now cache domain qtype bytes min_ttl =
      moka.cache_insert now (cache_key domain qtype)
        (record { bytes = bytes; ttl = clamp_ttl min_ttl }) cache

  -- `set`, with the default time to live.
  unfoldable pub set_default : ℕ → C → Text → RecordType → List ℕ → C
  unfolding set_with_ttl
  set_default now cache domain qtype bytes = set_with_ttl now cache domain qtype bytes none
