-- ===== src/Cache/Laws.antt =====
-- src/dns/cache.rs: the times to live, the key, and what a read can give.
use rust_dns_backend.Base.{
  ◌↔◌, ◌≢◌, none, All, Bool-cases, ℕ, ◌+◌, ◌≤◌, ◌<◌, ◌≡◌, refl, sym, ◌∙◌, ap, inl, inr, false,
  Option, some, List, [], ◌∷◌, ◌++◌, arith, Option-cases,
}
use rust_dns_backend.Text.{Text, Unicode, contains, to_lowercase, text_eq}
use rust_dns_backend.Text.Laws.{contains-append, text_eq→≡, text_eq_iff}
use rust_dns_backend.Dns.{RecordType, Hickory}
use rust_dns_backend.Cache.{
  CacheEntry, MokaCrate, MokaLaws, clamp_ttl, cache_key, get, set_with_ttl, expire_after_create,
  ttl_min_secs, ttl_max_secs,
}

-- The time to live of an entry lies between five seconds and a day, and is the upstream's own where
-- that does.
pub clamp_ttl_bounds :
    (min_ttl : Option ℕ)
    → (ttl_min_secs ≤ clamp_ttl min_ttl)
      × (clamp_ttl min_ttl ≤ ttl_max_secs)
      × ((t : ℕ) → min_ttl ≡ some t → ttl_min_secs ≤ t → t ≤ ttl_max_secs → clamp_ttl min_ttl ≡ t)
unfolding clamp_ttl
clamp_ttl_bounds min_ttl = (ground arith, ground arith, λ t e lo hi. ground arith)

-- The last colon of a text cuts it in one way.
last_colon :
    (s s' t t' : Text)
    → contains b':' t ≡ false
    → contains b':' t' ≡ false
    → s ++ b':' ∷ t ≡ s' ++ b':' ∷ t'
    → (s ≡ s') × (t ≡ t')
last_colon [] [] t t' h h' e = (refl, ground arith)
last_colon [] (x ∷ s') t t' h h' e =
    let same : t ≡ s' ++ b':' ∷ t' = ground arith in
    let bad = contains-append b':' s' t' in absurd (ground arith)
last_colon (x ∷ s) [] t t' h h' e =
    let same : s ++ b':' ∷ t ≡ t' = ground arith in
    let bad = contains-append b':' s t in absurd (ground arith)
last_colon (x ∷ s) (y ∷ s') t t' h h' e =
    let head : x ≡ y = ground arith in
    let tail : s ++ b':' ∷ t ≡ s' ++ b':' ∷ t' = ground arith in
    let (p, q) = last_colon s s' t t' h h' tail in (ground arith, q)

module _ ⦃u : Unicode⦄ ⦃hickory : Hickory⦄ where
  -- Two queries share a key exactly when their names agree up to case and their types print alike,
  -- provided that no type prints with a colon.
  pub cache_key_iff :
      (d e : Text) (q r : RecordType)
      → contains b':' (hickory.debug_type q) ≡ false
      → contains b':' (hickory.debug_type r) ≡ false
      → (cache_key d q ≡ cache_key e r)
        ↔ ((to_lowercase d ≡ to_lowercase e) × (hickory.debug_type q ≡ hickory.debug_type r))
  unfolding cache_key
  cache_key_iff d e q r h k = (
    last_colon (to_lowercase d) (to_lowercase e) (hickory.debug_type q) (hickory.debug_type r) h k,
    λ (p, t). cc,
  )

-- A call of `set_with_ttl`, at a time in seconds.
pub record Write : Type 0 where
  pub at : ℕ
  pub domain : Text
  pub qtype : RecordType
  pub bytes : List ℕ
  pub min_ttl : Option ℕ

abbrev entry_of : Write → CacheEntry
entry_of w = record { bytes = w.bytes; ttl = clamp_ttl w.min_ttl }

-- Writes, the newest first, at times that do not fall.
abbrev pub AreOrdered : List Write → Type 0
AreOrdered [] = Unit
AreOrdered (w ∷ ws) = All (λ (v : Write). v.at ≤ w.at) ws × AreOrdered ws

module _ ⦃u : Unicode⦄ ⦃hickory : Hickory⦄ where
  abbrev pub key_of : Write → Text
  key_of w = cache_key w.domain w.qtype

  -- `w` is the newest of the writes under the key `k`.
  pub data IsLast (k : Text) (w : Write) : List Write → Type 0 where
    newest : (ws : List Write) → key_of w ≡ k → IsLast k w (w ∷ ws)
    before : (v : Write) (ws : List Write) → key_of v ≢ k → IsLast k w ws → IsLast k w (v ∷ ws)

  IsLast-All :
      (P : Write → Type 0) (k : Text) (w : Write) (ws : List Write) → All P ws → IsLast k w ws → P w
  IsLast-All P k w [] a l = elim l [ ]
  IsLast-All P k w (v ∷ ws) a (newest _ e) = a.0
  IsLast-All P k w (v ∷ ws) a (before _ _ n l) = IsLast-All P k w ws a.1 l

module _ ⦃u : Unicode⦄ ⦃hickory : Hickory⦄ {C : Type 0} ⦃moka : MokaCrate CacheEntry C⦄ where
  -- The cache after the writes.
  unfoldable pub write_all : C → List Write → C
  unfolding set_with_ttl
  write_all c [] = c
  write_all c (w ∷ ws) = set_with_ttl w.at (write_all c ws) w.domain w.qtype w.bytes w.min_ttl

  module _ (laws : MokaLaws expire_after_create moka) (c : C)
      (fresh : (now : ℕ) (k : Text) → moka.cache_get now k c ≡ none) where
    -- What an entry says of the write that it came from.
    abbrev From : Text → List Write → CacheEntry → Type 0
    From k ws e =
        (w : Write) × IsLast k w ws
        × (e ≡ entry_of w)
        × (laws.deadline k (write_all c ws) ≤ w.at + ttl_max_secs)

    deadline_le :
        (w : Write) (ws : List Write)
        → ((now : ℕ) (e : CacheEntry)
            → moka.cache_get now (key_of w) (write_all c ws) ≡ some e
            → From (key_of w) ws e)
        → All (λ (v : Write). v.at ≤ w.at) ws
        → laws.deadline (key_of w) (moka.cache_insert w.at (key_of w) (entry_of w) (write_all c ws))
          ≤ w.at + ttl_max_secs
    unfolding expire_after_create
    deadline_le w ws ih ordered =
        elim (Option-cases (moka.cache_get w.at (key_of w) (write_all c ws))) [
          | inl n ↦ omega (
            arith,
            (clamp_ttl_bounds w.min_ttl).1,
            laws.deadline_created w.at (key_of w) (entry_of w) (write_all c ws) n,
          )
          | inr (old, e) ↦
              let (v, last, _, le) = ih w.at old e in
              let earlier : v.at ≤ w.at = IsLast-All _ (key_of w) v ws ordered last in
              omega (
                arith,
                le,
                earlier,
                laws.deadline_kept w.at (key_of w) (entry_of w) (write_all c ws) e,
              )
        ]

    get-From :
        (ws : List Write)
        → AreOrdered ws
        → (k : Text) (now : ℕ) (e : CacheEntry) → moka.cache_get now k (write_all c ws) ≡ some e
        → From k ws e
    unfolding write_all
    get-From [] o k now e h = let n = fresh now k in absurd (ground arith)
    get-From (w ∷ ws) o k now e h = elim (Bool-cases (text_eq (key_of w) k)) [
      | inl t ↦
          let same : key_of w ≡ k = text_eq→≡ (key_of w) k t in
          rw (← same) (
            w,
            newest ws refl,
            laws.get_written now w.at (key_of w) (entry_of w) (write_all c ws) (rw (← same) at h),
            deadline_le w ws (get-From ws o.1 (key_of w)) o.0,
          )
      | inr t ↦
          let other : ¬ (key_of w ≡ k) =
            λ same. let r = (text_eq_iff (key_of w) k).1 same in absurd (ground (arith, r)) in
          let (v, last, value, le) =
            get-From ws o.1 k now e
              (laws.get_other now w.at (key_of w) k (entry_of w) (write_all c ws) other h) in
          (
            v,
            before w ws other last,
            value,
            rw (laws.deadline_other w.at (key_of w) k (entry_of w) (write_all c ws) other) le,
          )
    ]

  -- After any writes to a flushed cache, at times that do not fall, what is read for a name and a type
  -- was written by the last write under the same key, and less than a day before, also where writes
  -- overwrite one another. The cache is taken to keep what `moka` promises.
  pub get-write_all :
      (laws : MokaLaws expire_after_create moka) (c : C) (ws : List Write) (now : ℕ) (domain : Text)
      (qtype : RecordType) {found : List ℕ}
      → AreOrdered ws
      → get now (write_all (moka.cache_invalidate_all c) ws) domain qtype ≡ some found
      → (w : Write) × IsLast (cache_key domain qtype) w ws
        × (found ≡ w.bytes)
        × (now < w.at + ttl_max_secs)
  unfolding get
  get-write_all laws c ws now domain qtype {found} ordered h =
      let start = moka.cache_invalidate_all c in
      let k = cache_key domain qtype in
      elim (Option-cases (moka.cache_get now k (write_all start ws))) [
        | inl n ↦ absurd (ground (arith, n))
        | inr (e, read) ↦
            let shown : e.bytes ≡ found = ground (arith, read) in
            let (w, last, value, le) =
              get-From laws start (λ t j. laws.get_invalidated_all t j c) ws ordered k now e read in
            (
              w,
              last,
              sym shown ∙ ap (λ (x : CacheEntry). x.bytes) value,
              omega (arith, le, laws.get_live now k (write_all start ws) read),
            )
      ]

  -- An entry that is created, not overwritten, lives no longer than its clamped time.
  pub get-set_with_ttl :
      (laws : MokaLaws expire_after_create moka) (now written : ℕ) (c : C) (d e : Text)
      (q r : RecordType) (bytes : List ℕ) (min_ttl : Option ℕ) {found : List ℕ}
      → get written c d q ≡ none
      → cache_key d q ≡ cache_key e r
      → get now (set_with_ttl written c d q bytes min_ttl) e r ≡ some found
      → (found ≡ bytes) × (now < written + clamp_ttl min_ttl)
  unfolding get set_with_ttl expire_after_create
  get-set_with_ttl laws now written c d e q r bytes min_ttl {found} absent same h =
      let entry : CacheEntry = record { bytes = bytes; ttl = clamp_ttl min_ttl } in
      let k = cache_key d q in
      let after = moka.cache_insert written k entry c in
      let none_there : moka.cache_get written k c ≡ none =
        elim (Option-cases (moka.cache_get written k c)) [
          | inl n ↦ n
          | inr (w, n) ↦ absurd (ground (arith, n))
        ] in
      elim (Option-cases (moka.cache_get now (cache_key e r) after)) [
        | inl n ↦ absurd (ground (arith, n))
        | inr (w, found_there) ↦
            let shown : w.bytes ≡ found = ground (arith, found_there) in
            let read : moka.cache_get now k after ≡ some w =
              ap (λ (j : Text). moka.cache_get now j after) same ∙ found_there in
            let value = laws.get_written now written k entry c read in
            (
              sym shown ∙ ap (λ (x : CacheEntry). x.bytes) value,
              omega (
                arith,
                laws.get_live now k after read,
                laws.deadline_created written k entry c none_there,
              ),
            )
      ]
