-- ===== src/QueryLog/Bursts.antt =====
-- src/db/query_log_writer.rs: how often a burst of blocked queries raises an alert.
use rust_dns_backend.Base.{
  ℕ, suc, sym, append_nil, ◌+◌, ◌≡◌, ◌≤◌, refl, ◌∙◌, ap, inl, inr, true, false, some, List, [], ◌∷◌,
  ◌++◌, ◌==◌, append_assoc, arith, ltb, leb, ◌&&◌, if◌then◌else◌, Bool-cases, length, All,
}
use rust_dns_backend.Text.{Text}
use rust_dns_backend.Map.{map_get, map_get-insert_self}
use rust_dns_backend.QueryLog.{Detector, seconds_since, track, count_block}

-- Blocked queries of one client at the given times.
unfoldable pub count_blocks : Text → List ℕ → Detector → Detector
count_blocks client [] d = d
count_blocks client (now ∷ times) d = count_blocks client times (count_block client now d)

-- One alert when the count passes from below fifty to fifty or more.
abbrev pub crossing : Text → ℕ → ℕ → List Text
crossing client before behind = if leb before 49 && leb 50 behind then client ∷ [] else []

crossing_one :
    (client : Text) (count : ℕ) (xs : List Text)
    → (if count + 1 == 50 then xs ++ client ∷ [] else xs) ≡ xs ++ crossing client count (count + 1)
crossing_one client count xs = elim (Bool-cases (count + 1 == 50)) [
  | inl e ↦ let k : (leb count 49 && leb 50 (count + 1)) ≡ true = ground arith in rw (e, k) refl
  | inr e ↦
      let k : (leb count 49 && leb 50 (count + 1)) ≡ false = ground arith in
      rw (e, k) (sym (append_nil xs))
]

crossing_none : (client : Text) (count : ℕ) → crossing client count count ≡ []
crossing_none client count =
    let k : (leb count 49 && leb 50 count) ≡ false = ground arith in rw k refl

crossing-append :
    (client : Text) (count more : ℕ)
    → crossing client count (count + 1) ++ crossing client (count + 1) (count + 1 + more)
      ≡ crossing client count (count + 1 + more)
crossing-append client count more = ground arith

tracked :
    (client : Text) (now count first : ℕ) (d : Detector)
    → map_get client d.block_counts ≡ some (count, first)
    → seconds_since now first ≤ 60
    → (map_get client (count_block client now d).block_counts ≡ some (count + 1, first))
      × ((count_block client now d).alerts ≡ d.alerts ++ crossing client count (count + 1))
unfolding count_block track
tracked client now count first d h k =
    let e : ltb 60 (seconds_since now first) ≡ false = ground arith in
    rw (h, count_block)
      (rw (e, track)
        (
          map_get-insert_self client (count + 1, first) d.block_counts,
          crossing_one client count d.alerts,
        ))

-- While a client has a tracker and all further blocked queries come within sixty seconds of its
-- first, each of them is counted; one alert is raised if the count thereby goes from below fifty
-- to fifty or more, and none otherwise.
pub count_blocks_lem :
    (client : Text) (times : List ℕ) (count first : ℕ) (d : Detector)
    → map_get client d.block_counts ≡ some (count, first)
    → All (λ now. seconds_since now first ≤ 60) times
    → (map_get client (count_blocks client times d).block_counts
        ≡ some (count + length times, first))
      × ((count_blocks client times d).alerts
          ≡ d.alerts ++ crossing client count (count + length times))
unfolding count_blocks
count_blocks_lem client [] count first d h k =
    let same : count + 0 ≡ count = omega arith in
    rw same
      (h, sym (append_nil d.alerts) ∙ ap (λ t. d.alerts ++ t) (sym (crossing_none client count)))
count_blocks_lem client (now ∷ times) count first d h k =
    let (kept, one) = tracked client now count first d h k.0 in
    let (last, rest) =
      count_blocks_lem client times (count + 1) first (count_block client now d) kept k.1 in
    let same : count + suc (length times) ≡ count + 1 + length times = omega arith in
    rw same (
      last,
      rest
          ∙ (ap (λ t. t ++ crossing client (count + 1) (count + 1 + length times)) one
              ∙ (append_assoc d.alerts (crossing client count (count + 1)) _
                  ∙ ap (λ t. d.alerts ++ t) (crossing-append client count (length times)))),
    )
