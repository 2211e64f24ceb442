-- ===== src/Health/Recovery.antt =====
-- src/api/mod.rs with src/dns/upstream_pool.rs: what a round of probes does for an upstream that was failed
-- over, and what it leaves to a reload.
use rust_dns_backend.Base.{
  ◌≡◌, refl, ap, sym, ◌∙◌, ◌⊎◌, inl, inr, true, false, some, List, [], ◌∷◌, map, arith, In, here,
  there, Bool-cases, Option-cases, Bool, ◌&&◌,
}
use rust_dns_backend.Text.{Text, Unicode, codes, text_eq}
use rust_dns_backend.Text.Laws.{text_eq→≡, text_eq_refl}
use rust_dns_backend.Resolver.Config.{ConfigCrate}
use rust_dns_backend.Pool.{Upstream, UpstreamNode, PoolEnv, store_latency, update_latency}
use rust_dns_backend.Pool.New.{new_pool_lem}
use rust_dns_backend.Health.{find_row, set_status, status_of, reload_upstreams}
use rust_dns_backend.Health.Status.{with_status, healthy, usable, find_row-In, find_row-set_status}
use rust_dns_backend.Health.Probe.{
  ProbeState, ProbeInput, is_probed, record_probe, probe_row, probe_rows, probe_round,
}

-- The upstreams that a pool serves, in order.
abbrev pub models : {R : Type 0} → List (UpstreamNode R) → List Upstream
models nodes = map (λ (n : UpstreamNode _). n.model) nodes

store_latency-models :
    {R : Type 0} (id : Text) (latency : _) (nodes : List (UpstreamNode R))
    → models (store_latency id latency nodes) ≡ models nodes
unfolding store_latency
store_latency-models id latency [] = refl
store_latency-models id latency (n ∷ nodes) =
    let rest = store_latency-models id latency nodes in
    elim (Bool-cases (text_eq n.model.id id)) [
      | inl e ↦ rw e (ap (λ (ms : List Upstream). n.model ∷ ms) rest)
      | inr e ↦ rw e (ap (λ (ms : List Upstream). n.model ∷ ms) rest)
    ]

In-tail :
    (x m : Upstream) (ms : List Upstream) → In m (x ∷ ms) → text_eq m.id x.id ≡ false → In m ms
In-tail x m ms here e = let k = text_eq_refl x.id in absurd (ground (arith, k))
In-tail x m ms (there i) e = i

module _ {R : Type 0} (env : PoolEnv R) (input : ProbeInput) where
  probe_row-models :
      (m : Upstream) (s : ProbeState R)
      → models (probe_row env input m s).pool.nodes ≡ models s.pool.nodes
  unfolding probe_row record_probe update_latency
  probe_row-models m s = elim (Bool-cases (is_probed m && input.due m.id)) [
    | inr e ↦ rw e refl
    | inl e ↦ elim (Option-cases (env.json_strings m.addresses)) [
      | inl k ↦ rw (e, k) refl
      | inr ([], k) ↦ rw (e, k) refl
      | inr (a ∷ more, k) ↦ rw (e, k) (store_latency-models m.id (input.latency m.id) s.pool.nodes)
    ]
  ]

  probe_rows-models :
      (ms : List Upstream) (s : ProbeState R)
      → models (probe_rows env input ms s).pool.nodes ≡ models s.pool.nodes
  unfolding probe_rows
  probe_rows-models [] s = refl
  probe_rows-models (m ∷ ms) s =
      probe_rows-models ms (probe_row env input m s) ∙ probe_row-models m s

  record_probe-rows :
      (id : Text) (success : Bool) (s : ProbeState R)
      → input.write_fails id ≡ false
      → (record_probe input id success s).rows ≡ set_status id (status_of success) s.rows
  unfolding record_probe
  record_probe-rows id success s h = rw h refl

  module _ (m : Upstream) (first_addr : Text) (others : List Text) (active : m.is_active ≡ true)
      (checked : m.health_check_enabled ≡ true) (due : input.due m.id ≡ true)
      (parsed : env.json_strings m.addresses ≡ some (first_addr ∷ others))
      (reached : input.reached first_addr ≡ true) (written : input.write_fails m.id ≡ false) where
    -- The row is found with some status.
    abbrev Stands : Text → ProbeState R → Type 0
    Stands status s = find_row m.id s.rows ≡ some (with_status m status)

    probe_row-run :
        (s : ProbeState R)
        → probe_row env input m s ≡ record_probe input m.id (input.reached first_addr) s
    unfolding probe_row is_probed
    probe_row-run s = ground (arith, active, checked, due, parsed)

    probe_row-own :
        (status : Text) (s : ProbeState R)
        → Stands status s
        → Stands (codes "healthy") (probe_row env input m s)
    probe_row-own status s h =
        let set : find_row m.id (set_status m.id (codes "healthy") s.rows) ≡ some (healthy m) =
          find_row-set_status m.id m.id (codes "healthy") s.rows h ∙ rw (text_eq_refl m.id) refl in
        ap (λ (t : ProbeState R). find_row m.id t.rows) (probe_row-run s)
        ∙ (ap (find_row m.id) (record_probe-rows m.id (input.reached first_addr) s written)
            ∙ rw reached set)

    probe_row-other :
        (x : Upstream) (status : Text) (s : ProbeState R)
        → text_eq m.id x.id ≡ false
        → Stands status s
        → Stands status (probe_row env input x s)
    unfolding probe_row record_probe
    probe_row-other x status s n h = elim (Bool-cases (is_probed x && input.due x.id)) [
      | inr e ↦ rw e h
      | inl e ↦ elim (Option-cases (env.json_strings x.addresses)) [
        | inl k ↦ rw (e, k) h
        | inr ([], k) ↦ rw (e, k) h
        | inr (a ∷ more, k) ↦ elim (Bool-cases (input.write_fails x.id)) [
          | inl w ↦ rw (e, k, w) h
          | inr w ↦
              rw (e, k, w)
                (find_row-set_status m.id x.id (status_of (input.reached a)) s.rows h ∙ rw n refl)
        ]
      ]
    ]

    probe_rows-healthy :
        (ms : List Upstream) (status : Text) (s : ProbeState R)
        → ((x : Upstream) → In x ms → x.id ≡ m.id → x ≡ m)
        → Stands status s
        → In m ms ⊎ (status ≡ codes "healthy")
        → Stands (codes "healthy") (probe_rows env input ms s)
    unfolding probe_rows
    probe_rows-healthy [] status s unique h (inl i) = elim i [ ]
    probe_rows-healthy [] status s unique h (inr e) = rw (← e) h
    probe_rows-healthy (x ∷ ms) status s unique h c =
        let later = λ (y : Upstream) (i : In y ms). unique y (there i) in
        elim (Bool-cases (text_eq m.id x.id)) [
          | inl e ↦
              let own : x ≡ m = unique x here (sym (text_eq→≡ m.id x.id e)) in
              probe_rows-healthy ms (codes "healthy") (probe_row env input x s) later
                (ap (λ (y : Upstream). find_row m.id (probe_row env input y s).rows) own
                  ∙ probe_row-own status s h)
                (inr refl)
          | inr e ↦
              let rest : In m ms ⊎ (status ≡ codes "healthy") = elim c [
                | inr k ↦ inr k
                | inl i ↦ inl (In-tail x m ms i e)
              ] in
              probe_rows-healthy ms status (probe_row env input x s) later
                (probe_row-other x status s e h) rest
        ]

    module _ ⦃u : Unicode⦄ ⦃config : ConfigCrate⦄ (prefer_ipv4 : Bool) (strategy : Text) where
      -- A round of the probes of the API does not bring an upstream that was failed over back into the
      -- pool, and makes it ready for the next reload: the pool serves the same upstreams as before, and
      -- a pool that is made of the rows after the round has a node for the upstream. The upstream is an
      -- active row of its own id with checks enabled, its interval is over, its first address is
      -- reached, and its status is written; what else the round probes may go in any way.
      pub probe_round-reload_upstreams :
          (s : ProbeState R)
          → input.read_ok ≡ true
          → find_row m.id s.rows ≡ some m
          → ((x : Upstream) → In x s.rows → x.id ≡ m.id → x ≡ m)
          → (models (probe_round env input s).pool.nodes ≡ models s.pool.nodes)
            × ((n : UpstreamNode R) × In n
                  (reload_upstreams env prefer_ipv4 strategy (probe_round env input s).rows).nodes
                × (n.model ≡ with_status m (codes "healthy")))
      unfolding probe_round reload_upstreams
      probe_round-reload_upstreams s read_ok found unique =
          let after = (probe_rows env input s.rows s).rows in
          let stands : In (healthy m) after = find_row-In m.id after (
            probe_rows-healthy s.rows m.health_status s unique found
              (inl (find_row-In m.id s.rows found))) in
          rw (read_ok, probe_round)
            (
              probe_rows-models s.rows s,
              (new_pool_lem env prefer_ipv4 after strategy).3 (healthy m) (first_addr ∷ others)
                  stands (usable m active) parsed refl,
            )
