-- ===== src/Pool/Answer.antt =====
-- src/dns/upstream_pool.rs, `UpstreamPool::resolve`: whose answer a query gets.
use rust_dns_backend.Resolver.Laws.{lookup_response-Answers, resolve_total}
use rust_dns_backend.Base.{
  refl, ap, ◌∙◌, ◌≡◌, inl, inr, none, some, List, [], ◌∷◌, ◌++◌, arith, Option-cases, All, Option,
}
use rust_dns_backend.Text.{Text}
use rust_dns_backend.Dns.{RecordType, Message, Hickory, Bytes, serv_fail}
use rust_dns_backend.Resolver.{LookupCrate, Resolved, resolve, lookup_error, lookup_response}
use rust_dns_backend.Pool.{
  UpstreamNode, try_nodes, Shuffle, pool_resolve, UpstreamPool, nodes_to_try,
}

module _ {R : Type 0} ⦃client : LookupCrate R⦄ ⦃hickory : Hickory⦄ where
  abbrev pub Fails : Text → RecordType → Message → UpstreamNode R → Type 0
  Fails domain qtype request n = resolve n.resolver domain qtype request ≡ none

  -- The answer is that of the first node, in the order tried, whose `resolve` succeeds, under the
  -- node's name.
  try_nodes_lem :
      (before : List (UpstreamNode R)) (n : UpstreamNode R) (behind : List (UpstreamNode R))
      (domain : Text) (qtype : RecordType) (request : Message) {answer : Resolved}
      → All (Fails domain qtype request) before
      → resolve n.resolver domain qtype request ≡ some answer
      → try_nodes (before ++ n ∷ behind) domain qtype request
        ≡ some (answer.0, answer.1, some n.model.name)
  unfolding try_nodes
  try_nodes_lem [] n behind domain qtype request f e = rw (e, try_nodes)
  try_nodes_lem (x ∷ before) n behind domain qtype request f e =
      rw (f.0, try_nodes) (try_nodes_lem before n behind domain qtype request f.1 e)

  -- It is an error exactly when every node's `resolve` fails.
  try_nodes-none :
      (ns : List (UpstreamNode R)) (domain : Text) (qtype : RecordType) (request : Message)
      → try_nodes ns domain qtype request ≡ none
      → All (Fails domain qtype request) ns
  unfolding try_nodes
  try_nodes-none [] domain qtype request h = tt
  try_nodes-none (n ∷ ns) domain qtype request h =
      elim (Option-cases (resolve n.resolver domain qtype request)) [
        | inl e ↦ (e, try_nodes-none ns domain qtype request (rw (e, try_nodes) at h))
        | inr (a, e) ↦ absurd (ground arith)
      ]

  -- The first node tried whose `resolve` succeeds gives the answer, under its own name, and the pool
  -- fails only if every node does.
  pub pool_resolve_lem :
      (shuffle : Shuffle R) (pool : UpstreamPool R) (domain : Text) (qtype : RecordType)
      (request : Message)
      → ((before : List (UpstreamNode R)) (n : UpstreamNode R) (behind : List (UpstreamNode R))
            (answer : Resolved)
          → nodes_to_try shuffle pool ≡ before ++ n ∷ behind
          → All (Fails domain qtype request) before
          → resolve n.resolver domain qtype request ≡ some answer
          → pool_resolve shuffle pool domain qtype request
            ≡ some (answer.0, answer.1, some n.model.name))
        × (pool_resolve shuffle pool domain qtype request ≡ none
            → All (Fails domain qtype request) (nodes_to_try shuffle pool))
  unfolding pool_resolve
  pool_resolve_lem shuffle pool domain qtype request = (
    λ before n behind answer order f e.
        rw order (try_nodes_lem before n behind domain qtype request f e),
    λ h. try_nodes-none (nodes_to_try shuffle pool) domain qtype request h,
  )

  -- A lookup error of the node tried first (a timeout, a refused connection) is the answer of the
  -- pool: a SERVFAIL response, with no time to live, whatever the other nodes would have answered.
  pub pool_resolve-lookup_error :
      (shuffle : Shuffle R) (pool : UpstreamPool R) (domain : Text) (qtype : RecordType)
      (request : Message) (n : UpstreamNode R) (behind : List (UpstreamNode R)) (bytes : Bytes)
      → nodes_to_try shuffle pool ≡ n ∷ behind
      → client.lookup n.resolver domain qtype ≡ lookup_error
      → hickory.to_vec (lookup_response request lookup_error).0 ≡ some bytes
      → (pool_resolve shuffle pool domain qtype request ≡ some (bytes, none, some n.model.name))
        × ((lookup_response request lookup_error).0.response_code ≡ serv_fail)
  pool_resolve-lookup_error shuffle pool domain qtype request n behind bytes order failed written =
      (
        (pool_resolve_lem shuffle pool domain qtype request).0 [] n behind (bytes, none, none) order
            tt
            (resolve_total n.resolver domain qtype request bytes (rw failed written)
              ∙ ap (λ l. some (bytes, (lookup_response request l).1, none)) failed
              ∙ no_ttl request bytes),
        (lookup_response-Answers request lookup_error).right_code,
      )
    where
      no_ttl :
          (request : Message) (bytes : Bytes)
          → ◌≡◌ {A = Option Resolved}
              (some (bytes, (lookup_response request lookup_error).1, none))
              (some (bytes, none, none))
      no_ttl request bytes = unfold lookup_response in refl
