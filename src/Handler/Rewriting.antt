-- ===== src/Handler/Rewriting.antt =====
-- src/dns/handler.rs: which rewrite answers a query, and what the response says.
use rust_dns_backend.Base.{
  ℕ, ◌≡◌, refl, ◌≢◌, ◌∙◌, ap, sym, inl, inr, some, List, [], ◌∷◌, arith, Option-cases, List-cases,
  All,
}
use rust_dns_backend.Text.{Text, Unicode, to_lowercase}
use rust_dns_backend.Net.{IpAddr, v4, v6, parse_ip}
use rust_dns_backend.Map.{Map, map_get}
use rust_dns_backend.Dns.{
  response, no_error, RecordType, a, aaaa, other_type, RData, a_data, aaaa_data, Query, Message,
}
use rust_dns_backend.Filter.{insert_rewrites, check_rewrite}
use rust_dns_backend.Filter.Rewrites.{or_else, last_answer, insert_rewrites-new, last_answer-none}
use rust_dns_backend.Client.{ClientConfig, ClientDb, load_group_rewrites_for_client}
use rust_dns_backend.Handler.Responses.{rewrite_data, rewrite_message}
use rust_dns_backend.Handler.State.{HandlerState}
use rust_dns_backend.Handler.Steps.{domain_normalized, rewrite_answer}

-- An IPv4 address answers A, and an IPv6 address AAAA.
pub data Fits : IpAddr → RecordType → RData → Type 0 where
  fits_a : {ip : ℕ} → Fits (v4 ip) a (a_data ip)
  fits_aaaa : {ip : List ℕ} → Fits (v6 ip) aaaa (aaaa_data ip)

rewrite_data-Fits :
    (ip : IpAddr) (qtype : RecordType) {rdata : RData}
    → rewrite_data ip qtype ≡ some rdata
    → Fits ip qtype rdata
unfolding rewrite_data
rewrite_data-Fits (v4 ip) a {rdata} h =
    let e : a_data ip ≡ rdata = ground arith in rw (sym e) fits_a
rewrite_data-Fits (v6 ip) aaaa {rdata} h =
    let e : aaaa_data ip ≡ rdata = ground arith in rw (sym e) fits_aaaa
rewrite_data-Fits (v4 ip) aaaa h = absurd (ground arith)
rewrite_data-Fits (v4 ip) (other_type n) h = absurd (ground arith)
rewrite_data-Fits (v6 ip) a h = absurd (ground arith)
rewrite_data-Fits (v6 ip) (other_type n) h = absurd (ground arith)

-- A rewrite is only made into a response when its answer is an address of the family that the query
-- asks for. The response then has the query's id, repeats its first question, and has one record, for
-- that question's name, with the address and the configured time to live.
pub rewrite_message_lem :
    (rewrite_ttl : ℕ) (request : Message) (answer : Text) (qtype : RecordType) {m : Message}
    → rewrite_message rewrite_ttl request answer qtype ≡ some m
    → (ip : IpAddr) × (rdata : RData) × (q : Query) × (qs : List Query) × (parse_ip answer
        ≡ some ip)
      × Fits ip qtype rdata
      × (request.queries ≡ q ∷ qs)
      × (m.id ≡ request.id)
      × (m.message_type ≡ response)
      × (m.response_code ≡ no_error)
      × (m.queries ≡ q ∷ [])
      × (m.answers
          ≡ record {
            owner = q.name;
            record_type = qtype;
            record_ttl = rewrite_ttl;
            rdata = some rdata;
          }
            ∷ [])
unfolding rewrite_message
rewrite_message_lem rewrite_ttl request answer qtype {m} h = elim (Option-cases (parse_ip answer)) [
  | inl e ↦ absurd (ground arith)
  | inr (ip, e) ↦ elim (Option-cases (rewrite_data ip qtype)) [
    | inl k ↦ absurd (ground arith)
    | inr (rdata, k) ↦ elim (List-cases request.queries) [
      | inl j ↦ absurd (ground arith)
      | inr (q, qs, j) ↦ (
        ip,
        rdata,
        q,
        qs,
        e,
        rewrite_data-Fits ip qtype k,
        j,
        ground arith,
        ground arith,
        ground arith,
        ground arith,
        ground arith,
      )
    ]
  ]
]

module _ ⦃u : Unicode⦄ {N S R C D E : Type 0} where
  -- For a client whose groups have rewrite rows, the last row whose domain, in lower case, is the name
  -- as it was asked answers; without one, the global rewrites do. Since the rows come by group
  -- priority, the group with the greatest number wins.
  pub rewrite_answer_lem :
      (db : ClientDb) (client_id : Text) (rows : List (Text × Text)) (rewrites : Map Text)
      (c : ClientConfig S) (s : HandlerState N S R C D E) (domain : Text)
      → db.group_rewrites client_id ≡ some rows
      → load_group_rewrites_for_client db client_id ≡ some rewrites
      → c.group_rewrites ≡ some rewrites
      → rewrite_answer c s domain
        ≡ or_else
            (last_answer (domain_normalized domain) rows)
            (check_rewrite s.filter (domain_normalized domain))
  unfolding rewrite_answer load_group_rewrites_for_client
  rewrite_answer_lem db client_id rows rewrites c s domain read loaded given =
      let made : insert_rewrites rows [] ≡ rewrites = ground arith in
      let found : map_get (domain_normalized domain) rewrites
          ≡ last_answer (domain_normalized domain) rows =
        ap (λ m. map_get (domain_normalized domain) m) (sym made)
        ∙ insert_rewrites-new (domain_normalized domain) rows in
      elim (Option-cases (last_answer (domain_normalized domain) rows)) [
        | inl e ↦ rw (given, found ∙ e, e, rewrite_answer) refl
        | inr (x, e) ↦ rw (given, found ∙ e, e, rewrite_answer) refl
      ]

  -- A name that is not the lower-case form of any row's domain, for instance one with a capital
  -- letter, gets none of the client's group rewrites.
  pub rewrite_answer-other :
      (db : ClientDb) (client_id : Text) (rows : List (Text × Text)) (rewrites : Map Text)
      (c : ClientConfig S) (s : HandlerState N S R C D E) (domain : Text)
      → db.group_rewrites client_id ≡ some rows
      → load_group_rewrites_for_client db client_id ≡ some rewrites
      → c.group_rewrites ≡ some rewrites
      → All (λ r. to_lowercase r.0 ≢ domain_normalized domain) rows
      → rewrite_answer c s domain ≡ check_rewrite s.filter (domain_normalized domain)
  rewrite_answer-other db client_id rows rewrites c s domain read loaded given other =
      rewrite_answer_lem db client_id rows rewrites c s domain read loaded given
      ∙ ap (λ o. or_else o (check_rewrite s.filter (domain_normalized domain)))
          (last_answer-none (domain_normalized domain) rows other)
