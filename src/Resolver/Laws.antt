-- ===== src/Resolver/Laws.antt =====
-- src/dns/resolver.rs: what every response of `DnsResolver::resolve` carries over, and that a failed
-- lookup is no error of `resolve`.
use rust_dns_backend.Base.{
  sym, ◌∙◌, sym, ◌∙◌, ℕ, ◌≤◌, ◌≡◌, refl, ◌⊎◌, inl, inr, none, some, List, [], ◌∷◌, min, arith, In,
  here, there,
}
use rust_dns_backend.Text.{Text}
use rust_dns_backend.Dns.{
  Bytes, response, no_error, serv_fail, ResponseCode, RecordType, Record, Message, Hickory,
}
use rust_dns_backend.Resolver.{
  Lookup, found, no_records_found, lookup_error, LookupCrate, min_ttl_of, lookup_response, resolve,
}

-- The response code that a lookup stands for.
abbrev pub code_of : Lookup → ResponseCode
code_of (found records) = no_error
code_of (no_records_found code) = code
code_of lookup_error = serv_fail

abbrev pub records_of : Lookup → List Record
records_of (found records) = records
records_of (no_records_found code) = []
records_of lookup_error = []

-- Whatever the lookup gives, the response has the identifier and the questions of the request, its
-- answers are the records found, and its code is that of the lookup.
pub record Answers (request : Message) (l : Lookup) (message : Message) : Type 0 where
  pub same_id : message.id ≡ request.id
  pub is_response : message.message_type ≡ response
  pub same_queries : message.queries ≡ request.queries
  pub same_recursion : message.recursion_desired ≡ request.recursion_desired
  pub right_code : message.response_code ≡ code_of l
  pub right_answers : message.answers ≡ records_of l

-- The response that a lookup leads to has the request's id, questions and recursion flag, and the
-- response code and the records of the lookup's outcome: SERVFAIL and none for a lookup error.
pub lookup_response-Answers :
    (request : Message) (l : Lookup) → Answers request l (lookup_response request l).0
unfolding lookup_response
lookup_response-Answers request (found records) = record {
  same_id = refl;
  is_response = refl;
  same_queries = refl;
  same_recursion = refl;
  right_code = refl;
  right_answers = refl;
}
lookup_response-Answers request (no_records_found code) = record {
  same_id = refl;
  is_response = refl;
  same_queries = refl;
  same_recursion = refl;
  right_code = refl;
  right_answers = refl;
}
lookup_response-Answers request lookup_error = record {
  same_id = refl;
  is_response = refl;
  same_queries = refl;
  same_recursion = refl;
  right_code = refl;
  right_answers = refl;
}

In-cons_bound :
    (x : ℕ) (r : Record) (rs : List Record)
    → x ≤ r.record_ttl
    → ((q : Record) → In q rs → x ≤ q.record_ttl)
    → (q : Record) → In q (r ∷ rs)
    → x ≤ q.record_ttl
In-cons_bound x r rs h k q here = h
In-cons_bound x r rs h k q (there m) = k q m

min-cases : (m n : ℕ) → (min m n ≡ m) ⊎ (min m n ≡ n)
min-cases m n = grind arith

-- The accumulated minimum is below the accumulator and below each record, and is one of them.
min_ttl_of-some :
    (m : ℕ) (rs : List Record)
    → (t : ℕ) × (min_ttl_of (some m) rs ≡ some t)
      × (t ≤ m)
      × ((r : Record) → In r rs → t ≤ r.record_ttl)
      × ((t ≡ m) ⊎ ((r : Record) × In r rs × (t ≡ r.record_ttl)))
unfolding min_ttl_of
min_ttl_of-some m [] = (m, refl, omega arith, λ r i. elim i [ ], inl refl)
min_ttl_of-some m (r ∷ rs) =
    let (t, e, below, all_below, from) = min_ttl_of-some (min m r.record_ttl) rs in
    (
      t,
      e,
      omega arith,
      In-cons_bound t r rs (omega arith) all_below,
      elim from [
        | inr (q, i, k) ↦ inr (q, there i, k)
        | inl k ↦ elim (min-cases m r.record_ttl) [
          | inl left ↦ inl (k ∙ left)
          | inr right ↦ inr (r, here, k ∙ right)
        ]
      ],
    )

-- The same, from the start of the loop.
min_ttl_of-none :
    (rs : List Record) {t : ℕ}
    → min_ttl_of none rs ≡ some t
    → ((r : Record) → In r rs → t ≤ r.record_ttl) × ((r : Record) × In r rs × (t ≡ r.record_ttl))
unfolding min_ttl_of
min_ttl_of-none [] h = cc
min_ttl_of-none (r ∷ rs) {t} h =
    let (m, e, below, all_below, from) = min_ttl_of-some r.record_ttl rs in
    let both : some m ≡ some t = sym e ∙ h in
    let same : m ≡ t = cc in
    (
      In-cons_bound t r rs (omega arith) (λ q i. omega (arith, all_below q i)),
      elim from [ inl k ↦ (r, here, sym same ∙ k) | inr (q, i, k) ↦ (q, there i, sym same ∙ k) ],
    )

-- Where a least time to live is given, it is that of one of the records found, and no record has a
-- smaller one.
pub min_ttl_lem :
    (request : Message) (l : Lookup) {t : ℕ}
    → (lookup_response request l).1 ≡ some t
    → ((r : Record) → In r (records_of l) → t ≤ r.record_ttl)
      × ((r : Record) × In r (records_of l) × (t ≡ r.record_ttl))
unfolding lookup_response
min_ttl_lem request (found records) h = min_ttl_of-none records h
min_ttl_lem request (no_records_found code) h = cc
min_ttl_lem request lookup_error h = cc

module _ {R : Type 0} ⦃client : LookupCrate R⦄ ⦃hickory : Hickory⦄ where
  -- `resolve` fails only where the response cannot be written out: a lookup error is answered by a
  -- response with the code SERVFAIL, which is a success to the caller.
  pub resolve_total :
      (inner : R) (domain : Text) (qtype : RecordType) (request : Message) (bytes : Bytes)
      → hickory.to_vec (lookup_response request (client.lookup inner domain qtype)).0 ≡ some bytes
      → resolve inner domain qtype request
        ≡ some (bytes, (lookup_response request (client.lookup inner domain qtype)).1, none)
  unfolding resolve
  resolve_total inner domain qtype request bytes h = rw (h, resolve)
