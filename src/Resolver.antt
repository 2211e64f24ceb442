-- ===== src/Resolver.antt =====
-- src/dns/resolver.rs, `DnsResolver::resolve`: a lookup made into a response message. The client of
-- `hickory_resolver` is the instance `LookupCrate`.
pub mod Laws
pub mod Url
pub mod UrlLaws
pub mod Config
pub mod ConfigLaws
use rust_dns_backend.Base.{
  ℕ, ◌≡◌, Bool, true, false, Option, none, some, List, [], ◌∷◌, ◌++◌, min, if◌then◌else◌,
}
use rust_dns_backend.Text.{Text}
use rust_dns_backend.Dns.{
  Bytes, MessageType, query, response, op_query, ResponseCode, no_error, serv_fail, RecordType,
  Record, Message, new_message, Hickory,
}

-- What `TokioAsyncResolver::lookup` gives: records, no records with a response code, or any other
-- error (a timeout, a refused connection).
pub data Lookup : Type 0 where
  found : List Record → Lookup
  no_records_found : ResponseCode → Lookup
  lookup_error : Lookup

pub record LookupCrate (R : Type 0) : Type 0 where
  pub lookup : R → Text → RecordType → Lookup

-- The fold of the loop over the records.
unfoldable pub min_ttl_of : Option ℕ → List Record → Option ℕ
min_ttl_of acc [] = acc
min_ttl_of acc (r ∷ rs) =
    min_ttl_of
      (elim acc [ none ↦ some r.record_ttl | some current ↦ some (min current r.record_ttl) ]) rs

unfoldable pub response_header : Message → Message
response_header request = record new_message {
  id = request.id;
  message_type = response;
  op_code = op_query;
  recursion_desired = request.recursion_desired;
  recursion_available = true;
  queries = request.queries;
}

-- The response that a lookup leads to, and its least time to live.
unfoldable pub lookup_response : Message → Lookup → Message × Option ℕ
unfolding response_header min_ttl_of
lookup_response request (found records) = (
  record (response_header request) { response_code = no_error; answers = records },
  min_ttl_of none records,
)
lookup_response request (no_records_found code) =
    (record (response_header request) { response_code = code }, none)
lookup_response request lookup_error =
    (record (response_header request) { response_code = serv_fail }, none)

-- `(response_bytes, min_ttl, upstream_name)`
abbrev pub Resolved : Type 0
Resolved = Bytes × Option ℕ × Option Text

module _ {R : Type 0} ⦃client : LookupCrate R⦄ ⦃hickory : Hickory⦄ where
  unfoldable pub resolve : R → Text → RecordType → Message → Option Resolved
  resolve inner domain qtype request =
      let (message, min_ttl) = lookup_response request (client.lookup inner domain qtype) in
      elim (hickory.to_vec message) [ none ↦ none | some bytes ↦ some (bytes, min_ttl, none) ]
