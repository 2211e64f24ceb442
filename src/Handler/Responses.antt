-- ===== src/Handler/Responses.antt =====
-- src/dns/handler.rs: the responses that the handler makes itself.
use rust_dns_backend.Base.{
  ℕ, zero, suc, true, Option, none, some, List, [], ◌∷◌, ◌/◌, ◌%◌, is_nil, if◌then◌else◌,
}
use rust_dns_backend.Text.{Text, codes}
use rust_dns_backend.Text.Split.{join}
use rust_dns_backend.Net.{IpAddr, v4, v6, parse_ip}
use rust_dns_backend.Dns.{
  Bytes, response, no_error, serv_fail, nx_domain, refused as refused_code, RecordType, a, aaaa,
  RData, a_data, aaaa_data, Record, Message, new_message, Hickory,
}

-- The data that an address gives to a query of its type.
unfoldable pub rewrite_data : IpAddr → RecordType → Option RData
rewrite_data (v4 ip) a = some (a_data ip)
rewrite_data (v6 ip) aaaa = some (aaaa_data ip)
rewrite_data _ _ = none

-- The message of `rewrite_response` before it is written out.
unfoldable pub rewrite_message : ℕ → Message → Text → RecordType → Option Message
unfolding rewrite_data
rewrite_message rewrite_ttl request answer qtype = elim (parse_ip answer) [
  | none ↦ none
  | some ip ↦ elim (rewrite_data ip qtype) [
    | none ↦ none
    | some rdata ↦ elim request.queries [
      | [] ↦ none
      | q ∷ _ ↦ some (record new_message {
        id = request.id;
        message_type = response;
        response_code = no_error;
        recursion_desired = request.recursion_desired;
        recursion_available = true;
        queries = q ∷ [];
        answers =
            record {
              owner = q.name;
              record_type = qtype;
              record_ttl = rewrite_ttl;
              rdata = some rdata;
            }
            ∷ [];
      })
    ]
  ]
]

module _ ⦃hickory : Hickory⦄ where
  unfoldable pub rewrite_response : ℕ → Message → Text → RecordType → Option Bytes
  rewrite_response rewrite_ttl request answer qtype =
      elim (rewrite_message rewrite_ttl request answer qtype) [
        | none ↦ none
        | some message ↦ hickory.to_vec message
      ]

  unfoldable pub nxdomain : Message → Option Bytes
  nxdomain request = hickory.to_vec (record new_message {
    id = request.id;
    message_type = response;
    response_code = nx_domain;
    recursion_desired = request.recursion_desired;
    recursion_available = true;
    queries = request.queries;
  })

  unfoldable pub servfail : Message → Option Bytes
  servfail request =
      hickory.to_vec
        (record new_message { id = request.id; message_type = response; response_code = serv_fail })

  unfoldable pub refused : Message → Option Bytes
  refused request = hickory.to_vec (record new_message {
    id = request.id;
    message_type = response;
    response_code = refused_code;
  })

  -- The data of the first `n` records that have some.
  unfoldable pub answer_parts : ℕ → List Record → List Text
  answer_parts zero rs = []
  answer_parts (suc n) [] = []
  answer_parts (suc n) (r ∷ rs) =
      let more = answer_parts n rs in
      let same = answer_parts (suc n) rs in
      elim r.rdata [ none ↦ same | some d ↦ hickory.show_data d ∷ more ]

  unfoldable pub extract_answer : Message → Option Text
  extract_answer message =
      let parts = answer_parts 5 message.answers in
      if is_nil parts then none else some (join (codes ", ") parts)

-- The id in the first two bytes, big-endian; shorter data stays as it is.
unfoldable pub patch_id : ℕ → Bytes → Bytes
patch_id id [] = []
patch_id id (b ∷ []) = b ∷ []
patch_id id (b ∷ c ∷ bytes) = (id / 256) % 256 ∷ id % 256 ∷ bytes
