-- ===== src/Dns.antt =====
-- The DNS messages of the crate `hickory_proto`, as the handler and the resolver read and build
-- them through its accessors. Names are in their printed form.
use rust_dns_backend.Base.{ℕ, Bool, false, Option, List, []}
use rust_dns_backend.Text.{Text}

abbrev pub Bytes : Type 0
Bytes = List ℕ

pub data MessageType : Type 0 where
  query response : MessageType

pub data OpCode : Type 0 where
  op_query op_status op_notify op_update : OpCode

-- The codes that the source names; any other one by its number.
pub data ResponseCode : Type 0 where
  no_error serv_fail nx_domain refused : ResponseCode
  other_code : ℕ → ResponseCode

pub data RecordType : Type 0 where
  a aaaa : RecordType
  other_type : ℕ → RecordType

pub data RData : Type 0 where
  a_data : ℕ → RData
  aaaa_data : List ℕ → RData
  other_data : Text → RData

pub record Query : Type 0 where
  pub name : Text
  pub query_type : RecordType

pub record Record : Type 0 where
  pub owner : Text
  pub record_type : RecordType
  pub record_ttl : ℕ
  pub rdata : Option RData

pub record Message : Type 0 where
  pub id : ℕ
  pub message_type : MessageType
  pub op_code : OpCode
  pub response_code : ResponseCode
  pub recursion_desired : Bool
  pub recursion_available : Bool
  pub queries : List Query
  pub answers : List Record

-- `Message::new`
abbrev pub new_message : Message
new_message = record {
  id = 0;
  message_type = query;
  op_code = op_query;
  response_code = no_error;
  recursion_desired = false;
  recursion_available = false;
  queries = [];
  answers = [];
}

-- `Message::from_vec` and `to_vec` (`Err` as `none`), `{:?}` of a record type, and the printed form
-- of record data.
pub record Hickory : Type 0 where
  pub from_vec : Bytes → Option Message
  pub to_vec : Message → Option Bytes
  pub debug_type : RecordType → Text
  pub show_data : RData → Text
