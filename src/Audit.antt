-- ===== src/Audit.antt =====
-- src/api/middleware/audit.rs: the resource and the action that a request to the API stands for.
pub mod Segments
use rust_dns_backend.Base.{
  ℕ, Bool, true, false, not, ◌&&◌, ◌||◌, Option, none, some, List, [], ◌∷◌, ◌++◌, map, leb, ◌==◌,
  if◌then◌else◌, is_nil, any, all, keep_if,
}
use rust_dns_backend.Text.{Text, Unicode, codes, text_eq, strip_prefix, contains, to_lowercase}
use rust_dns_backend.Text.Split.{split}

pub data Method : Type 0 where
  get head options post put patch delete : Method
  other_method : Text → Method

abbrev between : ℕ → ℕ → ℕ → Bool
between lo hi c = leb lo c && leb c hi

abbrev is_ascii_digit : ℕ → Bool
is_ascii_digit c = between b'0' b'9' c

abbrev is_ascii_hexdigit : ℕ → Bool
is_ascii_hexdigit c = between b'0' b'9' c || between b'a' b'f' c || between b'A' b'F' c

unfoldable pub is_id_segment : Text → Bool
unfolding all any contains
is_id_segment s =
    if is_nil s
    then true
    else if all is_ascii_digit s
    then true
    else all (λ c. is_ascii_hexdigit c || c == b'-') s && (contains b'-' s || any is_ascii_digit s)

-- `replace('-', "_")`
unfoldable pub underscores : Text → Text
underscores s = map (λ c. if c == b'-' then b'_' else c) s

-- Sub-actions that are their own names.
abbrev known_actions : List Text
known_actions =
    codes "refresh"
    ∷ codes "toggle"
    ∷ codes "failover"
    ∷ codes "test"
    ∷ codes "flush"
    ∷ codes "ticket"
    ∷ codes "login"
    ∷ codes "logout"
    ∷ codes "import"
    ∷ codes "export"
    ∷ codes "restore"
    ∷ codes "enable"
    ∷ codes "disable"
    ∷ []

module _ ⦃u : Unicode⦄ where
  unfoldable pub method_to_action : Method → Text
  unfolding to_lowercase
  method_to_action post = codes "create"
  method_to_action put = codes "update"
  method_to_action patch = codes "update"
  method_to_action delete = codes "delete"
  method_to_action get = codes "get"
  method_to_action head = codes "head"
  method_to_action options = codes "options"
  method_to_action (other_method name) = to_lowercase name

  abbrev bulk_action : Method → Text
  bulk_action delete = codes "bulk_delete"
  bulk_action _ = codes "bulk_create"

  unfoldable pub sub_action : Method → Text → Text
  unfolding text_eq any method_to_action
  sub_action method sub =
      if text_eq sub (codes "bulk")
      then bulk_action method
      else if text_eq sub (codes "health")
      then codes "health_check"
      else if text_eq sub (codes "password")
      then codes "change_password"
      else if any (text_eq sub) known_actions
      then sub
      else method_to_action method ++ b'_' ∷ sub

  -- The first segment behind the resource that is no id.
  unfoldable pub action_of : Method → List Text → Text
  unfolding method_to_action sub_action underscores
  action_of method [] = method_to_action method
  action_of method (sub ∷ rest) = sub_action method (underscores sub)

  unfoldable pub of_segments : Method → List Text → Text × Text
  unfolding action_of underscores keep_if is_id_segment
  of_segments method [] = (codes "unknown", action_of method [])
  of_segments method (resource ∷ rest) =
      (underscores resource, action_of method (keep_if (λ s. not (is_id_segment s)) rest))

  unfoldable pub strip_api : Text → Text
  unfolding strip_prefix
  strip_api path = elim (strip_prefix (codes "/api/v1/") path) [
    | some rest ↦ rest
    | none ↦ elim (strip_prefix (codes "/api/v1") path) [ some rest ↦ rest | none ↦ path ]
  ]

  unfoldable pub segments_of : Text → List Text
  unfolding strip_api split keep_if
  segments_of path = keep_if (λ s. not (is_nil s)) (split b'/' (strip_api path))

  unfoldable pub derive_resource_action : Text → Method → Text × Text
  unfolding segments_of of_segments
  derive_resource_action path method = of_segments method (segments_of path)

  -- What the middleware reports of a request and the status of its response.
  unfoldable pub audited : Method → Text → ℕ → Option (Text × Text)
  unfolding derive_resource_action
  audited get path status = none
  audited head path status = none
  audited options path status = none
  audited method path status =
      if leb 200 status && leb status 299 then some (derive_resource_action path method) else none
