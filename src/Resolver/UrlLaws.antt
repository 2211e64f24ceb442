-- ===== src/Resolver/UrlLaws.antt =====
-- src/dns/resolver.rs: URLs written from a host, a port and a path are read back.
use rust_dns_backend.Base.{
  ℕ, ◌≡◌, refl, false, none, some, [], ◌∷◌, ◌++◌, arith, ◌==◌, is_nil, any, ◌∙◌,
}
use rust_dns_backend.Text.{Text, contains, strip_prefix, codes}
use rust_dns_backend.Resolver.Url.{
  split_last, split_first, parse_authority, parse_doh_url, parse_dot_url, plain_authority,
  parse_u16, ok, split_path,
}

split_last_absent : (c : ℕ) (s : Text) → contains c s ≡ false → split_last c s ≡ none
unfolding contains any split_last
split_last_absent c [] h = refl
split_last_absent c (x ∷ s) h =
    let e : (x == c) ≡ false = ground arith in
    let rest : any (λ (y : ℕ). y == c) s ≡ false = ground arith in
    rw (split_last_absent c s rest, e)

split_last-append :
    (c : ℕ) (s t : Text) → contains c t ≡ false → split_last c (s ++ c ∷ t) ≡ some (s, t)
unfolding split_last
split_last-append c [] t h = rw (split_last_absent c t h) (ground arith)
split_last-append c (x ∷ s) t h = rw (split_last-append c s t h)

split_first_absent : (c : ℕ) (s : Text) → contains c s ≡ false → split_first c s ≡ none
unfolding contains any split_first
split_first_absent c [] h = refl
split_first_absent c (x ∷ s) h =
    let e : (x == c) ≡ false = ground arith in
    let rest : any (λ (y : ℕ). y == c) s ≡ false = ground arith in
    rw (split_first_absent c s rest, e)

split_first-append :
    (c : ℕ) (s t : Text) → contains c s ≡ false → split_first c (s ++ c ∷ t) ≡ some (s, c ∷ t)
unfolding contains any split_first
split_first-append c [] t h = ground arith
split_first-append c (x ∷ s) t h =
    let e : (x == c) ≡ false = ground arith in
    let rest : any (λ (y : ℕ). y == c) s ≡ false = ground arith in
    rw (split_first-append c s t rest, e)

-- A host that is no IPv6 literal: not empty, and with none of the marks of a URL.
pub record IsPlainHost (host : Text) : Type 0 where
  pub not_empty : is_nil host ≡ false
  pub no_colon : contains b':' host ≡ false
  pub no_slash : contains b'/' host ≡ false
  pub no_bracket : contains b'[' host ≡ false

contains-join :
    (c : ℕ) (s t : Text) → contains c s ≡ false → contains c t ≡ false → contains c (s ++ t) ≡ false
unfolding contains any
contains-join c [] t h k = k
contains-join c (x ∷ s) t h k =
    let e : (x == c) ≡ false = ground arith in
    let rest : any (λ (y : ℕ). y == c) s ≡ false = ground arith in
    rw (e, contains-join c s t rest k)

-- `host:port`
unfoldable pub authority_text : Text → Text → Text
authority_text host port = host ++ b':' ∷ port

plain_start :
    (default_port : ℕ) (host port : Text)
    → IsPlainHost host
    → parse_authority default_port (authority_text host port)
      ≡ plain_authority default_port (authority_text host port)
unfolding parse_authority authority_text contains any strip_prefix
plain_start default_port [] port h = let e = h.not_empty in cc
plain_start default_port (x ∷ host) port h =
    let e : (x == b'[') ≡ false = let k = h.no_bracket in ground arith in ground arith

plain_authority_port :
    (default_port : ℕ) (host port : Text) (p : ℕ)
    → contains b':' port ≡ false
    → parse_u16 port ≡ some p
    → plain_authority default_port (authority_text host port) ≡ ok (host, p)
unfolding plain_authority authority_text
plain_authority_port default_port host port p h k =
    rw (split_last-append b':' host port h, plain_authority) (rw k)

split_path_absent : (d s : Text) → contains b'/' s ≡ false → split_path d s ≡ (s, d)
unfolding split_path
split_path_absent d s h = rw (split_first_absent b'/' s h, split_path)

split_path-append :
    (d s path : Text) → contains b'/' s ≡ false → split_path d (s ++ b'/' ∷ path) ≡ (s, b'/' ∷ path)
unfolding split_path
split_path-append d s path h = rw (split_first-append b'/' s path h, split_path)

authority_no_slash :
    (host port : Text)
    → IsPlainHost host
    → contains b'/' port ≡ false
    → contains b'/' (authority_text host port) ≡ false
unfolding authority_text
authority_no_slash host port h k =
    contains-join b'/' host (b':' ∷ port) h.no_slash (unfold contains any in k)

parse_authority-port :
    (default_port : ℕ) (host port : Text) (p : ℕ)
    → IsPlainHost host
    → contains b':' port ≡ false
    → parse_u16 port ≡ some p
    → parse_authority default_port (authority_text host port) ≡ ok (host, p)
parse_authority-port default_port host port p h c k =
    plain_start default_port host port h ∙ plain_authority_port default_port host port p c k

authority_not_empty : (host port : Text) → is_nil (authority_text host port) ≡ false
unfolding authority_text
authority_not_empty [] port = refl
authority_not_empty (x ∷ host) port = refl

joined_not_empty : (host port path : Text) → is_nil (authority_text host port ++ path) ≡ false
unfolding authority_text
joined_not_empty [] port path = refl
joined_not_empty (x ∷ host) port path = refl

-- A host and a port, written as a DoT URL, are read back. The host is not empty and has no colon,
-- slash or bracket, and the port is a number of 16 bits without a colon or a slash.
pub parse_dot_url-port :
    (host port : Text) (p : ℕ)
    → IsPlainHost host
    → contains b':' port ≡ false
    → contains b'/' port ≡ false
    → parse_u16 port ≡ some p
    → parse_dot_url (codes "tls://" ++ authority_text host port) ≡ ok (host, p)
unfolding parse_dot_url
parse_dot_url-port host port p h no_colon no_slash k =
    rw
      (
        authority_not_empty host port,
        split_path_absent [] (authority_text host port) (authority_no_slash host port h no_slash),
        parse_authority-port 853 host port p h no_colon k,
      )
      (rw (h.not_empty))

-- A host, a port and a path, written as a DoH URL, are read back. The host is not empty and has no
-- colon, slash or bracket, and the port is a number of 16 bits without a colon or a slash.
pub parse_doh_url-path :
    (host port path : Text) (p : ℕ)
    → IsPlainHost host
    → contains b':' port ≡ false
    → contains b'/' port ≡ false
    → parse_u16 port ≡ some p
    → parse_doh_url (codes "https://" ++ (authority_text host port ++ b'/' ∷ path))
      ≡ ok (host, p, b'/' ∷ path)
unfolding parse_doh_url
parse_doh_url-path host port path p h no_colon no_slash k =
    rw
      (
        joined_not_empty host port (b'/' ∷ path),
        split_path-append (codes "/dns-query") (authority_text host port) path
            (authority_no_slash host port h no_slash),
        parse_authority-port 443 host port p h no_colon k,
      )
      (rw (h.not_empty))
