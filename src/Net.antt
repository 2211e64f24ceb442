-- ===== src/Net.antt =====
-- `std::net::IpAddr` and its `FromStr`: the address parser of Rust's standard library, which the
-- rule parser, the ACL, the validators and the query handler call.
use rust_dns_backend.Base.{
  ℕ, zero, suc, ◌+◌, ◌-◌, ◌*◌, ◌/◌, ◌%◌, Bool, true, false, not, ◌&&◌, ◌||◌, Option, none, some,
  List, [], ◌∷◌, ◌++◌, ltb, leb, ◌==◌, if◌then◌else◌, is_nil, length, ◌^◌,
}
use rust_dns_backend.Text.{Text}

-- A v4 address is its 32-bit value, a v6 address its eight segments.
pub data IpAddr : Type 0 where
  v4 : ℕ → IpAddr
  v6 : List ℕ → IpAddr

abbrev pub is_ipv6 : IpAddr → Bool
is_ipv6 (v4 a) = false
is_ipv6 (v6 s) = true

-- What a reader finds at the front of a text, and the text behind it.
abbrev pub Reader : Type 0 → Type 0
Reader A = Text → Option (A × Text)

-- `char::to_digit`, for a radix of at most 16.
unfoldable pub to_digit : ℕ → ℕ → Option ℕ
to_digit radix c =
    let low = c - b'0' in
    let small = c - b'a' + 10 in
    let big = c - b'A' + 10 in
    let found = λ (d : ℕ). if ltb d radix then some d else none in
    if leb b'0' c && leb c b'9'
    then found low
    else if leb b'a' c && leb c b'f'
    then found small
    else if leb b'A' c && leb c b'F'
    then found big
    else none

-- The longest run of digits, and the rest.
unfoldable pub digit_run : ℕ → Text → List ℕ × Text
unfolding to_digit
digit_run radix [] = ([], [])
digit_run radix (c ∷ s) =
    let more = digit_run radix s in
    elim (to_digit radix c) [ none ↦ ([], c ∷ s) | some d ↦ (d ∷ more.0, more.1) ]

unfoldable pub digits_value : ℕ → ℕ → List ℕ → ℕ
digits_value radix acc [] = acc
digits_value radix acc (d ∷ ds) = digits_value radix (acc * radix + d) ds

abbrev pub starts_zero : List ℕ → Bool
starts_zero [] = false
starts_zero (d ∷ ds) = d == 0

-- `Parser::read_number` into a type with values below `bound`.
unfoldable pub read_number : ℕ → ℕ → ℕ → Bool → Reader ℕ
unfolding digit_run digits_value
read_number radix bound max_digits allow_zero_prefix s =
    let (ds, rest) = digit_run radix s in
    let value = digits_value radix 0 ds in
    if is_nil ds || ltb max_digits (length ds)
    then none
    else if not (ltb value bound)
    then none
    else if not allow_zero_prefix && starts_zero ds && ltb 1 (length ds)
    then none
    else some (value, rest)

-- `Parser::read_given_char`
unfoldable pub read_given_char : ℕ → Reader (Unit {0})
read_given_char c [] = none
read_given_char c (x ∷ s) = if x == c then some (tt, s) else none

-- `Parser::read_separator`; the flag is `index > 0`.
unfoldable pub read_separator : {A : Type 0} → ℕ → Bool → Reader A → Reader A
unfolding read_given_char
read_separator sep false inner s = inner s
read_separator sep true inner s = elim (read_given_char sep s) [
  | none ↦ none
  | some (_, rest) ↦ inner rest
]

abbrev read_octet : Reader ℕ
read_octet = read_number 10 256 3 false

-- `Parser::read_ipv4_addr`: the groups left, and the value so far.
unfoldable pub read_octets : ℕ → Bool → ℕ → Reader ℕ
unfolding read_separator read_number
read_octets zero later acc s = some (acc, s)
read_octets (suc left) later acc s = elim (read_separator b'.' later read_octet s) [
  | none ↦ none
  | some (o, rest) ↦ read_octets left true (acc * 256 + o) rest
]

abbrev pub read_ipv4_addr : Reader ℕ
read_ipv4_addr s = read_octets 4 false 0 s

-- `read_groups` of `Parser::read_ipv6_addr`: the groups read, whether an IPv4 address ended them,
-- and the rest.
unfoldable pub read_groups : ℕ → Bool → Text → List ℕ × Bool × Text
unfolding read_separator read_number read_octets
read_groups zero later s = ([], false, s)
read_groups (suc left) later s =
    let embedded : Option (ℕ × Text) =
      if ltb 0 left then read_separator b':' later read_ipv4_addr s else none in
    elim embedded [
      | some (a, rest) ↦ (a / 65536 ∷ a % 65536 ∷ [], true, rest)
      | none ↦ elim (read_separator b':' later (read_number 16 65536 4 true) s) [
        | none ↦ ([], false, s)
        | some (g, rest) ↦
            let (gs, ended, rest') = read_groups left true rest in (g ∷ gs, ended, rest')
      ]
    ]

unfoldable pub zeros : ℕ → List ℕ
zeros zero = []
zeros (suc n) = 0 ∷ zeros n

-- `Parser::read_ipv6_addr`
unfoldable pub read_ipv6_addr : Reader (List ℕ)
unfolding read_groups zeros read_given_char
read_ipv6_addr s =
    let (head, ended, rest) = read_groups 8 false s in
    if length head == 8
    then some (head, rest)
    else if ended
    then none
    else elim (read_given_char b':' rest) [
      | none ↦ none
      | some (_, rest1) ↦ elim (read_given_char b':' rest1) [
        | none ↦ none
        | some (_, rest2) ↦
            let (tail, _, rest3) = read_groups (8 - (length head + 1)) false rest2 in
            some (head ++ (zeros (8 - length head - length tail) ++ tail), rest3)
      ]
    ]

-- `parse_with`: the whole text is read.
abbrev whole {ℓ} : {A : Type ℓ} → Option (A × Text) → Option A
whole none = none
whole (some (a, [])) = some a
whole (some (a, c ∷ s)) = none

unfoldable pub parse_ipv4 : Text → Option ℕ
unfolding read_octets
parse_ipv4 s = whole (read_ipv4_addr s)

unfoldable pub parse_ipv6 : Text → Option (List ℕ)
unfolding read_ipv6_addr
parse_ipv6 s = whole (read_ipv6_addr s)

-- `str::parse::<IpAddr>`, `Err` as `none`.
unfoldable pub parse_ip : Text → Option IpAddr
unfolding read_octets read_ipv6_addr
parse_ip s =
    let six : Option (IpAddr × Text) = elim (read_ipv6_addr s) [
      | none ↦ none
      | some (g, rest) ↦ some (v6 g, rest)
    ] in
    whole (elim (read_ipv4_addr s) [ some (a, rest) ↦ some (v4 a, rest) | none ↦ six ])

unfoldable pub is_ip : Text → Bool
unfolding parse_ip
is_ip s = elim (parse_ip s) [ none ↦ false | some _ ↦ true ]

-- `Parser::read_socket_addr_v4`; `limit` bounds the digits of a text of that length.
abbrev read_socket_v4 : ℕ → Reader (ℕ × ℕ)
read_socket_v4 limit s = elim (read_ipv4_addr s) [
  | none ↦ none
  | some (a, rest) ↦ elim (read_separator b':' true (read_number 10 65536 limit true) rest) [
    | none ↦ none
    | some (port, rest') ↦ some ((a, port), rest')
  ]
]

-- `Parser::read_scope_id`, or nothing at all.
unfoldable pub skip_scope_id : ℕ → Text → Text
unfolding read_separator read_number
skip_scope_id limit s = elim (read_separator b'%' true (read_number 10 (2 ^ 32) limit true) s) [
  | none ↦ s
  | some (scope, rest) ↦ rest
]

-- `Parser::read_socket_addr_v6`
unfoldable pub read_socket_v6 : ℕ → Reader (List ℕ × ℕ)
unfolding read_separator read_ipv6_addr read_given_char skip_scope_id read_number
read_socket_v6 limit s = elim (read_separator b'[' true read_ipv6_addr s) [
  | none ↦ none
  | some (g, rest) ↦ elim (read_given_char b']' (skip_scope_id limit rest)) [
    | none ↦ none
    | some (_, rest1) ↦ elim (read_separator b':' true (read_number 10 65536 limit true) rest1) [
      | none ↦ none
      | some (port, rest2) ↦ some ((g, port), rest2)
    ]
  ]
]

-- `str::parse::<SocketAddr>`: an address and a port.
unfoldable pub parse_socket_addr : Text → Option (IpAddr × ℕ)
unfolding read_octets read_separator read_number read_socket_v6
parse_socket_addr s =
    let six : Option ((IpAddr × ℕ) × Text) = elim (read_socket_v6 (length s) s) [
      | none ↦ none
      | some ((g, port), rest) ↦ some ((v6 g, port), rest)
    ] in
    whole (elim (read_socket_v4 (length s) s) [
      | some ((a, port), rest) ↦ some ((v4 a, port), rest)
      | none ↦ six
    ])
