-- ===== src/FetchPolicy/Parse.antt =====
-- FetchAddressPolicy::parse: the rules from the entries of the configuration. `pton4` and `pton6` are
-- inet_pton, the bytes of an address or nothing, and `aton` says whether inet_aton takes a text.
pub mod Bounds
use libapostol.Prelude.{
  digits_value, ℕ, zero, suc, ◌+◌, ◌-◌, ◌*◌, Bool, true, false, not, ◌&&◌, ◌||◌, Option, none, some,
  List, [], ◌∷◌, ◌++◌, Bytes, bytes_eq, c_str, find, length, get_or, take, drop, all, is_empty, ltb,
  leb, ◌==◌, if◌then◌else◌,
}
use libapostol.FetchPolicy.{Rule, FetchAddressPolicy, mapped, pad4, lower}

-- The exceptions, by their texts.
pub data Bad : Type 0 where
  empty no_closing_bracket expected_port port_range not_a_network : Bad
  empty_host brackets_for_v6 not_a_host not_dotted_quad network_with_port prefix_range : Bad

pub data Result (A : Type 0) : Type 0 where
  ok : A → Result A
  bad : Bad → Result A

abbrev pub then_with : {A B : Type 0} → Result A → (A → Result B) → Result B
then_with (ok a) next = next a
then_with (bad why) next = bad why

unfoldable pub count : ℕ → Bytes → ℕ
count c [] = 0
count c (x ∷ xs) = let rest = count c xs in if x == c then suc rest else rest

-- The host, and the port if the entry has one.
unfoldable pub split_entry : Bytes → Result (Bytes × Option Bytes)
split_entry e =
    if get_or e 0 0 == b'['
    then elim (find b']' e) [
      | none ↦ bad no_closing_bracket
      | some close ↦
          let host = take (close - 1) (drop 1 e) in
          let tail = drop (suc close) e in
          if is_empty tail
          then ok (host, none)
          else if not (get_or tail 0 0 == b':')
          then bad expected_port
          else ok (host, some (drop 1 tail))
    ]
    else if count b':' e == 1
    then elim (find b':' e) [
      | none ↦ ok (e, none)
      | some colon ↦ ok (take colon e, some (drop (suc colon) e))
    ]
    else ok (e, none)

abbrev pub is_digit : ℕ → Bool
is_digit c = leb b'0' c && leb c b'9'

-- What from_chars reads of digits only; a value out of the type's range is too large for every test
-- that follows.
abbrev pub from_chars : Bytes → Option ℕ
from_chars text =
    if is_empty text || not (all is_digit text) then none else some (digits_value 0 text)

-- For a signed type; a value below 0 fails the test that follows, so of those only "-0" is a number.
unfoldable pub from_chars_signed : Bytes → Option ℕ
from_chars_signed text =
    if get_or text 0 0 == b'-'
    then elim (from_chars (drop 1 text)) [ none ↦ none | some v ↦ if v == 0 then some 0 else none ]
    else from_chars text

unfoldable pub parse_port : Option Bytes → Result ℕ
parse_port none = ok 0
parse_port (some port) = elim (from_chars port) [
  | none ↦ bad port_range
  | some v ↦ if v == 0 || not (leb v 65535) then bad port_range else ok v
]

abbrev pub is_host_char : ℕ → Bool
is_host_char c =
    is_digit c
    || (leb b'A' c && leb c b'Z')
    || (leb b'a' c && leb c b'z')
    || c == b'-'
    || c == b'.'
    || c == b'_'

module _ (pton4 pton6 : Bytes → Option Bytes) (aton : Bytes → Bool) where
  abbrev pub v4_rule : Bytes → ℕ → Rule
  v4_rule four port = record { host = []; v4 = true; net = pad4 four; prefix = 32; port = port }

  -- A host name, when the text is no address; its prefix is -1 in the code, which nothing reads.
  unfoldable pub name_rule : Bytes → Bytes → ℕ → Result Rule
  name_rule e h port =
      if is_empty h
      then bad empty_host
      else if get_or e 0 0 == b'['
      then bad brackets_for_v6
      else if not (all is_host_char h)
      then bad not_a_host
      else if aton (c_str h)
      then bad not_dotted_quad
      else ok (record {
        host = lower h;
        v4 = false;
        net = pad4 (0 ∷ 0 ∷ 0 ∷ 0 ∷ []);
        prefix = 0;
        port = port;
      })

  unfoldable pub address_rule : Bytes → Bytes → Bytes → Bool → ℕ → Result Rule
  address_rule e h ip slash port = elim (pton4 (c_str ip)) [
    | some four ↦ ok (v4_rule four port)
    | none ↦ elim (pton6 (c_str ip)) [
      | some a ↦
          if bytes_eq (take 12 a) mapped
          then ok (v4_rule (take 4 (drop 12 a)) port)
          else ok (record { host = []; v4 = false; net = a; prefix = 128; port = port })
      | none ↦ if slash then bad not_a_network else name_rule e h port
    ]
  ]

  abbrev pub with_prefix : ℕ → Rule → Rule
  with_prefix v r = record { host = r.host; v4 = r.v4; net = r.net; prefix = v; port = r.port }

  -- The length of a network behind the slash.
  unfoldable pub network_rule : Bytes → Rule → Result Rule
  network_rule len r =
      if not (r.port == 0) then bad network_with_port else elim (from_chars_signed len) [
        | none ↦ bad prefix_range
        | some v ↦
            if leb v (if r.v4 then 32 else 128) then ok (with_prefix v r) else bad prefix_range
      ]

  -- The rule of a host and a port.
  unfoldable pub rule_of : Bytes → Bytes → ℕ → Result Rule
  rule_of e host port = elim (find b'/' host) [
    | none ↦ address_rule e host host false port
    | some slash ↦
        then_with (address_rule e host (take slash host) true port)
          (λ r. network_rule (drop (suc slash) host) r)
  ]

  -- The body of the loop over the entries.
  unfoldable pub parse_entry : Bytes → Result Rule
  parse_entry e =
      if is_empty e
      then bad empty
      else then_with (split_entry e)
          (λ hp. then_with (parse_port hp.1) (λ port. rule_of e hp.0 port))

  -- The first entry that is not accepted ends the loop.
  unfoldable pub parse_entries : List Bytes → Result (List Rule)
  parse_entries [] = ok []
  parse_entries (e ∷ es) =
      let rest = parse_entries es in
      then_with (parse_entry e) (λ r. then_with rest (λ rs. ok (r ∷ rs)))

  unfoldable pub parse : Bool → List Bytes → Result FetchAddressPolicy
  parse deny_internal allow =
      then_with (parse_entries allow)
        (λ rules. ok (record { deny_internal = deny_internal; allow = rules }))
