-- ===== src/FetchPolicy.antt =====
-- src/core/fetch_policy.cpp: which addresses an outbound fetch may dial. A socket address is what
-- the operating system hands over, its port already in host order.
pub mod Prefix
pub mod Internal
pub mod Verdicts
pub mod Parse
mod Tests
use libapostol.Prelude.{
  ℕ, zero, suc, ◌+◌, ◌-◌, ◌*◌, ◌/◌, ◌%◌, ◌^◌, bit_and, Bool, true, false, not, ◌&&◌, ◌||◌, Option,
  none, some, List, [], ◌∷◌, ◌++◌, map, Bytes, bytes_eq, length, get_or, take, drop, any, is_empty,
  ltb, leb, ◌==◌, if◌then◌else◌,
}

-- `const struct sockaddr*`: a null pointer, the two families that the code reads, or another one.
pub data SockAddr : Type 0 where
  null : SockAddr
  inet : ℕ → Bytes → SockAddr
  inet6 : ℕ → Bytes → SockAddr
  other_family : SockAddr

pub record Addr : Type 0 where
  pub v4 : Bool
  pub b : Bytes
  pub port : ℕ

-- ::ffff:0:0/96
abbrev pub mapped : Bytes
mapped = 0 ∷ 0 ∷ 0 ∷ 0 ∷ 0 ∷ 0 ∷ 0 ∷ 0 ∷ 0 ∷ 0 ∷ 0xff ∷ 0xff ∷ []

-- An array of 16 bytes with the first four set.
abbrev pub pad4 : Bytes → Bytes
pad4 four = four ++ (0 ∷ 0 ∷ 0 ∷ 0 ∷ 0 ∷ 0 ∷ 0 ∷ 0 ∷ 0 ∷ 0 ∷ 0 ∷ 0 ∷ [])

unfoldable pub to_addr : SockAddr → Option Addr
unfolding bytes_eq
to_addr null = none
to_addr (inet port four) = some (record { v4 = true; b = pad4 four; port = port })
to_addr (inet6 port a) = some (
    if bytes_eq (take 12 a) mapped
    then record { v4 = true; b = pad4 (take 4 (drop 12 a)); port = port }
    else record { v4 = false; b = a; port = port })
to_addr other_family = none

-- `static_cast<uint8_t>(0xff << (8 - rest))`
abbrev pub prefix_mask : ℕ → ℕ
prefix_mask rest = 0xff * 2 ^ (8 - rest) % 256

unfoldable pub prefix_match : Bytes → Bytes → ℕ → Bool
unfolding bytes_eq
prefix_match a net prefix =
    let full = prefix / 8 in
    let rest = prefix % 8 in
    if not (bytes_eq (take full a) (take full net))
    then false
    else if rest == 0
    then true
    else bit_and (get_or a full 0) (prefix_mask rest)
      == bit_and (get_or net full 0) (prefix_mask rest)

abbrev pub Net : Type 0
Net = Bytes × ℕ

abbrev pub nets_v4 : List Net
nets_v4 =
    (0 ∷ 0 ∷ 0 ∷ 0 ∷ [], 8)
    ∷ (10 ∷ 0 ∷ 0 ∷ 0 ∷ [], 8)
    ∷ (100 ∷ 64 ∷ 0 ∷ 0 ∷ [], 10)
    ∷ (127 ∷ 0 ∷ 0 ∷ 0 ∷ [], 8)
    ∷ (169 ∷ 254 ∷ 0 ∷ 0 ∷ [], 16)
    ∷ (172 ∷ 16 ∷ 0 ∷ 0 ∷ [], 12)
    ∷ (192 ∷ 0 ∷ 0 ∷ 0 ∷ [], 24)
    ∷ (192 ∷ 0 ∷ 2 ∷ 0 ∷ [], 24)
    ∷ (192 ∷ 88 ∷ 99 ∷ 0 ∷ [], 24)
    ∷ (192 ∷ 168 ∷ 0 ∷ 0 ∷ [], 16)
    ∷ (198 ∷ 18 ∷ 0 ∷ 0 ∷ [], 15)
    ∷ (198 ∷ 51 ∷ 100 ∷ 0 ∷ [], 24)
    ∷ (203 ∷ 0 ∷ 113 ∷ 0 ∷ [], 24)
    ∷ (224 ∷ 0 ∷ 0 ∷ 0 ∷ [], 4)
    ∷ (240 ∷ 0 ∷ 0 ∷ 0 ∷ [], 4)
    ∷ []

unfoldable pub internal_v4 : Bytes → Bool
unfolding prefix_match
internal_v4 a = any (λ (n : Net). prefix_match a n.0 n.1) nets_v4

-- 64:ff9b::/96
abbrev pub nat64 : Bytes
nat64 = 0x00 ∷ 0x64 ∷ 0xff ∷ 0x9b ∷ 0 ∷ 0 ∷ 0 ∷ 0 ∷ 0 ∷ 0 ∷ 0 ∷ 0 ∷ []

abbrev zeros8 : Bytes
zeros8 = 0 ∷ 0 ∷ 0 ∷ 0 ∷ 0 ∷ 0 ∷ 0 ∷ 0 ∷ []

abbrev pub nets_v6 : List Net
nets_v6 =
    (0x00 ∷ 0 ∷ 0 ∷ 0 ∷ 0 ∷ 0 ∷ 0 ∷ 0 ∷ zeros8, 8)
    ∷ (0x01 ∷ 0x00 ∷ 0 ∷ 0 ∷ 0 ∷ 0 ∷ 0 ∷ 0 ∷ zeros8, 64)
    ∷ (0x20 ∷ 0x01 ∷ 0x0d ∷ 0xb8 ∷ 0 ∷ 0 ∷ 0 ∷ 0 ∷ zeros8, 32)
    ∷ (0xfc ∷ 0 ∷ 0 ∷ 0 ∷ 0 ∷ 0 ∷ 0 ∷ 0 ∷ zeros8, 7)
    ∷ (0xfe ∷ 0x80 ∷ 0 ∷ 0 ∷ 0 ∷ 0 ∷ 0 ∷ 0 ∷ zeros8, 10)
    ∷ (0xfe ∷ 0xc0 ∷ 0 ∷ 0 ∷ 0 ∷ 0 ∷ 0 ∷ 0 ∷ zeros8, 10)
    ∷ (0xff ∷ 0 ∷ 0 ∷ 0 ∷ 0 ∷ 0 ∷ 0 ∷ 0 ∷ zeros8, 8)
    ∷ []

-- IPv4 inside IPv6 is judged as IPv4.
unfoldable pub internal_v6 : Bytes → Bool
unfolding bytes_eq
internal_v6 a =
    if bytes_eq (take 12 a) nat64
    then internal_v4 (drop 12 a)
    else if get_or a 0 0 == 0x20 && get_or a 1 0 == 0x02
    then internal_v4 (drop 2 a)
    else any (λ (n : Net). prefix_match a n.0 n.1) nets_v6

abbrev pub internal : Addr → Bool
internal a = if a.v4 then internal_v4 a.b else internal_v6 a.b

unfoldable pub is_internal : SockAddr → Bool
is_internal sa = elim (to_addr sa) [ none ↦ true | some a ↦ internal a ]

abbrev pub lower_byte : ℕ → ℕ
lower_byte c = if leb b'A' c && leb c b'Z' then c + 32 else c

unfoldable pub lower : Bytes → Bytes
lower [] = []
lower (c ∷ cs) = lower_byte c ∷ lower cs

unfoldable pub strip_brackets : Bytes → Bytes
strip_brackets h =
    if leb 2 (length h) && get_or h 0 0 == b'[' && get_or h (length h - 1) 0 == b']'
    then take (length h - 2) (drop 1 h)
    else h

-- FetchAddressPolicy::Rule; a rule with a host name has no network, and port 0 is any port.
pub record Rule : Type 0 where
  pub host : Bytes
  pub v4 : Bool
  pub net : Bytes
  pub prefix : ℕ
  pub port : ℕ

pub record FetchAddressPolicy : Type 0 where
  pub deny_internal : Bool
  pub allow : List Rule

-- What `check` returns: the empty text, or one of its two refusals.
pub data Verdict : Type 0 where
  pass : Verdict
  not_an_ip : Bytes → Verdict
  refused : Bytes → Addr → Verdict

-- The body of the loop over the rules: whether the rule lets the address through.
unfoldable pub rule_allows : Addr → Bytes → Rule → Bool
rule_allows a host r =
    if not (r.port == 0) && not (r.port == a.port)
    then false
    else if not (is_empty r.host)
    then bytes_eq r.host host
    else (if r.v4 then a.v4 else not a.v4) && prefix_match a.b r.net r.prefix

unfoldable pub check : FetchAddressPolicy → SockAddr → Bytes → Verdict
check p sa url_host = if not p.deny_internal then pass else elim (to_addr sa) [
  | none ↦ not_an_ip url_host
  | some a ↦
      if not (internal a)
      then pass
      else if any (rule_allows a (lower (strip_brackets url_host))) p.allow
      then pass
      else refused url_host a
]
