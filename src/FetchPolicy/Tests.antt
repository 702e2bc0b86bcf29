-- ===== src/FetchPolicy/Tests.antt =====
-- Runs of the policy.
use libapostol.Prelude.{
  digits_value, none, some, Bool, All, Bytes, inl, inr, Bool-cases, Option, bytes_eq, find, length,
  if◌then◌else◌, ◌≡◌, ◌↔◌, refl, arith, true, false, List, [], ◌∷◌, ◌++◌, codes, take,
}
use libapostol.FetchPolicy.{
  lower, SockAddr, inet, inet6, to_addr, prefix_match, internal_v4, is_internal, mapped, nat64,
  pad4, Rule, FetchAddressPolicy, check, pass, rule_allows,
}
use libapostol.FetchPolicy.Parse.{
  ok, bad, prefix_range, port_range, count, split_entry, from_chars_signed, parse_port, name_rule,
  address_rule, network_rule, rule_of, parse_entry, parse_entries, parse,
}
use libapostol.FetchPolicy.Parse.Bounds.{IsParsed, GivesBytes, parse-IsParsed}
use libapostol.FetchPolicy.Prefix.{bits, prefix_match_iff}
use libapostol.FetchPolicy.Internal.{is_internal-embedded}
use libapostol.FetchPolicy.Verdicts.{IsArray, IsRule, IsSockAddr, MayDial, check-pass_iff}

prefix_match_iff_example :
    (prefix_match (172 ∷ 16 ∷ []) (172 ∷ 31 ∷ []) 12 ≡ true)
    ↔ (take 12 (bits (172 ∷ 16 ∷ [])) ≡ take 12 (bits (172 ∷ 31 ∷ [])))
prefix_match_iff_example =
    prefix_match_iff (172 ∷ 16 ∷ []) (172 ∷ 31 ∷ []) 12 (omega arith) (omega arith) refl
      (omega arith)

-- The loopback interface: an address rule lets it through, although it is internal.
abbrev loopback : SockAddr
loopback = inet 5432 (127 ∷ 0 ∷ 0 ∷ 1 ∷ [])

abbrev loopback_rule : Rule
loopback_rule = record {
  host = [];
  v4 = true;
  net = pad4 (127 ∷ 0 ∷ 0 ∷ 1 ∷ []);
  prefix = 32;
  port = 5432;
}

abbrev policy : List Rule → FetchAddressPolicy
policy rules = record { deny_internal = true; allow = rules }

verdicts :
    (check (policy (loopback_rule ∷ [])) loopback (codes "localhost") ≡ pass)
    × (is_internal loopback ≡ true)
    × (is_internal (inet6 80 (mapped ++ (8 ∷ 8 ∷ 8 ∷ 8 ∷ []))) ≡ false)
unfolding check is_internal to_addr rule_allows prefix_match internal_v4
verdicts = (refl, refl, refl)

is_internal-embedded_example :
    (is_internal (inet6 80 (mapped ++ (10 ∷ 0 ∷ 0 ∷ 1 ∷ [])))
      ≡ is_internal (inet 80 (10 ∷ 0 ∷ 0 ∷ 1 ∷ [])))
    × (is_internal (inet6 80 (nat64 ++ (10 ∷ 0 ∷ 0 ∷ 1 ∷ [])))
        ≡ is_internal (inet 80 (10 ∷ 0 ∷ 0 ∷ 1 ∷ [])))
    × (is_internal (inet6 80 (0x20 ∷ 0x02 ∷ 10 ∷ 0 ∷ 0 ∷ 1 ∷ 7 ∷ []))
        ≡ is_internal (inet 80 (10 ∷ 0 ∷ 0 ∷ 1 ∷ [])))
is_internal-embedded_example = is_internal-embedded 10 0 0 1 80 (7 ∷ []) (omega arith)

loopback_IsArray : IsArray (pad4 (127 ∷ 0 ∷ 0 ∷ 1 ∷ []))
loopback_IsArray = record { bytes = omega arith; size = refl }

loopback_IsRule : IsRule loopback_rule
loopback_IsRule = record { net = loopback_IsArray; prefix = omega arith }

loopback-IsSockAddr : IsSockAddr loopback
unfolding to_addr
loopback-IsSockAddr a e =
    let same : record { v4 = true; b = pad4 (127 ∷ 0 ∷ 0 ∷ 1 ∷ []); port = 5432 } ≡ a = cc e in
    rw (← same) loopback_IsArray

check-pass_iff_example :
    (check (policy (loopback_rule ∷ [])) loopback (codes "localhost") ≡ pass)
    ↔ MayDial (policy (loopback_rule ∷ [])) loopback (codes "localhost")
check-pass_iff_example =
    check-pass_iff (policy (loopback_rule ∷ [])) loopback (codes "localhost") loopback-IsSockAddr
      (loopback_IsRule, tt)

-- A stand-in for inet_pton that knows one address.
abbrev one_address : Bytes → Option Bytes
one_address text = if bytes_eq text (codes "10.0.0.0") then some (10 ∷ 0 ∷ 0 ∷ 0 ∷ []) else none

abbrev no_address : Bytes → Option Bytes
no_address text = none

abbrev never : Bytes → Bool
never text = false

-- The entries of the test: a network and a host with a port.
abbrev entries : List Bytes
entries = codes "10.0.0.0/8" ∷ codes "Db.local:5432" ∷ []

abbrev parsed_policy : FetchAddressPolicy
parsed_policy = record {
  deny_internal = true;
  allow =
      record { host = []; v4 = true; net = pad4 (10 ∷ 0 ∷ 0 ∷ 0 ∷ []); prefix = 8; port = 0 }
      ∷ record {
        host = codes "db.local";
        v4 = false;
        net = pad4 (0 ∷ 0 ∷ 0 ∷ 0 ∷ []);
        prefix = 0;
        port = 5432;
      }
      ∷ [];
}

parsed : parse one_address no_address never true entries ≡ ok parsed_policy
unfolding parse parse_entries parse_entry rule_of network_rule address_rule name_rule parse_port
    from_chars_signed digits_value split_entry count find bytes_eq lower
parsed = refl

refused_entries :
    (parse one_address no_address never true (codes "10.0.0.0/33" ∷ []) ≡ bad prefix_range)
    × (parse one_address no_address never true (codes "a:0" ∷ []) ≡ bad port_range)
unfolding parse parse_entries parse_entry rule_of network_rule address_rule name_rule parse_port
    from_chars_signed digits_value split_entry count find bytes_eq lower
refused_entries = (refl, refl)

one_address-GivesBytes : GivesBytes 4 one_address
one_address-GivesBytes text out e = elim (Bool-cases (bytes_eq text (codes "10.0.0.0"))) [
  | inl same ↦
      let is : (10 ∷ 0 ∷ 0 ∷ 0 ∷ []) ≡ out = cc (rw same at e) in rw (← is) ((omega arith), refl)
  | inr other ↦ cc (rw other at e)
]

parse-IsParsed_example :
    All IsParsed parsed_policy.allow
    × (length parsed_policy.allow ≡ length entries)
    × (parsed_policy.deny_internal ≡ true)
parse-IsParsed_example =
    parse-IsParsed one_address no_address never one_address-GivesBytes (λ text out e. cc e) true
      entries parsed_policy parsed
