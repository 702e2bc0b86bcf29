-- ===== src/FetchPolicy/Parse/Bounds.antt =====
-- What holds of every rule that `parse` accepts.
use libapostol.Prelude.{
  ℕ, zero, suc, ◌≤◌, ◌≡◌, inl, inr, refl, ap, Bool, true, false, Option, none, some, List, [], ◌∷◌,
  Bytes, bytes_eq, find, c_str, length, length-append, length-take, length-drop, take, drop, IsByte,
  All, All-append, arith, Bool-cases, Option-cases,
}
use libapostol.FetchPolicy.{lower, Rule, FetchAddressPolicy, mapped, pad4}
use libapostol.FetchPolicy.Verdicts.{IsArray, IsRule}
use libapostol.FetchPolicy.Parse.{
  Result, ok, bad, then_with, split_entry, parse_port, name_rule, v4_rule, with_prefix,
  address_rule, network_rule, rule_of, parse_entry, parse_entries, parse, from_chars_signed,
  from_chars,
}

-- A rule with its ranges: the prefix by the family, the port, and no port for a part of the network.
pub record IsParsed (r : Rule) : Type 0 where
  pub rule : IsRule r
  pub v4_prefix : r.v4 ≡ true → r.prefix ≤ 32
  pub port : r.port ≤ 65535

then_with-ok :
    {A B : Type 0} (m : Result A) (f : A → Result B) (b : B)
    → then_with m f ≡ ok b
    → (a : A) × (m ≡ ok a) × (f a ≡ ok b)
then_with-ok (ok a) f b e = (a, refl, e)
then_with-ok (bad why) f b e = cc e

port-bound : (port : Option Bytes) (v : ℕ) → parse_port port ≡ ok v → v ≤ 65535
unfolding parse_port
port-bound none v e = ground arith
port-bound (some text) v e = elim (Option-cases (from_chars text)) [
  | inl no_number ↦ absurd (ground arith)
  | inr (n, number) ↦ ground arith
]

pad4-IsArray : (four : Bytes) → All IsByte four → length four ≡ 4 → IsArray (pad4 four)
pad4-IsArray four h l = record {
  bytes = All-append IsByte four _ h (omega arith);
  size = omega (arith, length-append four (0 ∷ 0 ∷ 0 ∷ 0 ∷ 0 ∷ 0 ∷ 0 ∷ 0 ∷ 0 ∷ 0 ∷ 0 ∷ 0 ∷ []), l);
}

All-take : (P : ℕ → Type 0) (n : ℕ) (xs : Bytes) → All P xs → All P (take n xs)
All-take P zero xs h = tt
All-take P (suc n) [] h = tt
All-take P (suc n) (x ∷ xs) h = (h.0, All-take P n xs h.1)

All-drop : (P : ℕ → Type 0) (n : ℕ) (xs : Bytes) → All P xs → All P (drop n xs)
All-drop P zero xs h = h
All-drop P (suc n) [] h = tt
All-drop P (suc n) (x ∷ xs) h = All-drop P n xs h.1

-- What inet_pton gives for an address: its bytes.
abbrev pub GivesBytes : ℕ → (Bytes → Option Bytes) → Type 0
GivesBytes n pton = (text out : Bytes) → pton text ≡ some out → All IsByte out × (length out ≡ n)

v4-IsParsed :
    (four : Bytes) (port : ℕ)
    → All IsByte four
    → length four ≡ 4
    → port ≤ 65535
    → IsParsed (record { host = []; v4 = true; net = pad4 four; prefix = 32; port = port })
v4-IsParsed four port h l p = record {
  rule = record { net = pad4-IsArray four h l; prefix = omega arith };
  v4_prefix = λ e. omega arith;
  port = p;
}

abbrev named : Bytes → ℕ → Rule
named host port = record {
  host = host;
  v4 = false;
  net = pad4 (0 ∷ 0 ∷ 0 ∷ 0 ∷ []);
  prefix = 0;
  port = port;
}

abbrev v6 : Bytes → ℕ → Rule
v6 a port = record { host = []; v4 = false; net = a; prefix = 128; port = port }

v6-IsParsed :
    (a : Bytes) (port : ℕ) → All IsByte a → length a ≡ 16 → port ≤ 65535 → IsParsed (v6 a port)
v6-IsParsed a port h l p = record {
  rule = record { net = record { bytes = h; size = l }; prefix = omega arith };
  v4_prefix = λ e. cc e;
  port = p;
}

named-IsParsed : (host : Bytes) (port : ℕ) → port ≤ 65535 → IsParsed (named host port)
named-IsParsed host port p = record {
  rule = record {
    net = pad4-IsArray (0 ∷ 0 ∷ 0 ∷ 0 ∷ []) (omega arith) refl;
    prefix = omega arith;
  };
  v4_prefix = λ e. cc e;
  port = p;
}

module _ (pton4 pton6 : Bytes → Option Bytes) (aton : Bytes → Bool) where
  name-IsParsed :
      (e h : Bytes) (port : ℕ) (r : Rule)
      → port ≤ 65535
      → name_rule pton4 pton6 aton e h port ≡ ok r
      → IsParsed r
  unfolding name_rule
  name-IsParsed e h port r p eq =
      let shape : named (lower h) port ≡ r = ground arith in
      rw (← shape) (named-IsParsed (lower h) port p)

  module _ (h4 : GivesBytes 4 pton4) (h6 : GivesBytes 16 pton6) where
    address-IsParsed :
        (e h ip : Bytes) (slash : Bool) (port : ℕ) (r : Rule)
        → port ≤ 65535
        → address_rule pton4 pton6 aton e h ip slash port ≡ ok r
        → IsParsed r
    unfolding address_rule
    address-IsParsed e h ip slash port r p eq = elim (Option-cases (pton4 (c_str ip))) [
      | inr (four, is4) ↦
          let (bytes, size) = h4 (c_str ip) four is4 in
          let shape : v4_rule pton4 pton6 aton four port ≡ r = cc (rw (is4, address_rule) at eq) in
          rw (← shape) (v4-IsParsed four port bytes size p)
      | inl not4 ↦ elim (Option-cases (pton6 (c_str ip))) [
        | inr (a, is6) ↦
            let (bytes, size) = h6 (c_str ip) a is6 in
            elim (Bool-cases (bytes_eq (take 12 a) mapped)) [
              | inl embeds ↦
                  let shape : v4_rule pton4 pton6 aton (take 4 (drop 12 a)) port ≡ r =
                    cc (rw (not4, is6, embeds, address_rule) at eq) in
                  rw (← shape) (
                    v4-IsParsed (take 4 (drop 12 a)) port
                      (All-take IsByte 4 (drop 12 a) (All-drop IsByte 12 a bytes))
                      (omega (arith, length-take 4 (drop 12 a), length-drop 12 a, size)) p)
              | inr own ↦
                  let shape : v6 a port ≡ r = cc (rw (not4, is6, own, address_rule) at eq) in
                  rw (← shape) (v6-IsParsed a port bytes size p)
            ]
        | inl not6 ↦ elim (Bool-cases slash) [
          | inl network ↦ cc (rw (not4, not6, network, address_rule) at eq)
          | inr plain ↦ name-IsParsed e h port r p (rw (not4, not6, plain, address_rule) at eq)
        ]
      ]
    ]

  network-IsParsed :
      (len : Bytes) (r s : Rule)
      → IsParsed r
      → network_rule pton4 pton6 aton len r ≡ ok s
      → IsParsed s
  unfolding network_rule
  network-IsParsed len r s h eq = elim (Option-cases (from_chars_signed len)) [
    | inl no_number ↦ absurd (ground arith)
    | inr (v, number) ↦
        let shape : with_prefix pton4 pton6 aton v r ≡ s = ground arith in
        let all_bits : v ≤ 128 = ground arith in
        let v4_bits : r.v4 ≡ true → v ≤ 32 = ground arith in
        rw (← shape) (record {
          rule = record { net = h.rule.net; prefix = all_bits };
          v4_prefix = v4_bits;
          port = h.port;
        })
  ]

  module _ (h4 : GivesBytes 4 pton4) (h6 : GivesBytes 16 pton6) where
    behind_port :
        (e host : Bytes) (port : ℕ) (r : Rule)
        → port ≤ 65535
        → rule_of pton4 pton6 aton e host port ≡ ok r
        → IsParsed r
    unfolding rule_of
    behind_port e host port r p eq = elim (Option-cases (find b'/' host)) [
      | inl single ↦ address-IsParsed h4 h6 e host host false port r p (rw (single, rule_of) at eq)
      | inr (slash, network) ↦
          let (first, parsed, rest) =
            then_with-ok (address_rule pton4 pton6 aton e host (take slash host) true port)
              (λ q. network_rule pton4 pton6 aton (drop (suc slash) host) q) r
              (rw (network, rule_of) at eq) in
          network-IsParsed (drop (suc slash) host) first r
            (address-IsParsed h4 h6 e host (take slash host) true port first p parsed) rest
    ]

    entry-IsParsed : (e : Bytes) (r : Rule) → parse_entry pton4 pton6 aton e ≡ ok r → IsParsed r
    unfolding parse_entry
    entry-IsParsed [] r eq = cc eq
    entry-IsParsed (c ∷ cs) r eq =
        let (hp, _, eq1) = then_with-ok (split_entry (c ∷ cs)) _ r eq in
        let (port, number, eq2) = then_with-ok (parse_port hp.1) _ r eq1 in
        behind_port (c ∷ cs) hp.0 port r (port-bound hp.1 port number) eq2

    entries-IsParsed :
        (es : List Bytes) (rs : List Rule)
        → parse_entries pton4 pton6 aton es ≡ ok rs
        → All IsParsed rs × (length rs ≡ length es)
    unfolding parse_entries
    entries-IsParsed [] rs eq = let same : [] ≡ rs = cc eq in rw (← same) (tt, refl)
    entries-IsParsed (e ∷ es) rs eq =
        let (r, parsed, eq1) = then_with-ok (parse_entry pton4 pton6 aton e) _ rs eq in
        let (others, rest, eq2) = then_with-ok (parse_entries pton4 pton6 aton es) _ rs eq1 in
        let same : r ∷ others ≡ rs = cc eq2 in
        let (good, size) = entries-IsParsed es others rest in
        rw (← same) ((entry-IsParsed e r parsed, good), ap suc size)

    -- When `parse` accepts the entries, and inet_pton gives four and sixteen bytes: the policy has the
    -- flag it was given and one rule for each entry, every network is an array of bytes, with a prefix
    -- of 128 at most, 32 for IPv4, and a port of 65535 at most.
    pub parse-IsParsed :
        (deny_internal : Bool) (allow : List Bytes) (p : FetchAddressPolicy)
        → parse pton4 pton6 aton deny_internal allow ≡ ok p
        → All IsParsed p.allow × (length p.allow ≡ length allow) × (p.deny_internal ≡ deny_internal)
    unfolding parse
    parse-IsParsed deny_internal allow p eq =
        let (rules, parsed, eq1) = then_with-ok (parse_entries pton4 pton6 aton allow) _ p eq in
        let same : record { deny_internal = deny_internal; allow = rules } ≡ p = cc eq1 in
        let (good, size) = entries-IsParsed allow rules parsed in rw (← same) (good, size, refl)
