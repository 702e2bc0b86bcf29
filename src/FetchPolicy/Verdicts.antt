-- ===== src/FetchPolicy/Verdicts.antt =====
-- When `check` lets a connection through.
use libapostol.Prelude.{
  ◌≤◌, ◌≡◌, ◌≢◌, refl, sym, ◌∙◌, ◌↔◌, ◌⊎◌, inl, inr, Bool, true, false, not, ◌||◌, some, List, [],
  ◌∷◌, Bytes, bytes_eq_iff, length, take, any, All, Any, IsByte, if◌then◌else◌, arith, Bool-cases,
  Option-cases,
}
use libapostol.FetchPolicy.{
  Addr, SockAddr, to_addr, internal, Rule, FetchAddressPolicy, pass, refused, rule_allows, check,
  lower, strip_brackets,
}
use libapostol.FetchPolicy.Prefix.{bits, prefix_match_iff}

-- An address or a network is an array of 16 bytes.
pub record IsArray (b : Bytes) : Type 0 where
  pub bytes : All IsByte b
  pub size : length b ≡ 16

pub record IsRule (r : Rule) : Type 0 where
  pub net : IsArray r.net
  pub prefix : r.prefix ≤ 128

-- A rule covers an address that was reached by a host name: its port, if it has one, is the
-- address's; and its name is the host, or its network has the address.
abbrev pub Covers : Addr → Bytes → Rule → Type 0
Covers a host r =
    ((r.port ≡ 0) ⊎ (r.port ≡ a.port))
    × (((r.host ≢ []) × (r.host ≡ host))
        ⊎ ((r.host ≡ []) × (r.v4 ≡ a.v4) × (take r.prefix (bits a.b) ≡ take r.prefix (bits r.net))))

rule_allows_iff :
    (a : Addr) (host : Bytes) (r : Rule)
    → IsArray a.b
    → IsRule r
    → (rule_allows a host r ≡ true) ↔ Covers a host r
unfolding rule_allows
rule_allows_iff a host r ha hr =
    let (to, from) =
      prefix_match_iff a.b r.net r.prefix ha.bytes hr.net.bytes (ha.size ∙ sym hr.net.size)
        (omega (arith, ha.size, hr.prefix)) in
    ground (arith, bytes_eq_iff r.host host)

or_iff : {P Q : Type 0} (b c : Bool) → (b ≡ true) ↔ P → (c ≡ true) ↔ Q → ((b || c) ≡ true) ↔ (P ⊎ Q)
or_iff true c (to, from) q = (λ e. inl (to refl), λ h. refl)
or_iff false c (to, from) (to', from') =
    (λ e. inr (to' e), elim [ inl p ↦ cc (from p) | inr q ↦ from' q ])

any_iff :
    (a : Addr) (host : Bytes) (rs : List Rule)
    → IsArray a.b
    → All IsRule rs
    → (any (rule_allows a host) rs ≡ true) ↔ Any (Covers a host) rs
any_iff a host [] ha hrs = (λ e. cc, λ n. elim n [ ])
any_iff a host (r ∷ rs) ha hrs =
    or_iff (rule_allows a host r) (any (rule_allows a host) rs) (rule_allows_iff a host r ha hrs.0)
      (any_iff a host rs ha hrs.1)

-- A connection goes ahead in three cases only: the policy is off, the address is IP and not
-- internal, or a rule of the list covers it.
abbrev pub MayDial : FetchAddressPolicy → SockAddr → Bytes → Type 0
MayDial p sa url_host =
    (p.deny_internal ≡ false)
    ⊎ ((a : Addr) × (to_addr sa ≡ some a)
        × ((internal a ≡ false) ⊎ Any (Covers a (lower (strip_brackets url_host))) p.allow))

-- The addresses that the system hands over, as arrays.
abbrev pub IsSockAddr : SockAddr → Type 0
IsSockAddr sa = (a : Addr) → to_addr sa ≡ some a → IsArray a.b

-- The end of `check`, for what it computed of the address.
verdict_iff :
    {P : Type 0} (i c : Bool) (url_host : Bytes) (a : Addr)
    → (c ≡ true) ↔ P
    → ((if not i then pass else if c then pass else refused url_host a) ≡ pass) ↔ ((i ≡ false) ⊎ P)
verdict_iff false c url_host a q = (λ e. inl refl, λ h. refl)
verdict_iff true true url_host a (to, from) = (λ e. inr (to refl), λ h. refl)
verdict_iff true false url_host a (to, from) =
    (λ e. cc, elim [ inl p ↦ cc p | inr q ↦ cc (from q) ])

-- `check` returns the empty text exactly in those cases.
pub check-pass_iff :
    (p : FetchAddressPolicy) (sa : SockAddr) (url_host : Bytes)
    → IsSockAddr sa
    → All IsRule p.allow
    → (check p sa url_host ≡ pass) ↔ MayDial p sa url_host
unfolding check
check-pass_iff p sa url_host hs hrs = elim (Bool-cases p.deny_internal) [
  | inr off ↦ simp off (λ e. inl refl, λ h. refl)
  | inl on ↦ elim (Option-cases (to_addr sa)) [
    | inl no_ip ↦
        simp (on, no_ip) (λ e. cc, elim [ inl off ↦ cc off | inr (a, some_ip, _) ↦ cc some_ip ])
    | inr (a, ip) ↦
        let (to, from) =
          verdict_iff (internal a) (any (rule_allows a (lower (strip_brackets url_host))) p.allow)
            url_host a (any_iff a (lower (strip_brackets url_host)) p.allow (hs a ip) hrs) in
        simp (on, ip)
          (
            λ e. inr (a, refl, to e),
            elim [
              | inl off ↦ cc off
              | inr (x, same, rest) ↦ let e : a ≡ x = cc in from (rw e rest)
            ],
          )
  ]
]
