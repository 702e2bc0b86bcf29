-- ===== src/FetchPolicy/Internal.antt =====
-- Which IPv4 addresses are internal, as ranges of the 32-bit number, and IPv4 inside IPv6.
use libapostol.Prelude.{
  ℕ, ◌+◌, ◌-◌, ◌*◌, ◌/◌, ◌^◌, ◌<◌, bit_and, ◌≡◌, refl, sym, ◌∙◌, Bool, true, ◌&&◌, List, [], ◌∷◌,
  ◌++◌, Bytes, any, leb, ◌==◌, ==_iff, IsByte, All, arith, all_below, all_below_sound,
}
use libapostol.FetchPolicy.{
  prefix_match, prefix_mask, internal_v4, internal_v6, inet, inet6, mapped, nat64, to_addr,
  is_internal,
}

-- The IANA special-purpose ranges that the policy names, first and last address.
abbrev pub ranges_v4 : List (ℕ × ℕ)
ranges_v4 =
    (0x00000000, 0x00ffffff)
    ∷ (0x0a000000, 0x0affffff)
    ∷ (0x64400000, 0x647fffff)
    ∷ (0x7f000000, 0x7fffffff)
    ∷ (0xa9fe0000, 0xa9feffff)
    ∷ (0xac100000, 0xac1fffff)
    ∷ (0xc0000000, 0xc00000ff)
    ∷ (0xc0000200, 0xc00002ff)
    ∷ (0xc0586300, 0xc05863ff)
    ∷ (0xc0a80000, 0xc0a8ffff)
    ∷ (0xc6120000, 0xc613ffff)
    ∷ (0xc6336400, 0xc63364ff)
    ∷ (0xcb007100, 0xcb0071ff)
    ∷ (0xe0000000, 0xefffffff)
    ∷ (0xf0000000, 0xffffffff)
    ∷ []

abbrev pub in_range : ℕ → ℕ × ℕ → Bool
in_range n r = leb r.0 n && leb n r.1

-- A mask of high bits clears the low ones.
abbrev keeps_high : ℕ → ℕ → Bool
keeps_high k x = bit_and x (prefix_mask k) == x / 2 ^ (8 - k) * 2 ^ (8 - k)

pair_table : all_below 256 (keeps_high 2) ≡ true
pair_table = refl

nibble_table : all_below 256 (keeps_high 4) ≡ true
nibble_table = refl

even_table : all_below 256 (keeps_high 7) ≡ true
even_table = refl

high_bits :
    (k x : ℕ)
    → IsByte x
    → all_below 256 (keeps_high k) ≡ true
    → bit_and x (prefix_mask k) ≡ x / 2 ^ (8 - k) * 2 ^ (8 - k)
high_bits k x h table = (==_iff _ _).0 (all_below_sound 256 (keeps_high k) x table h)

module _ (a b c d : ℕ) (rest : Bytes) (ha : IsByte a) (hb : IsByte b) (hc : IsByte c)
    (hd : IsByte d) where
  abbrev pub number : ℕ
  number = ((a * 256 + b) * 256 + c) * 256 + d

  net8 :
      (x : ℕ)
      → x < 256
      → prefix_match (a ∷ b ∷ c ∷ d ∷ rest) (x ∷ 0 ∷ 0 ∷ 0 ∷ []) 8
        ≡ in_range number (x * 2 ^ 24, x * 2 ^ 24 + 0xffffff)
  unfolding prefix_match
  net8 x hx = ground arith

  net16 :
      (x y : ℕ)
      → x < 256
      → y < 256
      → prefix_match (a ∷ b ∷ c ∷ d ∷ rest) (x ∷ y ∷ 0 ∷ 0 ∷ []) 16
        ≡ in_range number ((x * 256 + y) * 2 ^ 16, (x * 256 + y) * 2 ^ 16 + 0xffff)
  unfolding prefix_match
  net16 x y hx hy = ground arith

  net24 :
      (x y z : ℕ)
      → x < 256
      → y < 256
      → z < 256
      → prefix_match (a ∷ b ∷ c ∷ d ∷ rest) (x ∷ y ∷ z ∷ 0 ∷ []) 24
        ≡ in_range number
            (((x * 256 + y) * 256 + z) * 2 ^ 8, ((x * 256 + y) * 256 + z) * 2 ^ 8 + 0xff)
  unfolding prefix_match
  net24 x y z hx hy hz = ground arith

  net4 :
      (x : ℕ)
      → x < 16
      → prefix_match (a ∷ b ∷ c ∷ d ∷ rest) ((x * 16) ∷ 0 ∷ 0 ∷ 0 ∷ []) 4
        ≡ in_range number (x * 2 ^ 28, x * 2 ^ 28 + 0xfffffff)
  unfolding prefix_match
  net4 x hx =
      ground (arith, high_bits 4 a ha nibble_table, high_bits 4 (x * 16) (omega arith) nibble_table)

  net10 :
      prefix_match (a ∷ b ∷ c ∷ d ∷ rest) (100 ∷ 64 ∷ 0 ∷ 0 ∷ []) 10
      ≡ in_range number (0x64400000, 0x647fffff)
  unfolding prefix_match
  net10 = ground (arith, high_bits 2 b hb pair_table)

  net12 :
      prefix_match (a ∷ b ∷ c ∷ d ∷ rest) (172 ∷ 16 ∷ 0 ∷ 0 ∷ []) 12
      ≡ in_range number (0xac100000, 0xac1fffff)
  unfolding prefix_match
  net12 = ground (arith, high_bits 4 b hb nibble_table)

  net15 :
      prefix_match (a ∷ b ∷ c ∷ d ∷ rest) (198 ∷ 18 ∷ 0 ∷ 0 ∷ []) 15
      ≡ in_range number (0xc6120000, 0xc613ffff)
  unfolding prefix_match
  net15 = ground (arith, high_bits 7 b hb even_table)

  -- An IPv4 address is internal exactly when its number lies in one of the fifteen ranges.
  pub internal_v4-ranges : internal_v4 (a ∷ b ∷ c ∷ d ∷ rest) ≡ any (in_range number) ranges_v4
  unfolding internal_v4
  internal_v4-ranges = rw (
    net8 0 (omega arith),
    net8 10 (omega arith),
    net10,
    net8 127 (omega arith),
    net16 169 254 (omega arith) (omega arith),
    net12,
    net24 192 0 0 (omega arith) (omega arith) (omega arith),
    net24 192 0 2 (omega arith) (omega arith) (omega arith),
    net24 192 88 99 (omega arith) (omega arith) (omega arith),
    net16 192 168 (omega arith) (omega arith),
    net15,
    net24 198 51 100 (omega arith) (omega arith) (omega arith),
    net24 203 0 113 (omega arith) (omega arith) (omega arith),
    net4 14 (omega arith),
    net4 15 (omega arith),
  )

-- IPv6 addresses that name an IPv4 address by their last four bytes, IPv4-mapped or NAT64, and those
-- of 6to4, which have it behind the first two, are internal exactly when that IPv4 address is.
pub is_internal-embedded :
    (a b c d port : ℕ) (tail : Bytes)
    → All IsByte (a ∷ b ∷ c ∷ d ∷ [])
    → (is_internal (inet6 port (mapped ++ (a ∷ b ∷ c ∷ d ∷ [])))
        ≡ is_internal (inet port (a ∷ b ∷ c ∷ d ∷ [])))
      × (is_internal (inet6 port (nat64 ++ (a ∷ b ∷ c ∷ d ∷ [])))
          ≡ is_internal (inet port (a ∷ b ∷ c ∷ d ∷ [])))
      × (is_internal (inet6 port (0x20 ∷ 0x02 ∷ a ∷ b ∷ c ∷ d ∷ tail))
          ≡ is_internal (inet port (a ∷ b ∷ c ∷ d ∷ [])))
unfolding is_internal to_addr internal_v6
is_internal-embedded a b c d port tail (ha, (hb, (hc, (hd, _)))) =
    (refl, any_rest [] _, any_rest tail _)
  where
    any_rest : (r s : Bytes) → internal_v4 (a ∷ b ∷ c ∷ d ∷ r) ≡ internal_v4 (a ∷ b ∷ c ∷ d ∷ s)
    any_rest r s =
        internal_v4-ranges a b c d r ha hb hc hd ∙ sym (internal_v4-ranges a b c d s ha hb hc hd)
