-- ===== src/HttpUtils/Headers.antt =====
-- The address of a client from the headers of proxies. `pton4` and `pton6` say whether inet_pton takes
-- a text for an IPv4 or an IPv6 address.
use libapostol.Prelude.{
  c_str, ℕ, zero, suc, ◌-◌, Bool, true, false, not, ◌&&◌, ◌||◌, Option, none, some, [], ◌∷◌, Bytes,
  find, length, get_or, take, drop, is_empty, ◌==◌, if◌then◌else◌,
}

abbrev pub is_blank : ℕ → Bool
is_blank c = c == b' ' || c == b'\t'

-- From the first character that is no blank on.
unfoldable pub trim_start : Bytes → Bytes
trim_start [] = []
trim_start (c ∷ cs) = let rest = trim_start cs in if is_blank c then rest else c ∷ cs

-- Up to the last character that is no blank.
unfoldable pub trim_end : Bytes → Bytes
trim_end [] = []
trim_end (c ∷ cs) = let rest = trim_end cs in if is_blank c && is_empty rest then [] else c ∷ rest

abbrev pub is_none : Option ℕ → Bool
is_none none = true
is_none (some i) = false

-- An IPv6 address in brackets without them, an IPv4 address without its port.
unfoldable pub strip_port : Bytes → Bytes
strip_port value =
    if get_or value 0 0 == b'['
    then elim (find b']' value) [ none ↦ [] | some close ↦ take (close - 1) (drop 1 value) ]
    else elim (find b':' value) [
      | none ↦ value
      | some colon ↦
          if is_none (find b':' (drop (suc colon) value)) && not (is_none (find b'.' value))
          then take colon value
          else value
    ]

abbrev pub strip_zone : Bytes → Bytes
strip_zone value = elim (find b'%' value) [ none ↦ value | some zone ↦ take zone value ]

-- A text of blanks is the empty one; then so is all that follows.
unfoldable pub clean_element : Bytes → Bytes
clean_element value =
    let trimmed = trim_end (trim_start value) in
    if is_empty trimmed then [] else strip_zone (strip_port trimmed)

module _ (pton4 pton6 : Bytes → Bool) where
  unfoldable pub ip_literal : Bytes → Bool
  ip_literal value = not (is_empty value) && (pton4 (c_str value) || pton6 (c_str value))

  -- The loop over the elements; a round takes a character at least, or is the last.
  unfoldable pub first_forwarded_from : ℕ → Bytes → Bytes
  first_forwarded_from zero value = []
  first_forwarded_from (suc fuel) value = if is_empty value then [] else elim (find b',' value) [
    | none ↦ let element = clean_element value in if ip_literal element then element else []
    | some comma ↦
        let element = clean_element (take comma value) in
        let more = first_forwarded_from fuel (drop (suc comma) value) in
        if ip_literal element then element else more
  ]

  unfoldable pub first_forwarded : Bytes → Bytes
  first_forwarded value = first_forwarded_from (length value) value

  -- `get_real_ip` for a request with the two headers and the peer given
  unfoldable pub get_real_ip : Bytes → Bytes → Bytes → Bytes
  get_real_ip real_ip forwarded_for peer_ip =
      let ip = first_forwarded real_ip in
      if not (is_empty ip)
      then ip
      else (let next = first_forwarded forwarded_for in
          if not (is_empty next) then next else peer_ip)
