-- ===== src/HttpUtils/Proxies.antt =====
-- Which address the headers of proxies give.
use libapostol.Prelude.{
  ℕ, zero, suc, ◌≤◌, ◌≡◌, ◌⊎◌, inl, inr, refl, Bool, true, false, List, [], ◌∷◌, ◌++◌, Bytes, find,
  Avoids, find-none, find-first, drop-past-char, take-whole, length, length-append, take, drop,
  is_empty, All, arith, Bool-cases, Option-cases, if◌then◌else◌,
}
use libapostol.HttpUtils.Headers.{
  clean_element, trim_start, trim_end, ip_literal, first_forwarded_from, first_forwarded,
  get_real_ip,
}

abbrev pub join_commas : Bytes → List Bytes → Bytes
join_commas e [] = e
join_commas e (f ∷ fs) = e ++ (b',' ∷ join_commas f fs)

nonempty : (e t : Bytes) → is_empty (e ++ (b',' ∷ t)) ≡ false
nonempty [] t = refl
nonempty (c ∷ cs) t = refl

module _ (pton4 pton6 : Bytes → Bool) where
  -- The first element that names an address, as the address; the empty text if none does.
  abbrev pub first_literal : List Bytes → Bytes
  first_literal [] = []
  first_literal (e ∷ es) =
      if ip_literal pton4 pton6 (clean_element e) then clean_element e else first_literal es

  no_literal : ip_literal pton4 pton6 (clean_element []) ≡ false
  unfolding ip_literal clean_element trim_start trim_end
  no_literal = refl

  first_forwarded_from-join :
      (fuel : ℕ) (e : Bytes) (es : List Bytes)
      → All (Avoids b',') (e ∷ es)
      → length (join_commas e es) ≤ fuel
      → first_forwarded_from pton4 pton6 fuel (join_commas e es) ≡ first_literal (e ∷ es)
  unfolding first_forwarded_from
  first_forwarded_from-join zero [] [] h l = rw no_literal
  first_forwarded_from-join zero (c ∷ cs) [] h l = absurd (omega arith)
  first_forwarded_from-join zero e (f ∷ fs) h l =
      absurd (omega (arith, length-append e (b',' ∷ join_commas f fs)))
  first_forwarded_from-join (suc fuel) [] [] h l = rw no_literal
  first_forwarded_from-join (suc fuel) (c ∷ cs) [] h l = rw (find-none b',' (c ∷ cs) h.0)
  first_forwarded_from-join (suc fuel) e (f ∷ fs) h l =
      let ih =
        first_forwarded_from-join fuel f fs h.1
          (omega (arith, length-append e (b',' ∷ join_commas f fs))) in
      rw (
        nonempty e (join_commas f fs),
        find-first b',' e (join_commas f fs) h.0,
        take-whole e (b',' ∷ join_commas f fs),
        drop-past-char b',' e (join_commas f fs),
        ih,
      )

  -- For a header of elements that are separated by commas, `first_forwarded` returns the first that
  -- names an address, or the empty text if none does.
  pub first_forwarded-join :
      (e : Bytes) (es : List Bytes)
      → All (Avoids b',') (e ∷ es)
      → first_forwarded pton4 pton6 (join_commas e es) ≡ first_literal (e ∷ es)
  unfolding first_forwarded
  first_forwarded-join e es h =
      first_forwarded_from-join (length (join_commas e es)) e es h (omega arith)

  first_forwarded_from-cases :
      (fuel : ℕ) (value : Bytes)
      → (first_forwarded_from pton4 pton6 fuel value ≡ [])
        ⊎ (ip_literal pton4 pton6 (first_forwarded_from pton4 pton6 fuel value) ≡ true)
  unfolding first_forwarded_from
  first_forwarded_from-cases zero value = inl refl
  first_forwarded_from-cases (suc fuel) [] = inl refl
  first_forwarded_from-cases (suc fuel) (c ∷ cs) = elim (Option-cases (find b',' (c ∷ cs))) [
    | inl last ↦ elim (Bool-cases (ip_literal pton4 pton6 (clean_element (c ∷ cs)))) [
      | inl good ↦ inr (rw (last, good) good)
      | inr bad ↦ inl (rw (last, bad))
    ]
    | inr (comma, more) ↦
        elim (Bool-cases (ip_literal pton4 pton6 (clean_element (take comma (c ∷ cs))))) [
          | inl good ↦ inr (rw (more, good) good)
          | inr bad ↦ simp (more, bad) (first_forwarded_from-cases fuel (drop (suc comma) (c ∷ cs)))
        ]
  ]

  -- Whatever the headers say, `get_real_ip` returns a text that inet_pton takes for an address, or
  -- the address of the peer.
  get_real_ip-cases :
      (real_ip forwarded_for peer_ip : Bytes)
      → (ip_literal pton4 pton6 (get_real_ip pton4 pton6 real_ip forwarded_for peer_ip) ≡ true)
        ⊎ (get_real_ip pton4 pton6 real_ip forwarded_for peer_ip ≡ peer_ip)
  unfolding get_real_ip first_forwarded
  get_real_ip-cases real_ip forwarded_for peer_ip = ground (
    arith,
    first_forwarded_from-cases (length real_ip) real_ip,
    first_forwarded_from-cases (length forwarded_for) forwarded_for,
  )
