-- ===== src/RouteManager/Segments.antt =====
-- Splitting a path: what its segments are, and that writing them out and splitting agree.
use libapostol.Prelude.{
  find, Avoids, find-none, find-first, drop-past-char, take-whole, ℕ, zero, suc, ◌≤◌, ◌<◌, ◌≡◌, ◌≢◌,
  inl, inr, refl, none, some, List, [], ◌∷◌, ◌++◌, Bytes, length, length-append, take, drop, All,
  arith, lt→ltb, Option-cases, append-nil,
}
use libapostol.RouteManager.{split_from, split_path}

abbrev pub NoSlash : Bytes → Type 0
NoSlash xs = Avoids b'/' xs

-- A segment has characters, none of them a slash.
abbrev pub IsSegment : Bytes → Type 0
IsSegment xs = (xs ≢ []) × NoSlash xs

-- A path with the given segments.
abbrev pub join : List Bytes → Bytes
join [] = []
join (seg ∷ segs) = b'/' ∷ (seg ++ join segs)

find-NoSlash-none : (xs : Bytes) → find b'/' xs ≡ none → NoSlash xs
unfolding find
find-NoSlash-none [] h = tt
find-NoSlash-none (x ∷ xs) h = elim (Option-cases (find b'/' xs)) [
  | inl clean ↦ (ground arith, find-NoSlash-none xs clean)
  | inr (pos, at_pos) ↦ absurd (ground arith)
]

find-NoSlash-take :
    (xs : Bytes) (pos : ℕ) → find b'/' xs ≡ some pos → NoSlash (take pos xs) × (pos < length xs)
unfolding find
find-NoSlash-take [] pos h = absurd (ground arith)
find-NoSlash-take (x ∷ xs) zero h = (tt, omega arith)
find-NoSlash-take (x ∷ xs) (suc pos) h = elim (Option-cases (find b'/' xs)) [
  | inl clean ↦ absurd (ground arith)
  | inr (q, at_pos) ↦
      let same : q ≡ pos = ground arith in
      let (clean, less) = find-NoSlash-take xs pos (rw (at_pos, same)) in
      ((ground arith, clean), omega arith)
]

split_from-join :
    (fuel : ℕ) (seg : Bytes) (segs : List Bytes)
    → All IsSegment (seg ∷ segs)
    → length (seg ++ join segs) ≤ fuel
    → split_from fuel (seg ++ join segs) ≡ seg ∷ segs
unfolding split_from
split_from-join fuel [] segs h l = absurd (h.0.0 refl)
split_from-join zero (c ∷ cs) segs h l = absurd (omega arith)
split_from-join (suc fuel) (c ∷ cs) [] h l =
    rw (append-nil cs, find-none b'/' (c ∷ cs) h.0.1, append-nil cs)
split_from-join (suc fuel) (c ∷ cs) (seg ∷ segs) h l =
    let shorter : length (seg ++ join segs) ≤ fuel =
      omega (arith, length-append cs (b'/' ∷ (seg ++ join segs))) in
    rw (
      find-first b'/' (c ∷ cs) (seg ++ join segs) h.0.1,
      drop-past-char b'/' (c ∷ cs) (seg ++ join segs),
      take-whole (c ∷ cs) (b'/' ∷ (seg ++ join segs)),
      split_from-join fuel seg segs h.1 shorter,
      lt→ltb 0 (suc (length cs)) (omega arith),
    )

-- Splitting a path that is written from segments gives these segments.
pub split_path-join : (segs : List Bytes) → All IsSegment segs → split_path (join segs) ≡ segs
unfolding split_path split_from
split_path-join [] h = refl
split_path-join (seg ∷ segs) h =
    split_from-join (length (join (seg ∷ segs))) seg segs h (omega arith)

split_from-IsSegment : (fuel : ℕ) (rest : Bytes) → All IsSegment (split_from fuel rest)
unfolding split_from
split_from-IsSegment zero rest = tt
split_from-IsSegment (suc fuel) [] = tt
split_from-IsSegment (suc fuel) (c ∷ cs) = elim (Option-cases (find b'/' (c ∷ cs))) [
  | inl clean ↦ rw clean ((cc, find-NoSlash-none (c ∷ cs) clean), tt)
  | inr (zero, at_pos) ↦ rw at_pos (split_from-IsSegment fuel cs)
  | inr (suc pos, at_pos) ↦
      rw (at_pos, lt→ltb 0 (suc pos) (omega arith))
        (
          (cc, (find-NoSlash-take (c ∷ cs) (suc pos) at_pos).0),
          split_from-IsSegment fuel (drop (suc (suc pos)) (c ∷ cs)),
        )
]

-- Every part that a path splits into is a segment: not empty, and free of slashes.
pub split_path-IsSegment : (path : Bytes) → All IsSegment (split_path path)
unfolding split_path
split_path-IsSegment path = split_from-IsSegment (length path) _
