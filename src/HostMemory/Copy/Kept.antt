-- ===== src/HostMemory/Copy/Kept.antt =====
-- Which segments a removal keeps.
use orlix_system.Prelude.{
  ℕ, ◌+◌, ◌≤◌, ◌≡◌, ◌≢◌, refl, ap, Bool, List, [], ◌∷◌, arith, Bool-cases, inl, inr, reject, All,
  Pairwise, All-reject, Pairwise-reject, All-reject_with,
}
use orlix_system.Memory.{Memory}
use orlix_system.HostMemory.Space.{Segment, overlaps, address_max}
use orlix_system.HostMemory.Copy.{remove_segments, remove_segments_in_range}
use orlix_system.HostMemory.Invariant.{Apart, ApartSegments, IsInside}

abbrev in_range : ℕ → ℕ → Segment → Bool
in_range start end s = overlaps start end s.target s.length

remove_segments-kept :
    (copies : Segment → Bool) (start end : ℕ) (segments : List Segment) (m : Memory)
    → (remove_segments copies start end segments m).0 ≡ reject (in_range start end) segments
unfolding remove_segments
remove_segments-kept copies start end [] m = refl
remove_segments-kept copies start end (s ∷ rest) m = elim (Bool-cases (in_range start end s)) [
  | inl e ↦ rw (reject, e) (remove_segments-kept copies start end rest _)
  | inr e ↦
      rw (reject, e)
        (ap (λ (t : List Segment). s ∷ t) (remove_segments-kept copies start end rest m))
]

module _ (copies : Segment → Bool) (base size target length : ℕ) (segments : List Segment)
    (m : Memory) (in_word : base + size ≤ address_max) (here : target ≢ 0) (some_bytes : length ≢ 0)
    (fits : target + length ≤ address_max) (inside : All (IsInside base size) segments) where
  abbrev kept : List Segment
  kept = (remove_segments_in_range copies target length segments m).0

  kept-eq : kept ≡ reject (in_range target (target + length)) segments
  unfolding remove_segments_in_range
  kept-eq = ground (arith, remove_segments-kept copies target (target + length) segments m)

  -- What is kept lies inside the mapping and clear of the range, and shares no address.
  pub All-kept-IsInside : All (IsInside base size) kept
  All-kept-IsInside = rw kept-eq (All-reject (IsInside base size) _ segments inside)

  pub Pairwise-kept : Pairwise ApartSegments segments → Pairwise ApartSegments kept
  Pairwise-kept apart = rw kept-eq (Pairwise-reject ApartSegments _ segments apart)

  pub All-kept-Apart : All (λ s. Apart target length s.target s.length) kept
  All-kept-Apart = rw kept-eq (
      All-reject_with (IsInside base size) (λ s. Apart target length s.target s.length) _
        (λ s i e. ground (arith, i, e)) segments inside)
