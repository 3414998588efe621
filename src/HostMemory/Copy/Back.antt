-- ===== src/HostMemory/Copy/Back.antt =====
-- What copying the writable mappings back leaves in the sources.
use orlix_system.Prelude.{
  ℕ, ◌+◌, ◌%◌, ◌≤◌, ◌<◌, ◌≡◌, ◌≢◌, ◌⊎◌, refl, ap, ◌∙◌, ◌||◌, List, [], ◌∷◌, ◌++◌, arith, ◌==◌, All,
  Pairwise, All-map, All-zip, if◌then◌else◌,
}
use orlix_system.Memory.{Memory, load_bytes}
use orlix_system.Memory.Frame.{store_bytes-outside, length-load_bytes, copied_byte}
use orlix_system.HostMemory.Space.{Segment}
use orlix_system.HostMemory.Invariant.{Apart}
use orlix_system.HostMemory.Copy.{copy_back, memcpy}

abbrev pub ClearSources : Segment → Segment → Type 0
ClearSources s t =
    Apart s.source s.length t.source t.length
    × Apart s.source s.length t.target t.length
    × Apart t.source t.length s.target s.length

-- The bytes of the copy are in the source, where the segment has one.
abbrev pub IsWritten : Memory → Memory → Segment → Type 0
IsWritten m m' s =
    s.source ≢ 0 → (j : ℕ) → j < s.length → m' (s.source + j) ≡ m (s.target + j) % 256

abbrev pub Outside : ℕ → Segment → Type 0
Outside a s = (a < s.source) ⊎ (s.source + s.length ≤ a)

abbrev one_back : Segment → Memory → Memory
one_back s m = if s.source == 0 || s.length == 0 then m else memcpy s.source s.target s.length m

one_back-Outside : (s : Segment) (m : Memory) (a : ℕ) → Outside a s → one_back s m a ≡ m a
one_back-Outside s m a h = ground (
  arith,
  store_bytes-outside m s.source (load_bytes s.length m s.target) a,
  length-load_bytes s.length m s.target,
)

pub copy_back-Outside :
    (segments : List Segment) (m : Memory) (a : ℕ)
    → All (Outside a) segments
    → copy_back segments m a ≡ m a
unfolding copy_back
copy_back-Outside [] m a h = refl
copy_back-Outside (s ∷ rest) m a h =
    copy_back-Outside rest (one_back s m) a h.1 ∙ one_back-Outside s m a h.0

one_back-IsWritten : (s : Segment) (m : Memory) → IsWritten m (one_back s m) s
one_back-IsWritten s m some j h = ground (arith, copied_byte s.length m m s.source s.target j h)

pub copy_back-IsWritten :
    (segments : List Segment) (m : Memory)
    → Pairwise ClearSources segments
    → All (IsWritten m (copy_back segments m)) segments
unfolding copy_back
copy_back-IsWritten [] m h = tt
copy_back-IsWritten (s ∷ rest) m h = (
  λ some j low.
      copy_back-Outside rest (one_back s m) (s.source + j)
        (All-map (λ t c. omega (arith, c.0)) rest h.0)
      ∙ one_back-IsWritten s m some j low,
  All-zip
      (λ t c w some j low.
        w some j low
        ∙ ap (λ (b : ℕ). b % 256) (one_back-Outside s m (t.target + j) (omega (arith, c.1))))
      rest h.0 (copy_back-IsWritten rest (one_back s m) h.1),
)

pub copy_back-append :
    (xs ys : List Segment) (m : Memory) → copy_back (xs ++ ys) m ≡ copy_back ys (copy_back xs m)
unfolding copy_back
copy_back-append [] ys m = refl
copy_back-append (s ∷ xs) ys m = copy_back-append xs ys (one_back s m)
