-- ===== src/HostMemory/User/Refresh.antt =====
-- Refreshing a window keeps the list of user mappings in order.
use orlix_system.Prelude.{
  ℕ, ◌+◌, ◌-◌, ◌%◌, ◌^◌, ◌≤◌, ◌≡◌, ◌≢◌, sym, subst, Bool, true, false, not, ◌&&◌, some, List, [],
  ◌∷◌, arith, Bool-cases, Option-cases, inl, inr, ◌==◌, get_elem?, set, All, Pairwise, All-map,
  All-zip,
}
use orlix_system.Memory.{Memory}
use orlix_system.HostMemory.Space.{Segment, UserMapping, Mach, Space, address_max}
use orlix_system.HostMemory.Copy.{remove_segments_in_range}
use orlix_system.HostMemory.Invariant.{IsInside, IsValid, Apart, ApartSegments}
use orlix_system.HostMemory.User.{find_or_create, protection_of}
use orlix_system.HostMemory.User.Window.{
  PageSegment, check_pages, check_window, segment_of, copy_pages, refresh_mapping,
  user_refresh_window,
}
use orlix_system.HostMemory.User.Unmap.{unmap_range-IsValid}
use orlix_system.HostMemory.User.Valid.{
  KeepsNull, find_or_create-Found, IsValid-set, kept-IsInside, kept_pairs, kept-Apart, kept,
}
use orlix_system.HostMemory.User.Page.{protection-writable}

-- The pages of a window share no address.
abbrev pub ApartPages : PageSegment → PageSegment → Type 0
ApartPages p q = ApartSegments (segment_of p) (segment_of q)

swap : (p q : PageSegment) → ApartPages p q → ApartPages q p
swap p q (inl a) = inr a
swap p q (inr a) = inl a

module _ (base size : ℕ) where
  abbrev InOrder : List Segment → Type 0
  InOrder segments = All (IsInside base size) segments × Pairwise ApartSegments segments

  module _ {W : Type 0} (mach : Mach W) (page_shift : ℕ) (m : UserMapping) where
    copy_pages-InOrder :
        (pages : List PageSegment) (segments : List Segment) (mem : Memory) (w : W)
        → All (λ p. IsInside base size (segment_of p)) pages
        → Pairwise ApartPages pages
        → All (λ p. All (ApartSegments (segment_of p)) segments) pages
        → InOrder segments
        → InOrder (copy_pages mach page_shift m pages segments mem w).1
    unfolding copy_pages
    copy_pages-InOrder [] segments mem w inside apart clear h = h
    copy_pages-InOrder (p ∷ rest) segments mem w inside apart clear h =
        elim (Bool-cases (mach.malloc w).0) [
          | inr bad ↦ rw (copy_pages, bad) h
          | inl got ↦
              rw (copy_pages, got)
                (copy_pages-InOrder rest (segment_of p ∷ segments) _ _ inside.1 apart.1
                  (All-zip (λ q a b. (swap p q a, b)) rest apart.0 clear.1)
                  ((inside.0, h.0), (clear.0, h.1)))
        ]

-- A window that passes the check: its pages lie inside it.
check_pages-IsInside :
    (start end : ℕ) (pages : List PageSegment) {flags : Bool × Bool}
    → start ≤ end
    → check_pages start end pages ≡ some flags
    → All (λ p. IsInside start (end - start) (segment_of p)) pages
unfolding check_pages
check_pages-IsInside start end [] h e = tt
check_pages-IsInside start end (p ∷ rest) h e = elim (Option-cases (check_pages start end rest)) [
  | inl bad ↦ absurd (ground (arith, bad, e))
  | inr (flags, good) ↦ (
    record {
      above = ground (arith, good, e);
      below = ground (arith, good, e);
      some_bytes = ground (arith, good, e);
    },
    check_pages-IsInside start end rest h good,
  )
]

check_window-IsInside :
    (target length : ℕ) (pages : List PageSegment) {flags : Bool × Bool}
    → check_window target length pages ≡ some flags
    → (target ≢ 0)
      × (length ≢ 0)
      × (target + length ≤ address_max)
      × All (λ p. IsInside target length (segment_of p)) pages
unfolding check_window
check_window-IsInside target length [] e = absurd (ground (arith, e))
check_window-IsInside target length (p ∷ rest) {flags} e =
    let inside =
      check_pages-IsInside target (target + length) (p ∷ rest) {flags = flags} (omega arith)
        (ground (arith, e)) in
    (
      ground (arith, e),
      ground (arith, e),
      ground (arith, e),
      subst (λ (n : ℕ). All (λ q. IsInside target n (segment_of q)) (p ∷ rest)) (omega arith)
          inside,
    )

IsInside-widen :
    (b n b' n' : ℕ) (t : Segment) → b' ≤ b → b + n ≤ b' + n' → IsInside b n t → IsInside b' n' t
IsInside-widen b n b' n' t h k i = omega (arith, i)

-- A segment inside a range is clear of what the range is clear of.
clear_inside :
    (b n : ℕ) (t : Segment) (kept : List Segment)
    → IsInside b n t
    → All (λ k. Apart b n k.target k.length) kept
    → All (ApartSegments t) kept
clear_inside b n t kept i h = All-map (λ k a. omega (arith, i, a)) kept h

module _ {W : Type 0} (mach : Mach W) (page_shift : ℕ) (word : 2 ^ 64 % 2 ^ page_shift ≡ 0)
    (null : KeepsNull mach) (target length : ℕ) (pages : List PageSegment)
    (apart : Pairwise ApartPages pages) where
  module _ (i : ℕ) (m : UserMapping) (protection : ℕ) (s : Space W)
      (at : get_elem? s.user i ≡ some m) (above : m.target ≤ target)
      (below : target + length ≤ m.target + m.length) (some_address : target ≢ 0)
      (some_bytes : length ≢ 0) (v : IsValid page_shift s.user)
      (inside : All (λ p. IsInside target length (segment_of p)) pages) where
    abbrev removed : List Segment × Memory
    removed =
        remove_segments_in_range (λ seg. m.writable && not (seg.source == 0)) target length
          m.segments s.mem

    abbrev copied : Bool × List Segment × Memory × W
    copied =
        copy_pages mach page_shift m pages removed.0 removed.1
          (mach.vm_protect m.target m.length 3 s.world).1

    abbrev filled : List UserMapping
    filled = set s.user i (record m { segments = copied.1 })

    copied-InOrder : InOrder m.target m.length copied.1
    copied-InOrder =
        copy_pages-InOrder m.target m.length mach page_shift m pages removed.0 removed.1 _
          (All-map
            (λ p h. IsInside-widen target length m.target m.length (segment_of p) above below h)
            pages inside)
          apart
          (All-map
            (λ p h. clear_inside target length (segment_of p) removed.0 h (
              kept-Apart mach page_shift word null i m target 0 length protection false false true s
                at above below some_address some_bytes v))
            pages inside)
          (
            kept-IsInside mach page_shift word null i m target 0 length protection false false true
                s at above below some_address some_bytes v,
            kept_pairs mach page_shift word null i m target 0 length protection false false true s
                at above below some_address some_bytes v,
          )

    filled-IsValid : IsValid page_shift filled
    filled-IsValid =
        IsValid-set mach page_shift word null i m target 0 length protection false false true s at
          above below some_address some_bytes v copied.1 copied-InOrder.0 copied-InOrder.1

    refresh_mapping-IsValid :
        IsValid page_shift
          (refresh_mapping mach page_shift i m target length protection pages s).1.user
    unfolding refresh_mapping
    refresh_mapping-IsValid = elim (Bool-cases (mach.vm_protect m.target m.length 3 s.world).0) [
      | inr shut ↦ rw (refresh_mapping, shut) v
      | inl opened ↦ elim (Bool-cases copied.0) [
        | inr bad ↦
            rw (refresh_mapping, opened, bad)
              (unmap_range-IsValid mach page_shift m.target m.length _ filled-IsValid)
        | inl good ↦ elim (Bool-cases (mach.vm_protect m.target m.length protection copied.3).0) [
          | inr bad ↦
              rw (refresh_mapping, opened, good, bad)
                (unmap_range-IsValid mach page_shift m.target m.length _ filled-IsValid)
          | inl closed ↦ rw (refresh_mapping, opened, good, closed) filled-IsValid
        ]
      ]
    ]

  pub user_refresh_window-IsValid :
      (s : Space W)
      → IsValid page_shift s.user
      → IsValid page_shift (user_refresh_window mach page_shift target length pages s).1.user
  unfolding user_refresh_window
  user_refresh_window-IsValid s v = elim (Option-cases (check_window target length pages)) [
    | inl bad ↦ rw (user_refresh_window, bad) v
    | inr ((writable, executable), good) ↦
        let (a, b, c, inside) = check_window-IsInside target length pages good in
        let protection = protection_of writable executable in
        let made =
          find_or_create-Found mach page_shift word null target length protection writable s a b c
            (sym (protection-writable writable executable)) v in
        elim (Option-cases (find_or_create mach page_shift target length protection writable s).0) [
          | inl e ↦ rw (user_refresh_window, good, e) made.0
          | inr (i, e) ↦
              let f = made.1 i e in
              rw (user_refresh_window, good, e, f.at)
                (refresh_mapping-IsValid i f.mapping protection _ f.at f.above f.below a b made.0
                  inside)
        ]
  ]
