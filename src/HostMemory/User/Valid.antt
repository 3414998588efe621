-- ===== src/HostMemory/User/Valid.antt =====
-- The mapping that a page goes into, found or made, and that filling it keeps the list in order.
use native.Mathlib.Decide.{ℕ_discrete}
use orlix_system.Prelude.{
  ℕ, zero, suc, ◌+◌, ◌-◌, ◌%◌, ◌^◌, ◌≤◌, ◌<◌, ◌≡◌, ◌≢◌, refl, ap, Bool, true, false, not, ◌&&◌,
  some, List, [], ◌∷◌, arith, Bool-cases, Option-cases, inl, inr, All, Pairwise, All-get, All-set,
  Pairwise-set, bit_and, ◌==◌, get_elem?, set, some_eq,
}
use orlix_system.Memory.{Memory}
use orlix_system.HostMemory.Space.{
  Segment, UserMapping, Mach, Space, address_max, page_start, page_end, unmap_pages, prot_write,
}
use orlix_system.HostMemory.Pages.{page_range, page_aligned}
use orlix_system.HostMemory.Invariant.{
  Apart, ApartMappings, ApartSegments, IsInside, IsMapping, IsValid,
}
use orlix_system.HostMemory.Copy.{remove_segments_in_range}
use orlix_system.HostMemory.Copy.Kept.{All-kept-IsInside, Pairwise-kept, All-kept-Apart}
use orlix_system.HostMemory.User.{
  serves, same_flag, user_find_mapping, user_unmap_mapped_range, allocate_mapping, new_mapping,
  user_create_mapping, find_or_create, fill_mapping,
}
use orlix_system.HostMemory.User.Unmap.{
  no_pages, unmap_range-IsValid, IsValid-new, unmap_pages-user,
}

-- Mach never gives out the page at address 0.
abbrev pub KeepsNull : {W : Type 0} → Mach W → Type 0
KeepsNull {W} mach = (n : ℕ) (m : Memory) (w : W) → (mach.vm_allocate 0 n m w).0 ≡ false

-- The mapping of index `i` serves a range with a protection.
pub record Found (user : List UserMapping) (target length protection : ℕ) (writable : Bool) (i : ℕ)
    : Type 0 where
  pub mapping : UserMapping
  pub at : get_elem? user i ≡ some mapping
  pub above : mapping.target ≤ target
  pub below : target + length ≤ mapping.target + mapping.length
  pub same_protection : mapping.protection ≡ protection
  pub same_writable : mapping.writable ≡ writable

same_flag-eq : (a b : Bool) → same_flag a b ≡ true → a ≡ b
same_flag-eq true true h = refl
same_flag-eq true false h = cc
same_flag-eq false true h = cc
same_flag-eq false false h = refl

user_find_mapping-at :
    (user : List UserMapping) (target length protection : ℕ) (writable : Bool) (i : ℕ)
    → user_find_mapping user target length protection writable ≡ some i
    → (m : UserMapping) × (get_elem? user i ≡ some m)
      × (serves target length protection writable m ≡ true)
unfolding user_find_mapping
user_find_mapping-at [] target length protection writable i e = cc
user_find_mapping-at (m ∷ rest) target length protection writable zero e =
    elim (Bool-cases (serves target length protection writable m)) [
      | inl good ↦ (m, refl, good)
      | inr bad ↦ absurd (ground (arith, bad, e))
    ]
user_find_mapping-at (m ∷ rest) target length protection writable (suc i) e =
    user_find_mapping-at rest target length protection writable i (ground (arith, e))

module _ {W : Type 0} (mach : Mach W) (page_shift : ℕ) (word : 2 ^ 64 % 2 ^ page_shift ≡ 0)
    (null : KeepsNull mach) where
  module _ (target length protection : ℕ) (writable : Bool) (s : Space W)
      (some_address : target ≢ 0) (some_bytes : length ≢ 0) (fits : target + length ≤ address_max)
      (flag : writable ≡ not (bit_and protection prot_write == 0))
      (v : IsValid page_shift s.user) where
    Found-existing :
        (i : ℕ)
        → user_find_mapping s.user target length protection writable ≡ some i
        → Found s.user target length protection writable i
    Found-existing i e =
        let (m, at, good) = user_find_mapping-at s.user target length protection writable i e in
        let i' = All-get (IsMapping page_shift) s.user i v.mappings at in
        record {
          mapping = m;
          at = at;
          above = ground (arith, good);
          below = ground (arith, good, i'.in_word);
          same_protection = ground (arith, good);
          same_writable = same_flag-eq m.writable writable (ground (arith, good));
        }

    abbrev first : ℕ
    first = page_start page_shift target

    abbrev last : ℕ
    last = page_end page_shift target length

    abbrev freed : Space W
    freed =
        unmap_pages page_shift mach first (last - first)
          (user_unmap_mapped_range mach page_shift first (last - first) s)

    -- What a creation returns.
    abbrev Created : Bool × Space W → Type 0
    Created r =
        IsValid page_shift r.1.user
        × (r.0 ≡ true → Found r.1.user target length protection writable 0)

    freed-IsValid : IsValid page_shift freed.user
    freed-IsValid =
        rw
          (unmap_pages-user mach page_shift first (last - first)
            (user_unmap_mapped_range mach page_shift first (last - first) s))
          (unmap_range-IsValid mach page_shift first (last - first) s v)

    -- The first page is not the one at 0 where `vm_allocate` succeeds.
    first-pos : (mach.vm_allocate first (last - first) freed.mem freed.world).0 ≡ true → 0 < first
    first-pos e = elim (ℕ_discrete first 0) [
      | yes z ↦ cc (
        ap (λ (t : ℕ). (mach.vm_allocate t (last - first) freed.mem freed.world).0) z,
        null (last - first) freed.mem freed.world,
        e,
      )
      | no z ↦ omega arith
    ]

    Created-allocate :
        no_pages mach page_shift target length ≡ false
        → Created (allocate_mapping mach page_shift first last protection writable freed)
    unfolding allocate_mapping
    Created-allocate on =
        elim (Bool-cases (mach.vm_allocate first (last - first) freed.mem freed.world).0) [
          | inr bad ↦ rw (allocate_mapping, bad) (freed-IsValid, λ e. absurd (ground (arith, e)))
          | inl good ↦
              elim (Bool-cases
                (mach.malloc (mach.vm_allocate first (last - first) freed.mem freed.world).2).0) [
                  | inr bad ↦
                      rw (allocate_mapping, good, bad)
                        (freed-IsValid, λ e. absurd (ground (arith, e)))
                  | inl got ↦
                      let range = page_range page_shift target length (ground (arith, on)) in
                      let whole = page_aligned page_shift target length in
                      rw (allocate_mapping, good, got)
                        (
                          IsValid-new mach page_shift word first last s (first-pos good) whole.0
                              whole.1 (omega (arith, range)) range.2 v protection writable flag,
                          λ e. record {
                            mapping = new_mapping first last protection writable;
                            at = refl;
                            above = range.0;
                            below = omega (arith, range);
                            same_protection = refl;
                            same_writable = refl;
                          },
                        )
                ]
        ]

    create-Created :
        Created (user_create_mapping mach page_shift target length protection writable s)
    unfolding user_create_mapping
    create-Created = elim (Bool-cases (no_pages mach page_shift target length)) [
      | inl off ↦ rw (user_create_mapping, off) (v, λ e. absurd (ground (arith, e)))
      | inr on ↦ rw (user_create_mapping, on) (Created-allocate on)
    ]

    pub find_or_create-Found :
        IsValid page_shift
          (find_or_create mach page_shift target length protection writable s).1.user
        × ((i : ℕ)
            → (find_or_create mach page_shift target length protection writable s).0 ≡ some i
            → Found
                (find_or_create mach page_shift target length protection writable s).1.user
                target
                length
                protection
                writable
                i)
    unfolding find_or_create
    find_or_create-Found =
        elim (Option-cases (user_find_mapping s.user target length protection writable)) [
          | inr (i, e) ↦
              rw (find_or_create, e) (v, λ j e'. rw (← (some_eq i j e')) (Found-existing i e))
          | inl e ↦
              elim (Bool-cases
                (user_create_mapping mach page_shift target length protection writable s).0) [
                  | inl good ↦
                      rw (find_or_create, e, good)
                        (create-Created.0, λ j e'. rw (← (some_eq 0 j e')) (create-Created.1 good))
                  | inr bad ↦
                      rw (find_or_create, e, bad)
                        (create-Created.0, λ j e'. absurd (ground (arith, e')))
                ]
        ]

  module _ (i : ℕ) (m : UserMapping) (target source length protection : ℕ)
      (executable translates copies : Bool) (s : Space W) (at : get_elem? s.user i ≡ some m)
      (above : m.target ≤ target) (below : target + length ≤ m.target + m.length)
      (some_address : target ≢ 0) (some_bytes : length ≢ 0) (v : IsValid page_shift s.user) where
    pub good-IsMapping : IsMapping page_shift m
    good-IsMapping = All-get (IsMapping page_shift) s.user i v.mappings at

    -- New segments for a mapping.
    pub IsValid-set :
        (segments : List Segment)
        → All (IsInside m.target m.length) segments
        → Pairwise ApartSegments segments
        → IsValid page_shift (set s.user i (record m { segments = segments }))
    IsValid-set segments inside apart = record {
      mappings =
          All-set (IsMapping page_shift) s.user i (record m { segments = segments }) v.mappings
            (record {
              start_whole = good-IsMapping.start_whole;
              end_whole = good-IsMapping.end_whole;
              some_pages = good-IsMapping.some_pages;
              in_word = good-IsMapping.in_word;
              flag = good-IsMapping.flag;
              inside = inside;
              segments_apart = apart;
            });
      mappings_apart =
          Pairwise-set ApartMappings s.user i (record m { segments = segments }) at (λ y r. r)
            (λ y r. r) v.mappings_apart;
    }

    abbrev pub leaves : Segment → Bool
    leaves seg = copies && m.writable && not (seg.source == 0)

    abbrev pub kept : List Segment
    kept = (remove_segments_in_range leaves target length m.segments s.mem).0

    pub kept-IsInside : All (IsInside m.target m.length) kept
    kept-IsInside =
        All-kept-IsInside leaves m.target m.length target length m.segments s.mem
          good-IsMapping.in_word some_address some_bytes (omega (arith, good-IsMapping.in_word))
          good-IsMapping.inside

    pub kept_pairs : Pairwise ApartSegments kept
    kept_pairs =
        Pairwise-kept leaves m.target m.length target length m.segments s.mem good-IsMapping.in_word
          some_address some_bytes (omega (arith, good-IsMapping.in_word)) good-IsMapping.inside
          good-IsMapping.segments_apart

    pub kept-Apart : All (λ t. Apart target length t.target t.length) kept
    kept-Apart =
        All-kept-Apart leaves m.target m.length target length m.segments s.mem
          good-IsMapping.in_word some_address some_bytes (omega (arith, good-IsMapping.in_word))
          good-IsMapping.inside

    pub fill_mapping-IsValid :
        IsValid page_shift
          (fill_mapping mach page_shift i m target source length protection executable translates
            copies s).1.user
    unfolding fill_mapping
    fill_mapping-IsValid = elim (Bool-cases (mach.vm_protect m.target m.length 3 s.world).0) [
      | inr shut ↦ rw (fill_mapping, shut) v
      | inl opened ↦
          elim (Bool-cases (mach.malloc (mach.vm_protect m.target m.length 3 s.world).1).0) [
            | inr bad ↦ rw (fill_mapping, opened, bad) (IsValid-set kept kept-IsInside kept_pairs)
            | inl got ↦
                rw (fill_mapping, opened, got)
                  (IsValid-set (record { target = target; source = source; length = length } ∷ kept)
                    (
                      record { above = above; below = below; some_bytes = omega arith },
                      kept-IsInside,
                    )
                    (kept-Apart, kept_pairs))
          ]
    ]
