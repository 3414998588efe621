-- ===== src/HostMemory/User/Page.antt =====
-- `orlix_host_user_map_page`: what a page that has been mapped holds, and that mapping it again does
-- nothing.
use orlix_system.Prelude.{
  ℕ, zero, suc, ◌+◌, ◌-◌, ◌%◌, ◌^◌, ◌<◌, ◌≡◌, refl, ap, ◌∙◌, sym, Bool, true, false, not, ◌&&◌,
  Option, some, List, [], ◌∷◌, arith, Bool-cases, Option-cases, inl, inr, bit_and, ◌==◌, ltb, ◌||◌,
  get_elem?, set, All-get,
}
use orlix_system.Memory.{Memory, load_bytes}
use orlix_system.Memory.Frame.{store_bytes-outside, length-load_bytes, copied_byte}
use orlix_system.HostMemory.Copy.{memcpy, remove_segments_in_range}
use orlix_system.HostMemory.Space.{Segment, UserMapping, Mach, Space, address_max, prot_write}
use orlix_system.HostMemory.Invariant.{IsMapping, IsValid, Apart}
use orlix_system.HostMemory.User.{
  find_or_create, fill_mapping, map_shadow_user_pages, user_map_page, user_refresh_page,
  user_mapping_matches, protection_of, place, serves, same_flag, same_segment, has_segment,
}
use orlix_system.HostMemory.User.Valid.{
  KeepsNull, Found, find_or_create-Found, fill_mapping-IsValid,
}

same_flag_self : (b : Bool) → same_flag b b ≡ true
same_flag_self true = refl
same_flag_self false = refl

-- A mapping in the list that serves the request and holds its segment is found.
user_mapping_matches-set :
    (user : List UserMapping) (i : ℕ) {m : UserMapping} (m' : UserMapping)
    (target source length protection : ℕ) (writable : Bool)
    → get_elem? user i ≡ some m
    → serves target length protection writable m' ≡ true
    → has_segment (same_segment target source length) m'.segments ≡ true
    → user_mapping_matches (set user i m') target source length protection writable ≡ true
unfolding user_mapping_matches
user_mapping_matches-set [] i m' target source length protection writable e a b = cc
user_mapping_matches-set (x ∷ user) zero m' target source length protection writable e a b =
    ground arith
user_mapping_matches-set (x ∷ user) (suc i) {m} m' target source length protection writable e a b =
    ground (
      arith,
      user_mapping_matches-set user i {m = m} m' target source length protection writable e a b,
    )

module _ {W : Type 0} (mach : Mach W) (page_shift : ℕ) (word : 2 ^ 64 % 2 ^ page_shift ≡ 0)
    (null : KeepsNull mach) (target source length protection : ℕ)
    (executable translates copies : Bool) (s : Space W) (v : IsValid page_shift s.user) where
  abbrev result : Bool × Space W
  result =
      map_shadow_user_pages mach page_shift target source length protection executable translates
        copies s

  abbrev writable : Bool
  writable = not (bit_and protection prot_write == 0)

  abbrev no_request : Bool
  no_request = target == 0 || source == 0 || length == 0 || ltb (address_max - length) target

  -- With a mapping at hand: the mapping, and the call that fills it.
  abbrev found : Option ℕ × Space W
  found = find_or_create mach page_shift target length protection writable s

  -- What every return of the function has.
  module _ (P : Bool × Space W → Type 0) (unchanged : P (false, s))
      (no_mapping : no_request ≡ false → P (false, found.1))
      (filled : no_request ≡ false
        → (i : ℕ) (f : Found found.1.user target length protection writable i)
        → P (
            fill_mapping mach page_shift i f.mapping target source length protection executable
              translates copies found.1)) where
    pub map_shadow-cases : P result
    unfolding map_shadow_user_pages
    map_shadow-cases = elim (Bool-cases no_request) [
      | inl bad ↦ rw (map_shadow_user_pages, bad) unchanged
      | inr good ↦ elim (Option-cases found.0) [
        | inl e ↦ rw (map_shadow_user_pages, good, e) (no_mapping good)
        | inr (i, e) ↦
            let f =
              (find_or_create-Found mach page_shift word null target length protection writable s
                  (ground (arith, good)) (ground (arith, good)) (ground (arith, good)) refl v).1
                i e in
            rw (map_shadow_user_pages, good, e, f.at) (filled good i f)
      ]
    ]

  pub map_shadow-IsValid : IsValid page_shift result.1.user
  map_shadow-IsValid =
      map_shadow-cases (λ r. IsValid page_shift r.1.user) v
        (λ good.
          (find_or_create-Found mach page_shift word null target length protection writable s
            (ground (arith, good)) (ground (arith, good)) (ground (arith, good)) refl v).0)
        (λ good i f.
          fill_mapping-IsValid mach page_shift word null i f.mapping target source length protection
            executable translates copies found.1 f.at f.above f.below (ground (arith, good))
            (ground (arith, good))
            (find_or_create-Found mach page_shift word null target length protection writable s
              (ground (arith, good)) (ground (arith, good)) (ground (arith, good)) refl v).0)

  -- The bytes of the source, and a mapping with a segment that records it.
  pub record IsMapped (t : Space W) : Type 0 where
    pub bytes :
        Apart target length source length
        → (j : ℕ) → j < length
        → t.mem (target + j) ≡ t.mem (source + j) % 256
    pub recorded : user_mapping_matches t.user target source length protection writable ≡ true

  module _ (i : ℕ) (f : Found found.1.user target length protection writable i)
      (good : no_request ≡ false) where
    abbrev filled : Bool × Space W
    filled =
        fill_mapping mach page_shift i f.mapping target source length protection executable
          translates copies found.1

    found-IsValid : IsValid page_shift found.1.user
    found-IsValid =
        (find_or_create-Found mach page_shift word null target length protection writable s
          (ground (arith, good)) (ground (arith, good)) (ground (arith, good)) refl v).0

    place-eq : place f.mapping target ≡ target
    place-eq = ground (arith, good, f.above)

    abbrev kept_memory : Memory
    kept_memory =
        (remove_segments_in_range (λ seg. copies && f.mapping.writable && not (seg.source == 0))
          target length f.mapping.segments found.1.mem).1

    copied_bytes :
        Apart target length source length
        → (j : ℕ) → j < length
        → memcpy (place f.mapping target) source length kept_memory (target + j)
          ≡ memcpy (place f.mapping target) source length kept_memory (source + j) % 256
    copied_bytes apart j low = rw place-eq (
        copied_byte length kept_memory kept_memory target source j low
        ∙ ap (λ (t : ℕ). t % 256)
            (sym (
              store_bytes-outside kept_memory target (load_bytes length kept_memory source)
                (source + j) (ground (arith, length-load_bytes length kept_memory source, apart)))))

    abbrev recorded_mapping : List Segment → UserMapping
    recorded_mapping kept = record (f.mapping) {
      segments = record { target = target; source = source; length = length } ∷ kept;
    }

    filled_matches :
        (kept : List Segment)
        → user_mapping_matches
            (set found.1.user i (recorded_mapping kept))
            target
            source
            length
            protection
            writable
          ≡ true
    unfolding has_segment
    filled_matches kept =
        let in_word =
          (All-get (IsMapping page_shift) found.1.user i found-IsValid.mappings f.at).in_word in
        user_mapping_matches-set found.1.user i (recorded_mapping kept) target source length
          protection writable f.at
          (rw f.same_writable (
            ground
              (arith, same_flag_self writable, good, in_word, f.above, f.below, f.same_protection)))
          (ground arith)

    fill_mapping-IsMapped : filled.0 ≡ true → executable ≡ false → IsMapped filled.1
    unfolding fill_mapping
    fill_mapping-IsMapped =
        elim (Bool-cases (mach.vm_protect f.mapping.target f.mapping.length 3 found.1.world).0) [
          | inr shut ↦ rw (fill_mapping, shut) (λ e plain. absurd (ground (arith, e)))
          | inl opened ↦
              elim (Bool-cases
                (mach.malloc
                  (mach.vm_protect f.mapping.target f.mapping.length 3 found.1.world).1).0) [
                    | inr bad ↦
                        rw (fill_mapping, opened, bad) (λ e plain. absurd (ground (arith, e)))
                    | inl got ↦
                        rw (fill_mapping, opened, got)
                          (λ e plain.
                            rw plain (record { bytes = copied_bytes; recorded = filled_matches _ }))
                  ]
        ]

  pub map_shadow-IsMapped : result.0 ≡ true → executable ≡ false → IsMapped result.1
  map_shadow-IsMapped done plain =
      map_shadow-cases (λ r. r.0 ≡ true → IsMapped r.1) (λ e. absurd (ground (arith, e)))
        (λ good e. absurd (ground (arith, e)))
        (λ good i f e. fill_mapping-IsMapped i f (ground (arith, good)) e plain) done

-- The protection of a page tells whether it is writable.
pub protection-writable :
    (writable executable : Bool)
    → not (bit_and (protection_of writable executable) prot_write == 0) ≡ writable
protection-writable true true = refl
protection-writable true false = refl
protection-writable false true = refl
protection-writable false false = refl

module _ {W : Type 0} (mach : Mach W) (page_shift : ℕ) (word : 2 ^ 64 % 2 ^ page_shift ≡ 0)
    (null : KeepsNull mach) (target source length : ℕ) (writable : Bool) (s : Space W)
    (v : IsValid page_shift s.user) where
  -- With a page size that divides the address space, a Mach that never gives out the page at 0 and a
  -- list of mappings that is in order, a page that is refreshed, is not executable and does not overlap its source holds the bytes of
  -- the source afterwards, if the call succeeds; and the mappings record it.
  pub user_refresh_page-IsMapped :
      (user_refresh_page mach page_shift target source length writable false s).0 ≡ true
      → Apart target length source length
      → let t = (user_refresh_page mach page_shift target source length writable false s).1 in
        ((j : ℕ) → j < length → t.mem (target + j) ≡ t.mem (source + j) % 256)
        × (user_mapping_matches t.user target source length (protection_of writable false) writable
            ≡ true)
  unfolding user_refresh_page
  user_refresh_page-IsMapped done apart =
      let mapped =
        map_shadow-IsMapped mach page_shift word null target source length
          (protection_of writable false) false true false s v done refl in
      (
        mapped.bytes apart,
        ap (user_mapping_matches _ target source length (protection_of writable false))
              (sym (protection-writable writable false))
            ∙ mapped.recorded,
      )

  -- Under the same conditions on the page size, Mach and the list, after a call that maps a page that
  -- is not executable has succeeded, mapping it again succeeds and changes
  -- nothing.
  pub user_map_page_twice :
      (user_map_page mach page_shift target source length writable false s).0 ≡ true
      → let t = (user_map_page mach page_shift target source length writable false s).1 in
        user_map_page mach page_shift target source length writable false t ≡ (true, t)
  unfolding user_map_page
  user_map_page_twice =
      elim (Bool-cases (
        user_mapping_matches s.user target source length (protection_of writable false) writable)) [
          | inl old ↦ rw (user_map_page, old) (λ done. rw old refl)
          | inr new ↦
              rw (user_map_page, new)
                (λ done.
                  let mapped =
                    map_shadow-IsMapped mach page_shift word null target source length
                      (protection_of writable false) false true true s v done refl in
                  rw
                    (ap (user_mapping_matches _ target source length (protection_of writable false))
                        (sym (protection-writable writable false))
                      ∙ mapped.recorded)
                    refl)
        ]
