-- ===== src/HostMemory/Kernel/Shadow.antt =====
-- A kernel page that cannot be shared with its source is a copy of it.
use orlix_system.Prelude.{
  ℕ, zero, suc, ◌+◌, ◌-◌, ◌%◌, ◌^◌, ◌≤◌, ◌<◌, ◌≡◌, refl, ap, ◌∙◌, sym, true, ◌||◌, ◌&&◌, some, List,
  [], ◌∷◌, arith, Bool-cases, Option-cases, inl, inr, ◌==◌, u64, ltb, leb, some_eq, get_elem?,
}
use orlix_system.Memory.{Memory, load_bytes}
use orlix_system.Memory.Frame.{store_bytes-outside, length-load_bytes, copied_byte}
use orlix_system.HostMemory.Space.{KernelMapping, Mach, Space, address_max, page_start, page_end}
use orlix_system.HostMemory.Pages.{page_range}
use orlix_system.HostMemory.Invariant.{Apart}
use orlix_system.HostMemory.Copy.{remove_segments_in_range}
use orlix_system.HostMemory.Kernel.{
  kernel_find_from, kernel_find_shadow_mapping, kernel_find_or_create, kernel_create_shadow_mapping,
  fill_shadow, map_shadow_kernel_page, kernel_requires_shadow_mapping, kernel_map_page,
  allocate_shadow, no_range,
}

-- The bytes of the source.
abbrev pub IsCopy : Memory → ℕ → ℕ → ℕ → Type 0
IsCopy m target source length =
    Apart target length source length → (j : ℕ) → j < length → m (target + j) ≡ m (source + j) % 256

kernel_find_from-above :
    (kernel : List KernelMapping) (target length i : ℕ)
    → kernel_find_from kernel target length ≡ some i
    → (m : KernelMapping) × (get_elem? kernel i ≡ some m) × (m.target ≤ target)
unfolding kernel_find_from
kernel_find_from-above [] target length i e = cc
kernel_find_from-above (m ∷ rest) target length zero e =
    elim (Bool-cases
      (leb m.target target && leb (u64 (target + length)) (u64 (m.target + m.length)))) [
        | inl good ↦ (m, refl, ground (arith, good))
        | inr bad ↦ absurd (ground (arith, bad, e))
      ]
kernel_find_from-above (m ∷ rest) target length (suc i) e =
    kernel_find_from-above rest target length i (ground (arith, e))

module _ {W : Type 0} (mach : Mach W) (page_shift target source length : ℕ) where
  fill_shadow-IsCopy :
      (i : ℕ) (m : KernelMapping) (s : Space W)
      → m.target ≤ target
      → target < 2 ^ 64
      → IsCopy (fill_shadow mach page_shift i m target source length s).1.mem target source length
  unfolding fill_shadow
  fill_shadow-IsCopy i m s above in_word apart j low =
      let kept = (remove_segments_in_range (λ seg. true) target length m.segments s.mem).1 in
      let place : u64 (m.target + u64 (target + 2 ^ 64 - m.target)) ≡ target = omega arith in
      rw place (
        copied_byte length kept kept target source j low
        ∙ ap (λ (t : ℕ). t % 256)
            (sym (
              store_bytes-outside kept target (load_bytes length kept source) (source + j)
                (ground (arith, length-load_bytes length kept source, apart)))))

  allocate-above :
      (start end : ℕ) (s : Space W)
      → start ≤ target
      → (allocate_shadow mach page_shift start end s).0 ≡ true
      → (m : KernelMapping) × (get_elem? (allocate_shadow mach page_shift start end s).1.kernel 0
          ≡ some m)
        × (m.target ≤ target)
  unfolding allocate_shadow
  allocate-above start end s h done =
      (record { target = start; length = end - start; segments = [] }, ground (arith, done), h)

  -- A created mapping is the first, and starts at or below the target.
  create-above :
      (s : Space W)
      → (kernel_create_shadow_mapping mach page_shift target length s).0 ≡ true
      → (m : KernelMapping) × (get_elem?
            (kernel_create_shadow_mapping mach page_shift target length s).1.kernel
            0
          ≡ some m)
        × (m.target ≤ target)
  unfolding kernel_create_shadow_mapping
  create-above s = elim (Bool-cases (no_range mach page_shift target length)) [
    | inl bad ↦ rw (kernel_create_shadow_mapping, bad) (λ e. absurd (ground (arith, e)))
    | inr good ↦
        rw (kernel_create_shadow_mapping, good)
          (allocate-above (page_start page_shift target) (page_end page_shift target length) _
            (page_range page_shift target length (ground (arith, good))).0)
  ]

  find-above :
      (kernel : List KernelMapping) (i : ℕ)
      → kernel_find_shadow_mapping mach page_shift kernel target length ≡ some i
      → (m : KernelMapping) × (get_elem? kernel i ≡ some m) × (m.target ≤ target)
  unfolding kernel_find_shadow_mapping
  find-above kernel i e = kernel_find_from-above kernel target length i (ground (arith, e))

  find_or_create-above :
      (s : Space W) (i : ℕ)
      → (kernel_find_or_create mach page_shift target length s).0 ≡ some i
      → (m : KernelMapping) × (get_elem?
            (kernel_find_or_create mach page_shift target length s).1.kernel
            i
          ≡ some m)
        × (m.target ≤ target)
  unfolding kernel_find_or_create
  find_or_create-above s i =
      elim (Option-cases (kernel_find_shadow_mapping mach page_shift s.kernel target length)) [
        | inr (k, e) ↦ rw (kernel_find_or_create, e) (λ e'. find-above s.kernel i (e ∙ e'))
        | inl e ↦
            elim (Bool-cases (kernel_create_shadow_mapping mach page_shift target length s).0) [
              | inr bad ↦ rw (kernel_find_or_create, e, bad) (λ e'. absurd (ground (arith, e')))
              | inl made ↦
                  rw (kernel_find_or_create, e, made)
                    (λ e'. rw (← (some_eq 0 i e')) (create-above s made))
            ]
      ]

  -- A page that is copied holds the bytes of its source, if the call succeeds and the two do not
  -- overlap.
  map_shadow-IsCopy :
      (s : Space W)
      → (map_shadow_kernel_page mach page_shift target source length s).0 ≡ true
      → IsCopy
          (map_shadow_kernel_page mach page_shift target source length s).1.mem
          target
          source
          length
  unfolding map_shadow_kernel_page
  map_shadow-IsCopy s =
      elim (Bool-cases
        (target == 0 || source == 0 || length == 0 || ltb (address_max - length) target)) [
          | inl bad ↦ rw (map_shadow_kernel_page, bad) (λ e. absurd (ground (arith, e)))
          | inr good ↦
              elim (Option-cases (kernel_find_or_create mach page_shift target length s).0) [
                | inl e ↦ rw (map_shadow_kernel_page, good, e) (λ e'. absurd (ground (arith, e')))
                | inr (i, e) ↦
                    let (m, at, above) = find_or_create-above s i e in
                    rw (map_shadow_kernel_page, good, e, at)
                      (λ done. fill_shadow-IsCopy i m _ above (ground (arith, good)))
              ]
        ]

  -- A kernel page that does not fit a host page is a copy of its source: it holds the bytes of the
  -- source if the call succeeds and the two do not overlap.
  pub kernel_map_page-IsCopy :
      (s : Space W)
      → kernel_requires_shadow_mapping mach page_shift target source length ≡ true
      → (kernel_map_page mach page_shift target source length s).0 ≡ true
      → Apart target length source length
      → (j : ℕ) → j < length
      → (kernel_map_page mach page_shift target source length s).1.mem (target + j)
        ≡ (kernel_map_page mach page_shift target source length s).1.mem (source + j) % 256
  unfolding kernel_map_page
  kernel_map_page-IsCopy s shadow = rw (kernel_map_page, shadow) (map_shadow-IsCopy s)
