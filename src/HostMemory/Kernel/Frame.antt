-- ===== src/HostMemory/Kernel/Frame.antt =====
-- The functions on kernel mappings leave the list of user mappings.
use orlix_system.Prelude.{ℕ, ◌≡◌, refl, ◌∙◌, arith, Option-cases, Bool-cases, inl, inr}
use orlix_system.HostMemory.Space.{Mach, Space, unmap_pages}
use orlix_system.HostMemory.Kernel.{
  kernel_unmap_shadow_range, allocate_shadow, kernel_create_shadow_mapping, fill_shadow,
  kernel_find_or_create, map_shadow_kernel_page, map_page_with_protection, kernel_map_page,
  kernel_unmap_pages, no_range, kernel_find_shadow_mapping,
}

module _ {W : Type 0} (mach : Mach W) (page_shift : ℕ) where
  unmap_pages-user :
      (target length : ℕ) (s : Space W)
      → (unmap_pages page_shift mach target length s).user ≡ s.user
  unfolding unmap_pages
  unmap_pages-user target length s = ground arith

  unmap_range-user :
      (target length : ℕ) (s : Space W)
      → (kernel_unmap_shadow_range mach page_shift target length s).user ≡ s.user
  unfolding kernel_unmap_shadow_range
  unmap_range-user target length s = ground arith

  allocate-user :
      (start end : ℕ) (s : Space W) → (allocate_shadow mach page_shift start end s).1.user ≡ s.user
  unfolding allocate_shadow
  allocate-user start end s = ground arith

  create-user :
      (target length : ℕ) (s : Space W)
      → (kernel_create_shadow_mapping mach page_shift target length s).1.user ≡ s.user
  unfolding kernel_create_shadow_mapping
  create-user target length s = elim (Bool-cases (no_range mach page_shift target length)) [
    | inl bad ↦ rw (kernel_create_shadow_mapping, bad) refl
    | inr good ↦
        rw (kernel_create_shadow_mapping, good)
          (allocate-user _ _ _ ∙ unmap_pages-user _ _ _ ∙ unmap_range-user _ _ s)
  ]

  find_or_create-user :
      (target length : ℕ) (s : Space W)
      → (kernel_find_or_create mach page_shift target length s).1.user ≡ s.user
  unfolding kernel_find_or_create
  find_or_create-user target length s =
      elim (Option-cases (kernel_find_shadow_mapping mach page_shift s.kernel target length)) [
        | inr (i, e) ↦ rw (kernel_find_or_create, e) refl
        | inl e ↦ rw (kernel_find_or_create, e) (create-user target length s)
      ]

  map_shadow-user :
      (target source length : ℕ) (s : Space W)
      → (map_shadow_kernel_page mach page_shift target source length s).1.user ≡ s.user
  unfolding map_shadow_kernel_page fill_shadow
  map_shadow-user target source length s = ground (arith, find_or_create-user target length s)

  direct-user :
      (target source length : ℕ) (s : Space W)
      → (map_page_with_protection mach page_shift target source length s).1.user ≡ s.user
  unfolding map_page_with_protection
  direct-user target source length s = ground arith

  pub kernel_map_page-user :
      (target source length : ℕ) (s : Space W)
      → (kernel_map_page mach page_shift target source length s).1.user ≡ s.user
  unfolding kernel_map_page
  kernel_map_page-user target source length s = ground (
    arith,
    map_shadow-user target source length s,
    direct-user target source length s,
    map_shadow-user target source length
        (map_page_with_protection mach page_shift target source length s).1,
  )

  pub kernel_unmap_pages-user :
      (target length : ℕ) (s : Space W)
      → (kernel_unmap_pages mach page_shift target length s).user ≡ s.user
  unfolding kernel_unmap_pages
  kernel_unmap_pages-user target length s =
      unmap_pages-user target length _ ∙ unmap_range-user target length s
