-- ===== src/HostMemory/User/Calls.antt =====
-- Every call on user mappings, in any order, keeps the list of mappings in order.
use orlix_system.Prelude.{
  ℕ, ◌%◌, ◌^◌, ◌≡◌, Bool, true, false, List, [], ◌∷◌, All, Pairwise, if_both,
}
use orlix_system.HostMemory.Space.{Mach, Space}
use orlix_system.HostMemory.Invariant.{IsValid}
use orlix_system.HostMemory.User.{
  user_map_page, user_map_trusted_executable_page, user_refresh_page, user_unmap_pages,
  user_unmap_mapped_range, user_sync_writable_mappings, protection_of,
}
use orlix_system.HostMemory.User.Window.{PageSegment, user_refresh_window}
use orlix_system.HostMemory.User.Unmap.{unmap_range-IsValid, unmap_pages-user}
use orlix_system.HostMemory.User.Valid.{KeepsNull}
use orlix_system.HostMemory.User.Page.{map_shadow-IsValid}
use orlix_system.HostMemory.User.Refresh.{ApartPages, user_refresh_window-IsValid}

-- The calls that the kernel makes on user mappings.
pub data Call : Type 0 where
  map_page : ℕ → ℕ → ℕ → Bool → Bool → Call
  map_trusted_executable_page : ℕ → ℕ → ℕ → Call
  refresh_page : ℕ → ℕ → ℕ → Bool → Bool → Call
  refresh_window : ℕ → ℕ → List PageSegment → Call
  unmap_pages : ℕ → ℕ → Call
  sync_writable_mappings : Call

-- The pages of a window that is refreshed share no address.
abbrev pub IsProper : Call → Type 0
IsProper (Call.refresh_window target length pages) = Pairwise ApartPages pages
IsProper _ = Unit

module _ {W : Type 0} (mach : Mach W) (page_shift : ℕ) where
  abbrev pub perform : Call → Space W → Space W
  perform (Call.map_page t f n w x) s = (user_map_page mach page_shift t f n w x s).1
  perform (Call.map_trusted_executable_page t f n) s =
      (user_map_trusted_executable_page mach page_shift t f n s).1
  perform (Call.refresh_page t f n w x) s = (user_refresh_page mach page_shift t f n w x s).1
  perform (Call.refresh_window t n pages) s = (user_refresh_window mach page_shift t n pages s).1
  perform (Call.unmap_pages t n) s = user_unmap_pages mach page_shift t n s
  perform Call.sync_writable_mappings s = user_sync_writable_mappings s

  abbrev pub run : List Call → Space W → Space W
  run [] s = s
  run (c ∷ rest) s = run rest (perform c s)

  module _ (word : 2 ^ 64 % 2 ^ page_shift ≡ 0) (null : KeepsNull mach) where
    perform-IsValid :
        (c : Call) (s : Space W)
        → IsProper c
        → IsValid page_shift s.user
        → IsValid page_shift (perform c s).user
    unfolding user_map_page user_map_trusted_executable_page user_refresh_page user_unmap_pages
        user_sync_writable_mappings
    perform-IsValid (Call.map_page t f n w x) s p v =
        if_both (λ (r : Bool × Space W). IsValid page_shift r.1.user) _ (true, s) _ v
          (map_shadow-IsValid mach page_shift word null t f n (protection_of w x) x true true s v)
    perform-IsValid (Call.map_trusted_executable_page t f n) s p v =
        map_shadow-IsValid mach page_shift word null t f n 5 true false true s v
    perform-IsValid (Call.refresh_page t f n w x) s p v =
        map_shadow-IsValid mach page_shift word null t f n (protection_of w x) x true false s v
    perform-IsValid (Call.refresh_window t n pages) s p v =
        user_refresh_window-IsValid mach page_shift word null t n pages p s v
    perform-IsValid (Call.unmap_pages t n) s p v =
        rw (unmap_pages-user mach page_shift t n (user_unmap_mapped_range mach page_shift t n s))
          (unmap_range-IsValid mach page_shift t n s v)
    perform-IsValid Call.sync_writable_mappings s p v = v

    -- From a list of mappings that is in order, any sequence of calls, failing ones included, leaves
    -- one that is in order: whole pages that share no address, with segments inside them that share
    -- none. The page size divides the address space, Mach never gives out the page at 0, and the
    -- pages of a refreshed window share no address.
    pub run-IsValid :
        (calls : List Call) (s : Space W)
        → All IsProper calls
        → IsValid page_shift s.user
        → IsValid page_shift (run calls s).user
    run-IsValid [] s p v = v
    run-IsValid (c ∷ rest) s p v = run-IsValid rest (perform c s) p.1 (perform-IsValid c s p.0 v)
