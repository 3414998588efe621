-- ===== src/PageSync/Segments.antt =====
-- The segments that the loop over a window of the host collects: each is a page, no two share an
-- address, and there is room for them.
use orlix_system.Prelude.{
  ℕ, zero, suc, ◌+◌, ◌^◌, ◌≤◌, ◌≡◌, refl, Option, none, some, List, if◌then◌else◌, arith,
  Bool-cases, inl, inr, ◌==◌, leb, length, All, All-map, Pairwise, if_both,
}
use orlix_system.HostMemory.User.Window.{PageSegment}
use orlix_system.HostMemory.User.Refresh.{ApartPages}
use orlix_system.PageSync.Linux.{Result, efault, task_size, Linux, State, Walk, no_page, user_walk}
use orlix_system.PageSync.User.{
  add_segment, fault_in_user_page, user_present_pte_window, walked_page, faulted_page, sync_one,
  collect,
}

module _ (page_shift : ℕ) where
  abbrev pub OfPage : ℕ → Walk → Type 0
  OfPage page (Walk.found w) = (w.target ≡ page) × (w.length ≡ 2 ^ page_shift)
  OfPage page (Walk.failed e) = Unit {0}

  -- A page of the segments from `cursor` on.
  abbrev pub PageFrom : ℕ → PageSegment → Type 0
  PageFrom cursor p = (cursor ≤ p.target) × (p.length ≡ 2 ^ page_shift)

  abbrev SegmentOf : ℕ → Option PageSegment → Type 0
  SegmentOf cursor none = Unit {0}
  SegmentOf cursor (some p) = (p.target ≡ cursor) × (p.length ≡ 2 ^ page_shift)

  add-ApartPages :
      (cursor : ℕ) (o : Option PageSegment) (segments : List PageSegment)
      → SegmentOf cursor o
      → All (PageFrom (cursor + 2 ^ page_shift)) segments
      → Pairwise ApartPages segments
      → All (PageFrom cursor) (add_segment o segments)
        × Pairwise ApartPages (add_segment o segments)
  add-ApartPages cursor none segments h later apart =
      (All-map (λ p q. (omega (arith, q.0), q.1)) segments later, apart)
  add-ApartPages cursor (some p) segments h later apart = (
    ((omega (arith, h.0), h.1), All-map (λ q k. (omega (arith, k.0), k.1)) segments later),
    (All-map (λ q k. inl (omega (arith, h.0, h.1, k.0))) segments later, apart),
  )

  length-add :
      (o : Option PageSegment) (segments : List PageSegment)
      → length (add_segment o segments) ≤ length segments + 1
  length-add none segments = omega arith
  length-add (some p) segments = omega arith

  module _ {W : Type 0} (linux : Linux W) (fuel : ℕ) where
    user_walk-OfPage : (page : ℕ) (w : W) → OfPage page (user_walk page_shift linux page w)
    unfolding user_walk
    user_walk-OfPage page w = elim (Bool-cases (no_page page_shift linux page w)) [
      | inl missing ↦ rw (user_walk, missing) tt
      | inr there ↦ rw (user_walk, there) (refl, refl)
    ]

    present-OfPage :
        (page : ℕ) (st : State W)
        → OfPage page (user_present_pte_window linux page_shift fuel page st)
    unfolding user_present_pte_window
    present-OfPage page st =
        if_both (OfPage page) (leb task_size page) (Walk.failed (Result.err efault))
          (user_walk page_shift linux page st.space.world) tt (user_walk-OfPage page st.space.world)

    walked-SegmentOf :
        (cursor : ℕ) (st : State W) (walk : Walk)
        → OfPage cursor walk
        → SegmentOf cursor (walked_page linux page_shift fuel cursor st walk).1
    walked-SegmentOf cursor st (Walk.failed e) h = tt
    walked-SegmentOf cursor st (Walk.found w) h = h

    faulted-SegmentOf :
        (cursor : ℕ) (r : Result × State W)
        → SegmentOf cursor (faulted_page linux page_shift fuel cursor r).1
    faulted-SegmentOf cursor (Result.ok, st) =
        walked-SegmentOf cursor st (user_present_pte_window linux page_shift fuel cursor st)
          (present-OfPage cursor st)
    faulted-SegmentOf cursor (Result.err e, st) = tt
    faulted-SegmentOf cursor (Result.stuck, st) = tt

    sync_one-SegmentOf :
        (cursor : ℕ) (st : State W) → SegmentOf cursor (sync_one linux page_shift fuel cursor st).1
    unfolding sync_one
    sync_one-SegmentOf cursor st =
        faulted-SegmentOf cursor (fault_in_user_page linux page_shift fuel cursor st)

    -- The segments that are collected from `cursor` on are pages from there on that share no address,
    -- and no more than there are rounds.
    pub collect-ApartPages :
        (n cursor page : ℕ) (page_ret : Result) (st : State W)
        → let segments = (collect linux page_shift fuel n cursor page page_ret st).segments in
          All (PageFrom cursor) segments × Pairwise ApartPages segments × (length segments ≤ n)
    unfolding collect
    collect-ApartPages zero cursor page page_ret st = (tt, tt, omega arith)
    collect-ApartPages (suc n) cursor page page_ret st =
        let one = sync_one linux page_shift fuel cursor st in
        let rest =
          collect linux page_shift fuel n (cursor + 2 ^ page_shift) page
            (if cursor == page then one.0 else page_ret) one.2 in
        let (later, apart, few) =
          collect-ApartPages n (cursor + 2 ^ page_shift) page
            (if cursor == page then one.0 else page_ret) one.2 in
        let (from, all_apart) =
          add-ApartPages cursor one.1 rest.segments (sync_one-SegmentOf cursor st) later apart in
        (from, all_apart, omega (arith, few, length-add one.1 rest.segments))
