-- ===== src/HostMemory/User/Window.antt =====
-- `orlix_host_user_refresh_window`: several pages copied into one mapping.
use orlix_system.Prelude.{
  ℕ, ◌+◌, ◌-◌, Bool, true, false, not, ◌&&◌, ◌||◌, Option, none, some, List, [], ◌∷◌, ltb, ◌==◌,
  if◌then◌else◌, get_elem?, set,
}
use orlix_system.Memory.{Memory}
use orlix_system.HostMemory.Space.{
  Segment, UserMapping, Mach, Space, prot_read, prot_write, address_max,
}
use orlix_system.HostMemory.Copy.{memcpy, remove_segments_in_range, translate_linux_syscalls}
use orlix_system.HostMemory.User.{place, protection_of, find_or_create, user_unmap_mapped_range}

-- `struct orlix_host_user_page_segment`
pub record PageSegment : Type 0 where
  pub target : ℕ
  pub source : ℕ
  pub length : ℕ
  pub writable : Bool
  pub executable : Bool

-- The loop that checks the pages of the window: whether one is writable, and one executable.
unfoldable pub check_pages : ℕ → ℕ → List PageSegment → Option (Bool × Bool)
check_pages start end [] = some (false, false)
check_pages start end (p ∷ rest) =
    let others : Option (Bool × Bool) = elim (check_pages start end rest) [
      | none ↦ none
      | some (writable, executable) ↦ some (p.writable || writable, p.executable || executable)
    ] in
    if p.source == 0
      || p.length == 0
      || ltb p.target start
      || ltb (address_max - p.length) p.target
      || ltb end (p.target + p.length)
    then none
    else others

-- The first part of the function: the arguments, and the flags of the window.
unfoldable pub check_window : ℕ → ℕ → List PageSegment → Option (Bool × Bool)
check_window target length [] = none
check_window target length (p ∷ rest) =
    if target == 0 || length == 0 || ltb (address_max - length) target
    then none
    else check_pages target (target + length) (p ∷ rest)

abbrev pub segment_of : PageSegment → Segment
segment_of p = record { target = p.target; source = p.source; length = p.length }

abbrev pub copy_page : UserMapping → PageSegment → Memory → Memory
copy_page m p mem =
    let copied = memcpy (place m p.target) p.source p.length mem in
    if p.executable then translate_linux_syscalls (place m p.target) p.length copied else copied

module _ {W : Type 0} (mach : Mach W) (page_shift : ℕ) where
  -- The loop that copies, on the mapping `m`: false where `malloc` fails. The segments are those of
  -- the mapping so far.
  unfoldable pub copy_pages :
      UserMapping → List PageSegment → List Segment → Memory → W → Bool × List Segment × Memory × W
  copy_pages m [] segments mem w = (true, segments, mem, w)
  copy_pages m (p ∷ rest) segments mem w =
      let mem' = copy_page m p mem in
      let (got, w') = mach.malloc w in
      let others = copy_pages m rest (segment_of p ∷ segments) mem' w' in
      if got then others else (false, segments, mem', w')

  -- From the first `vm_protect` on, with the mapping `m` of index `i`.
  unfoldable pub refresh_mapping :
      ℕ → UserMapping → ℕ → ℕ → ℕ → List PageSegment → Space W → Bool × Space W
  refresh_mapping i m target length protection pages s =
      let (opened, w) = mach.vm_protect m.target m.length (prot_read + prot_write) s.world in
      let (kept, mem) =
        remove_segments_in_range (λ seg. m.writable && not (seg.source == 0)) target length
          m.segments s.mem in
      let (copied, segments, mem', w') = copy_pages m pages kept mem w in
      let (closed, w'') = mach.vm_protect m.target m.length protection w' in
      let filled = set s.user i (record m { segments = segments }) in
      if not opened
      then (false, record s { world = w })
      else if not copied
      then (
        false,
        user_unmap_mapped_range mach page_shift m.target m.length
            (record s { user = filled; mem = mem'; world = w' }),
      )
      else if not closed
      then (
        false,
        user_unmap_mapped_range mach page_shift m.target m.length
            (record s { user = filled; mem = mem'; world = w'' }),
      )
      else (true, record s { user = filled; mem = mem'; world = w'' })

  unfoldable pub user_refresh_window : ℕ → ℕ → List PageSegment → Space W → Bool × Space W
  user_refresh_window target length pages s = elim (check_window target length pages) [
    | none ↦ (false, s)
    | some (writable, executable) ↦
        let protection = protection_of writable executable in
        let (found, s') = find_or_create mach page_shift target length protection writable s in
        elim found [
          | none ↦ (false, s')
          | some i ↦ elim (get_elem? s'.user i) [
            | none ↦ (false, s')
            | some m ↦ refresh_mapping i m target length protection pages s'
          ]
        ]
  ]
