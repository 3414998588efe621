-- ===== src/HostMemory/User/Sync.antt =====
-- `orlix_host_user_sync_writable_mappings`: every writable page is written back.
use orlix_system.Prelude.{
  ℕ, ◌≡◌, refl, ◌∙◌, sym, List, [], ◌∷◌, ◌++◌, All, Pairwise, if◌then◌else◌, Bool-cases, inl, inr,
}
use orlix_system.Memory.{Memory}
use orlix_system.HostMemory.Space.{Segment, UserMapping, Space}
use orlix_system.HostMemory.Copy.{copy_back}
use orlix_system.HostMemory.Copy.Back.{
  ClearSources, IsWritten, Outside, copy_back-append, copy_back-IsWritten, copy_back-Outside,
}
use orlix_system.HostMemory.User.{user_copy_back, sync_loop, user_sync_writable_mappings}

-- The segments of the writable mappings.
abbrev pub writable_segments : List UserMapping → List Segment
writable_segments [] = []
writable_segments (m ∷ rest) = (if m.writable then m.segments else []) ++ writable_segments rest

sync_loop-eq :
    (user : List UserMapping) (mem : Memory)
    → sync_loop user mem ≡ copy_back (writable_segments user) mem
unfolding sync_loop user_copy_back copy_back
sync_loop-eq [] mem = refl
sync_loop-eq (m ∷ rest) mem = elim (Bool-cases m.writable) [
  | inl w ↦
      rw (sync_loop, user_copy_back, writable_segments, w)
        (sync_loop-eq rest (copy_back m.segments mem)
          ∙ sym (copy_back-append m.segments (writable_segments rest) mem))
  | inr w ↦ rw (sync_loop, user_copy_back, writable_segments, w) (sync_loop-eq rest mem)
]

-- Where no source of a writable page overlaps another one or the copy of another page, every
-- source holds the bytes of its copy afterwards, and memory is the same outside the sources.
pub sync-IsWritten :
    {W : Type 0} (s : Space W)
    → Pairwise ClearSources (writable_segments s.user)
    → All (IsWritten s.mem (user_sync_writable_mappings s).mem) (writable_segments s.user)
      × ((a : ℕ)
          → All (Outside a) (writable_segments s.user)
          → (user_sync_writable_mappings s).mem a ≡ s.mem a)
unfolding user_sync_writable_mappings
sync-IsWritten s h = rw (sync_loop-eq s.user s.mem) (
  copy_back-IsWritten (writable_segments s.user) s.mem h,
  λ a o. copy_back-Outside (writable_segments s.user) s.mem a o,
)
