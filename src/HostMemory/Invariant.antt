-- ===== src/HostMemory/Invariant.antt =====
-- When the mappings of user pages are in order.
use orlix_system.Prelude.{
  ℕ, ◌+◌, ◌%◌, ◌^◌, ◌≤◌, ◌<◌, ◌≡◌, ◌⊎◌, not, List, All, Pairwise, bit_and, ◌==◌,
}
use orlix_system.HostMemory.Space.{Segment, UserMapping, address_max, prot_write}

-- Two ranges of addresses share none.
abbrev pub Apart : ℕ → ℕ → ℕ → ℕ → Type 0
Apart a n b m = (a + n ≤ b) ⊎ (b + m ≤ a)

abbrev pub ApartSegments : Segment → Segment → Type 0
ApartSegments s t = Apart s.target s.length t.target t.length

abbrev pub ApartMappings : UserMapping → UserMapping → Type 0
ApartMappings m n = Apart m.target m.length n.target n.length

pub record IsInside (target length : ℕ) (s : Segment) : Type 0 where
  pub above : target ≤ s.target
  pub below : s.target + s.length ≤ target + length
  pub some_bytes : 0 < s.length

-- A mapping is a range of whole pages whose segments lie inside it and share no address; it is
-- writable as its protection says.
pub record IsMapping (page_shift : ℕ) (m : UserMapping) : Type 0 where
  pub start_whole : m.target % 2 ^ page_shift ≡ 0
  pub end_whole : (m.target + m.length) % 2 ^ page_shift ≡ 0
  pub some_pages : 0 < m.length
  pub in_word : m.target + m.length ≤ address_max
  pub flag : m.writable ≡ not (bit_and m.protection prot_write == 0)
  pub inside : All (IsInside m.target m.length) m.segments
  pub segments_apart : Pairwise ApartSegments m.segments

pub record IsValid (page_shift : ℕ) (user : List UserMapping) : Type 0 where
  pub mappings : All (IsMapping page_shift) user
  pub mappings_apart : Pairwise ApartMappings user
