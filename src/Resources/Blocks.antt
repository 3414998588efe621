-- ===== src/Resources/Blocks.antt =====
-- The selected block devices: `orlix_host_block_capacity`, `orlix_host_block_read`,
-- `orlix_host_block_write` and `orlix_host_block_flush`. The switch of the thread's TLS pointer
-- around the calls of the C library is left out.
pub mod Transfer
use orlix_system.Prelude.{
  ℕ, ◌+◌, ◌-◌, ◌*◌, ◌/◌, ◌^◌, Bool, true, false, not, ◌&&◌, ◌||◌, Option, none, some, List, [], ◌∷◌,
  ◌++◌, ltb, leb, ◌==◌, if◌then◌else◌, u64, replicate, length, get_elem?,
}
use orlix_system.Resources.Files.{FilePath, Mode, Files}

-- ORLIX_HOST_BLOCK_SECTOR_SIZE and ORLIX_HOST_MAX_BLOCK_DEVICES
abbrev pub block_sector_size : ℕ
block_sector_size = 512

abbrev pub max_block_devices : ℕ
max_block_devices = 8

-- A device: an element of OrlixHostSelectedBlockPaths, OrlixHostSelectedBlockBytes and
-- OrlixHostSelectedBlockWritable, which have `max_block_devices` elements.
pub record Block : Type 0 where
  pub path : FilePath
  pub bytes : ℕ
  pub writable : Bool

abbrev pub is_empty : FilePath → Bool
is_empty [] = true
is_empty (c ∷ rest) = false

-- The device, if `OrlixHostBlockDeviceIsSelected`.
unfoldable pub selected : List Block → ℕ → Option Block
selected blocks device = elim (get_elem? blocks device) [
  | none ↦ none
  | some b ↦
      if ltb device max_block_devices && not (is_empty b.path) && not (b.bytes == 0)
      then some b
      else none
]

-- The capacity in sectors. The sum wraps.
abbrev pub sectors_of : Block → ℕ
sectors_of b = u64 (b.bytes + block_sector_size - 1) / block_sector_size

unfoldable pub block_capacity : List Block → ℕ → Option ℕ
block_capacity blocks device = elim (selected blocks device) [
  | none ↦ none
  | some b ↦ if sectors_of b == 0 then none else some (sectors_of b)
]

-- The tests of a transfer of `n` bytes from a sector on.
unfoldable pub outside : Block → ℕ → ℕ → Bool
outside b sector n =
    let offset = sector * block_sector_size in
    let capacity_bytes = u64 (sectors_of b * block_sector_size) in
    n == 0
    || ltb ((2 ^ 64 - 1) / block_sector_size) sector
    || ltb capacity_bytes offset
    || ltb (capacity_bytes - offset) n
    || ltb (2 ^ 63 - 1) offset

-- A buffer of `n` zeros with bytes at its start.
abbrev pub filled_buffer : ℕ → List ℕ → List ℕ
filled_buffer n bytes = bytes ++ replicate (n - length bytes) 0

-- `file_read_length`
abbrev pub read_length : Block → ℕ → ℕ → ℕ
read_length b offset n = if ltb (b.bytes - offset) n then b.bytes - offset else n

module _ {F W : Type 0} (files : Files F W) where
  -- From `fseeko` on.
  unfoldable pub read_stream : F → ℕ → ℕ → ℕ → W → Bool × List ℕ × W
  read_stream f offset m n w =
      let (sought, w') = files.fseeko f offset w in
      let (bytes, w'') = files.fread f m w' in
      if not sought
      then (false, replicate n 0, (files.fclose f w').1)
      else (length bytes == m, filled_buffer n bytes, (files.fclose f w'').1)

  -- From `fopen` on.
  unfoldable pub read_file : Block → ℕ → ℕ → W → Bool × List ℕ × W
  read_file b offset n w =
      let (file, w') = files.fopen b.path Mode.rb w in
      elim file [
        | none ↦ (false, replicate n 0, w')
        | some f ↦ read_stream f offset (read_length b offset n) n w'
      ]

  -- Whether it succeeds, and the bytes that it puts at the start of the buffer.
  unfoldable pub block_read : List Block → W → ℕ → ℕ → ℕ → Bool × List ℕ × W
  block_read blocks w device sector n = elim (selected blocks device) [
    | none ↦ (false, [], w)
    | some b ↦
        let offset = sector * block_sector_size in
        let file = read_file b offset n w in
        if outside b sector n
        then (false, [], w)
        else if leb b.bytes offset
        then (true, replicate n 0, w)
        else file
  ]

  unfoldable pub write_stream : F → ℕ → List ℕ → W → Bool × W
  write_stream f offset bytes w =
      let (sought, w') = files.fseeko f offset w in
      let (count, w'') = files.fwrite f bytes w' in
      if not sought
      then (false, (files.fclose f w').1)
      else if not (count == length bytes)
      then (false, (files.fclose f w'').1)
      else files.fclose f w''

  unfoldable pub write_file : Block → ℕ → List ℕ → W → Bool × W
  write_file b offset bytes w =
      let (file, w') = files.fopen b.path Mode.r_plus_b w in
      elim file [ none ↦ (false, w') | some f ↦ write_stream f offset bytes w' ]

  unfoldable pub block_write : List Block → W → ℕ → ℕ → List ℕ → Bool × W
  block_write blocks w device sector bytes = elim (selected blocks device) [
    | none ↦ (false, w)
    | some b ↦
        let file = write_file b (sector * block_sector_size) bytes w in
        if not b.writable || outside b sector (length bytes) then (false, w) else file
  ]

  unfoldable pub block_flush : List Block → W → ℕ → Bool × W
  block_flush blocks w device = elim (selected blocks device) [
    | none ↦ (false, w)
    | some b ↦ files.fsync_path b.path b.writable w
  ]
