-- ===== src/Resources/Blocks/Transfer.antt =====
-- What reading and writing a block device do to the file behind it.
use orlix_system.Prelude.{
  some_eq, min, ℕ, ◌+◌, ◌-◌, ◌*◌, ◌%◌, ◌^◌, ◌≤◌, ◌<◌, ◌≡◌, refl, ap, ◌∙◌, sym, subst, true, false,
  not, ◌||◌, some, List, [], ◌∷◌, ◌++◌, arith, Bool-cases, Option-cases, inl, inr, leb, ◌==◌,
  replicate, length, All,
}
use orlix_system.Memory.{Memory, load_bytes, store_bytes, poke}
use orlix_system.Memory.Frame.{length-load_bytes, store_bytes-outside, poke_self}
use orlix_system.Resources.Files.{FilePath, Mode, Files, Stream, Documented}
use orlix_system.Resources.Blocks.{
  Block, selected, outside, block_sector_size, read_length, read_stream, read_file, block_read,
  write_stream, write_file, block_write, filled_buffer,
}

abbrev pub IsByte : ℕ → Type 0
IsByte b = b < 256

append_nil : (xs : List ℕ) → xs ++ [] ≡ xs
append_nil [] = refl
append_nil (x ∷ xs) = ap (λ (t : List ℕ). x ∷ t) (append_nil xs)

load_bytes-store_bytes :
    (m : Memory) (p : ℕ) (bytes : List ℕ)
    → All IsByte bytes
    → load_bytes (length bytes) (store_bytes m p bytes) p ≡ bytes
unfolding load_bytes store_bytes
load_bytes-store_bytes m p [] h = refl
load_bytes-store_bytes m p (b ∷ bytes) h =
    let byte : b % 256 ≡ b = omega (arith, h.0) in
    rw (
      store_bytes-outside (poke m p b) (p + 1) bytes p (inl (omega arith)),
      poke_self m p b,
      load_bytes-store_bytes (poke m p b) (p + 1) bytes h.1,
      byte,
    )

read_length-min : (b : Block) (offset n : ℕ) → read_length b offset n ≡ min n (b.bytes - offset)
read_length-min b offset n = ground arith

-- The bytes from `offset` on, where a file has `size` bytes: zeros after its end.
abbrev pub slice : Memory → ℕ → ℕ → ℕ → List ℕ
slice m size offset n = filled_buffer n (load_bytes (min n (size - offset)) m offset)

slice_after :
    (m : Memory) (size offset n : ℕ) → size ≤ offset → slice m size offset n ≡ replicate n 0
unfolding load_bytes
slice_after m size offset n h =
    let none_left : min n (size - offset) ≡ 0 = omega (arith, h) in
    let all_zeros : n - 0 ≡ n = omega arith in rw (none_left, all_zeros) refl

slice_inside :
    (m : Memory) (size offset n : ℕ)
    → offset + n ≤ size
    → slice m size offset n ≡ load_bytes n m offset
slice_inside m size offset n h =
    let all_left : min n (size - offset) ≡ n = omega (arith, h) in
    let no_zeros : n - length (load_bytes n m offset) ≡ 0 =
      omega (arith, length-load_bytes n m offset) in
    rw (all_left, no_zeros) (append_nil (load_bytes n m offset))

module _ {F W : Type 0} (files : Files F W) (contents : W → FilePath → Memory)
    (stream : W → F → Stream) (documented : Documented files contents stream) where
  read_stream-bytes :
      (f : F) (path : FilePath) (offset m n : ℕ) (w : W)
      → stream w f ≡ record { path = path; mode = Mode.rb; position = 0 }
      → (read_stream files f offset m n w).0 ≡ true
      → ((read_stream files f offset m n w).1
          ≡ filled_buffer n (load_bytes m (contents w path) offset))
        × (contents (read_stream files f offset m n w).2 ≡ contents w)
  unfolding read_stream
  read_stream-bytes f path offset m n w at = elim (Bool-cases (files.fseeko f offset w).0) [
    | inr bad ↦ rw (read_stream, bad) (λ e. absurd (ground (arith, e)))
    | inl good ↦
        rw (read_stream, good)
          (λ e.
            let w1 = (files.fseeko f offset w).1 in
            let there = documented.sought f offset w good in
            let bytes = documented.read_bytes f m w1 (ground (arith, e)) in
            (
              ap (filled_buffer n) (bytes ∙ rw (there, at, documented.seek_keeps f offset w) refl),
              documented.read_keeps f m w1 (rw (there, at) refl) ∙ documented.seek_keeps f offset w,
            ))
  ]

  read_file-bytes :
      (b : Block) (offset n : ℕ) (w : W)
      → (read_file files b offset n w).0 ≡ true
      → ((read_file files b offset n w).1
          ≡ filled_buffer n (load_bytes (read_length b offset n) (contents w b.path) offset))
        × (contents (read_file files b offset n w).2 ≡ contents w)
  unfolding read_file
  read_file-bytes b offset n w = elim (Option-cases (files.fopen b.path Mode.rb w).0) [
    | inl bad ↦ rw (read_file, bad) (λ e. absurd (ground (arith, e)))
    | inr (f, good) ↦
        rw (read_file, good)
          (λ e.
            let w1 = (files.fopen b.path Mode.rb w).1 in
            let (bytes, kept) =
              read_stream-bytes f b.path offset (read_length b offset n) n w1
                (documented.opened b.path Mode.rb w f good) e in
            (
              bytes
                  ∙ ap
                      (λ (c : FilePath → Memory).
                        filled_buffer n (load_bytes (read_length b offset n) (c b.path) offset))
                      (documented.open_keeps b.path Mode.rb w),
              kept ∙ documented.open_keeps b.path Mode.rb w,
            ))
  ]

  -- Where the C library does what it documents, a read that succeeds is of a selected device and inside its sectors, returns the bytes of the
  -- file with zeros after its end, and changes no file.
  pub block_read-IsSlice :
      (blocks : List Block) (device sector n : ℕ) (w : W)
      → (block_read files blocks w device sector n).0 ≡ true
      → (b : Block) × (selected blocks device ≡ some b)
        × (outside b sector n ≡ false)
        × ((block_read files blocks w device sector n).1
            ≡ slice (contents w b.path) b.bytes (sector * block_sector_size) n)
        × (contents (block_read files blocks w device sector n).2 ≡ contents w)
  unfolding block_read
  block_read-IsSlice blocks device sector n w = elim (Option-cases (selected blocks device)) [
    | inl bad ↦ rw (block_read, bad) (λ e. absurd (ground (arith, e)))
    | inr (b, found) ↦ elim (Bool-cases (outside b sector n)) [
      | inl bad ↦ rw (block_read, found, bad) (λ e. absurd (ground (arith, e)))
      | inr good ↦ elim (Bool-cases (leb b.bytes (sector * block_sector_size))) [
        | inl after ↦
            rw (block_read, found, good, after)
              (λ e. (
                b,
                refl,
                good,
                sym (
                    slice_after (contents w b.path) b.bytes (sector * block_sector_size) n
                      (ground (arith, after))),
                refl,
              ))
        | inr before ↦
            rw (block_read, found, good, before)
              (λ e.
                let (bytes, kept) = read_file-bytes b (sector * block_sector_size) n w e in
                (
                  b,
                  refl,
                  good,
                  bytes
                      ∙ ap
                          (λ (k : ℕ).
                            filled_buffer n
                              (load_bytes k (contents w b.path) (sector * block_sector_size)))
                          (read_length-min b (sector * block_sector_size) n),
                  kept,
                ))
      ]
    ]
  ]

  write_stream-bytes :
      (f : F) (path : FilePath) (offset : ℕ) (bytes : List ℕ) (w : W)
      → stream w f ≡ record { path = path; mode = Mode.r_plus_b; position = 0 }
      → (write_stream files f offset bytes w).0 ≡ true
      → contents (write_stream files f offset bytes w).1 path
        ≡ store_bytes (contents w path) offset bytes
  unfolding write_stream
  write_stream-bytes f path offset bytes w at = elim (Bool-cases (files.fseeko f offset w).0) [
    | inr bad ↦ rw (write_stream, bad) (λ e. absurd (ground (arith, e)))
    | inl good ↦
        elim (Bool-cases ((files.fwrite f bytes (files.fseeko f offset w).1).0 == length bytes)) [
          | inr short ↦ rw (write_stream, good, short) (λ e. absurd (ground (arith, e)))
          | inl whole ↦
              rw (write_stream, good, whole)
                (λ e.
                  let w1 = (files.fseeko f offset w).1 in
                  let there =
                    documented.sought f offset w good
                    ∙ ap (λ (s : Stream). record s { position = offset }) at in
                  let stored =
                    documented.written f bytes w1 (ap (λ (s : Stream). s.mode) there)
                      (ground (arith, whole)) e in
                  subst
                    (λ (s : Stream).
                      contents (files.fclose f (files.fwrite f bytes w1).1).1 s.path
                      ≡ store_bytes (contents w1 s.path) s.position bytes)
                    there stored
                  ∙ ap (λ (c : FilePath → Memory). store_bytes (c path) offset bytes)
                      (documented.seek_keeps f offset w))
        ]
  ]

  -- Where the C library does what it documents, a write that succeeds is to a device that is selected and writable and inside its sectors, and
  -- the file holds the bytes at the sector afterwards and is else unchanged.
  pub block_write-IsStored :
      (blocks : List Block) (device sector : ℕ) (bytes : List ℕ) (w : W)
      → (block_write files blocks w device sector bytes).0 ≡ true
      → (b : Block) × (selected blocks device ≡ some b)
        × (b.writable ≡ true)
        × (outside b sector (length bytes) ≡ false)
        × (contents (block_write files blocks w device sector bytes).1 b.path
            ≡ store_bytes (contents w b.path) (sector * block_sector_size) bytes)
  unfolding block_write write_file
  block_write-IsStored blocks device sector bytes w = elim (Option-cases (selected blocks device)) [
    | inl bad ↦ rw (block_write, bad) (λ e. absurd (ground (arith, e)))
    | inr (b, found) ↦ elim (Bool-cases (not b.writable || outside b sector (length bytes))) [
      | inl bad ↦ rw (block_write, found, bad) (λ e. absurd (ground (arith, e)))
      | inr good ↦ elim (Option-cases (files.fopen b.path Mode.r_plus_b w).0) [
        | inl bad ↦ rw (block_write, found, good, write_file, bad) (λ e. absurd (ground (arith, e)))
        | inr (f, got) ↦
            rw (block_write, found, good, write_file, got)
              (λ e. (
                b,
                refl,
                ground (arith, good),
                ground (arith, good),
                write_stream-bytes f b.path (sector * block_sector_size) bytes
                      (files.fopen b.path Mode.r_plus_b w).1
                      (documented.opened b.path Mode.r_plus_b w f got) e
                    ∙ ap
                        (λ (c : FilePath → Memory).
                          store_bytes (c b.path) (sector * block_sector_size) bytes)
                        (documented.open_keeps b.path Mode.r_plus_b w),
              ))
      ]
    ]
  ]

  -- What has been written to a device whose size is a number of sectors is read back, if the two
  -- calls succeed.
  pub block_read-block_write :
      (blocks : List Block) (device sector : ℕ) (bytes : List ℕ) (w : W) (b : Block)
      → selected blocks device ≡ some b
      → b.bytes % block_sector_size ≡ 0
      → b.bytes < 2 ^ 63
      → All IsByte bytes
      → (block_write files blocks w device sector bytes).0 ≡ true
      → let w' = (block_write files blocks w device sector bytes).1 in
        (block_read files blocks w' device sector (length bytes)).0 ≡ true
        → (block_read files blocks w' device sector (length bytes)).1 ≡ bytes
  unfolding outside
  block_read-block_write blocks device sector bytes w b found size word proper wrote read =
      let w' = (block_write files blocks w device sector bytes).1 in
      let (b1, found1, writable, inside, stored) =
        block_write-IsStored blocks device sector bytes w wrote in
      let (b2, found2, inside2, sliced, kept) =
        block_read-IsSlice blocks device sector (length bytes) w' read in
      let same1 = some_eq b1 b (sym found1 ∙ found) in
      let same2 = some_eq b2 b (sym found2 ∙ found) in
      let content : contents w' b.path
          ≡ store_bytes (contents w b.path) (sector * block_sector_size) bytes =
        subst
          (λ (x : Block).
            contents w' x.path ≡ store_bytes (contents w x.path) (sector * block_sector_size) bytes)
          same1 stored in
      let within : outside b sector (length bytes) ≡ false =
        subst (λ (x : Block). outside x sector (length bytes) ≡ false) same1 inside in
      subst
        (λ (x : Block).
          (block_read files blocks w' device sector (length bytes)).1
          ≡ slice (contents w' x.path) x.bytes (sector * block_sector_size) (length bytes))
        same2 sliced
      ∙ slice_inside (contents w' b.path) b.bytes (sector * block_sector_size) (length bytes)
          (ground (arith, within))
      ∙ ap (λ (m : Memory). load_bytes (length bytes) m (sector * block_sector_size)) content
      ∙ load_bytes-store_bytes (contents w b.path) (sector * block_sector_size) bytes proper
