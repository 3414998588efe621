-- ===== src/Resources/Files.antt =====
-- What resources.c calls of the C library, and what its documentation says of these calls.
use orlix_system.Prelude.{ℕ, ◌≤◌, ◌≡◌, Bool, true, Option, some, List, length}
use orlix_system.Memory.{Memory, load_bytes, store_bytes}

abbrev pub FilePath : Type 0
FilePath = List ℕ

-- The modes "rb" and "r+b".
pub data Mode : Type 0 where
  rb : Mode
  r_plus_b : Mode

-- `F` is `FILE *`, and `W` the state of the host. A call that returns a status has true for success,
-- `fread` returns the bytes that it read, `fwrite` the number of bytes that it wrote, and
-- `fsync_path` is `open`, `fsync` and `close` on a path, for writing or not, with what the last two
-- return together.
pub record Files (F W : Type 0) : Type 0 where
  pub fopen : FilePath → Mode → W → Option F × W
  pub fseeko : F → ℕ → W → Bool × W
  pub fread : F → ℕ → W → List ℕ × W
  pub fwrite : F → List ℕ → W → ℕ × W
  pub fclose : F → W → Bool × W
  pub fsync_path : FilePath → Bool → W → Bool × W

pub record Stream : Type 0 where
  pub path : FilePath
  pub mode : Mode
  pub position : ℕ

-- `contents` are the bytes of the files, and `stream` is what a stream is at.
pub record Documented {F W : Type 0} (files : Files F W) (contents : W → FilePath → Memory)
    (stream : W → F → Stream) : Type 0 where
  pub opened :
      (p : FilePath) (mode : Mode) (w : W) (f : F)
      → (files.fopen p mode w).0 ≡ some f
      → stream (files.fopen p mode w).1 f ≡ record { path = p; mode = mode; position = 0 }
  pub open_keeps :
      (p : FilePath) (mode : Mode) (w : W) → contents (files.fopen p mode w).1 ≡ contents w
  pub sought :
      (f : F) (position : ℕ) (w : W)
      → (files.fseeko f position w).0 ≡ true
      → stream (files.fseeko f position w).1 f ≡ record (stream w f) { position = position }
  pub seek_keeps :
      (f : F) (position : ℕ) (w : W) → contents (files.fseeko f position w).1 ≡ contents w
  pub read_bounded : (f : F) (n : ℕ) (w : W) → length (files.fread f n w).0 ≤ n
  pub read_bytes :
      (f : F) (n : ℕ) (w : W)
      → length (files.fread f n w).0 ≡ n
      → (files.fread f n w).0 ≡ load_bytes n (contents w (stream w f).path) (stream w f).position
  -- A stream that was opened to read changes no file.
  pub read_keeps :
      (f : F) (n : ℕ) (w : W)
      → (stream w f).mode ≡ Mode.rb
      → contents (files.fclose f (files.fread f n w).1).1 ≡ contents w
  -- Bytes that were written in full are in the file when it has been closed.
  pub written :
      (f : F) (bytes : List ℕ) (w : W)
      → (stream w f).mode ≡ Mode.r_plus_b
      → (files.fwrite f bytes w).0 ≡ length bytes
      → (files.fclose f (files.fwrite f bytes w).1).0 ≡ true
      → contents (files.fclose f (files.fwrite f bytes w).1).1 (stream w f).path
        ≡ store_bytes (contents w (stream w f).path) (stream w f).position bytes
