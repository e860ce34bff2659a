-- ===== src/Queue/Disk.antt =====
-- The C streams through which a snapshot is written and read, and the mount of the partition
-- (`ensureStorageMounted`). A file is the list of its bytes.
use hydro_logger.Prelude.{
  ℕ, ◌-◌, ◌/◌, ◌*◌, ◌+◌, List, [], ◌∷◌, ◌++◌, Bool, true, false, length, take, leb, if◌then◌else◌,
  get_or,
}
use hydro_logger.Prelude.Bytes.{u8}

-- What one writing of the file meets: whether `fopen(path, "wb")` succeeds, how many bytes the file
-- system takes, and how many more a write can still leave in the buffer of the stream before one fails.
pub record Medium : Type 0 where
  pub opens : Bool
  pub room : ℕ
  pub buffer : ℕ

-- An open output stream: what it has accepted, and what it will still accept.
pub record Stream : Type 0 where
  pub written : List ℕ
  pub left : ℕ

-- `fopen(path, "wb")`: an empty file.
unfoldable pub opened : Medium → Stream
opened medium = record { written = []; left = medium.room + medium.buffer }

-- `fwrite(&x, sizeof x, 1, f) == 1`; a write that is not accepted stops at the end of the buffer.
unfoldable pub fwrite : List ℕ → Stream → Bool × Stream
fwrite bytes s =
    if leb (length bytes) s.left
    then (true, record { written = s.written ++ bytes; left = s.left - length bytes })
    else (false, record { written = s.written ++ take s.left bytes; left = 0 })

-- `fflush(f)` and `fclose(f)`: whether all that was accepted reached the file, and the file. The
-- source does not look at the first.
unfoldable pub closed : Medium → Stream → Bool × List ℕ
closed medium s = (leb (length s.written) medium.room, take medium.room s.written)

-- A `uint32_t` in memory: four bytes, the lowest first.
unfoldable pub u32_bytes : ℕ → List ℕ
u32_bytes v = u8 v ∷ u8 (v / 256) ∷ u8 (v / 65536) ∷ u8 (v / 16777216) ∷ []

unfoldable pub read_u32 : List ℕ → ℕ
read_u32 b = get_or b 0 0 + get_or b 1 0 * 256 + get_or b 2 0 * 65536 + get_or b 3 0 * 16777216

-- The two statics of `ensureStorageMounted`, and how often it called `esp_vfs_spiffs_register`.
pub record Storage : Type 0 where
  pub attempted : Bool
  pub mounted : Bool
  pub registrations : ℕ

-- `registers` is whether `esp_vfs_spiffs_register` returns `ESP_OK`.
unfoldable pub ensure_storage_mounted : Bool → Storage → Bool × Storage
ensure_storage_mounted registers s = if s.attempted then (s.mounted, s) else (
  registers,
  record { attempted = true; mounted = registers; registrations = s.registrations + 1 },
)
