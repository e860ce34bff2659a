-- ===== src/Queue/Mirror.antt =====
-- `PersistentQueueMirror<T>`: the shadow of a RAM queue, and its snapshot file.
pub mod Written
pub mod Snapshot
pub mod Sync
pub mod Restart
mod Tests
use hydro_logger.Prelude.{
  ℕ, zero, suc, ◌≡◌, ◌≤◌, ◌<◌, List, [], ◌∷◌, ◌++◌, Bool, true, false, not, ◌&&◌, Option, none,
  some, length, take, drop, ltb, leb, ◌==◌, if◌then◌else◌,
}
use hydro_logger.Prelude.Bytes.{u32}
use hydro_logger.Queue.Ram.{RamQueue}
use hydro_logger.Queue.Disk.{
  Medium, Stream, opened, fwrite, closed, u32_bytes, read_u32, Storage, ensure_storage_mounted,
}

-- `RecordCodec<T>` with the memory image of its record: `bytes` is that of `encode`, `read` is
-- `decode` of an image, `item_size` is `sizeof(Record)`.
pub record Codec (T : Type 0) : Type 0 where
  pub item_size : ℕ
  pub bytes : T → List ℕ
  pub read : List ℕ → T

pub record SnapshotHeader : Type 0 where
  pub magic : ℕ
  pub version : ℕ
  pub item_count : ℕ
  pub item_size : ℕ

abbrev pub snapshot_magic : ℕ
snapshot_magic = 0x51554D52

abbrev pub snapshot_version : ℕ
snapshot_version = 1

-- `sizeof(SnapshotHeader)`
abbrev pub header_size : ℕ
header_size = 16

pub header_bytes : SnapshotHeader → List ℕ
header_bytes h =
    u32_bytes h.magic ++ (u32_bytes h.version ++ (u32_bytes h.item_count ++ u32_bytes h.item_size))

pub read_header : List ℕ → SnapshotHeader
read_header b = record {
  magic = read_u32 b;
  version = read_u32 (drop 4 b);
  item_count = read_u32 (drop 8 b);
  item_size = read_u32 (drop 12 b);
}

-- `file` is the file at `path_`, `none` where there is no such file.
pub record Mirror (T : Type 0) : Type 0 where
  pub capacity : ℕ
  pub shadow : List T
  pub file : Option (List ℕ)

-- `shadow_.erase(shadow_.begin())` where the shadow is not empty.
abbrev pub erase_first : {T : Type 0} → List T → List T
erase_first [] = []
erase_first (x ∷ xs) = xs

module _ {T : Type 0} (c : Codec T) where
  pub header_valid : SnapshotHeader → Bool
  header_valid h =
      h.magic == snapshot_magic && (h.version == snapshot_version && h.item_size == c.item_size)

  -- The reading loop, `left` rounds before its end; `fread` returns 1 only where a whole record is
  -- left in the file.
  pub read_items : ℕ → ℕ → List T → List ℕ → List T
  read_items capacity zero shadow rest = shadow
  read_items capacity (suc left) shadow rest = elim (ltb (length shadow) capacity) [
    | false ↦ shadow
    | true ↦ elim (leb c.item_size (length rest)) [
      | false ↦ shadow
      | true ↦
          read_items capacity left (shadow ++ c.read (take c.item_size rest) ∷ [])
            (drop c.item_size rest)
    ]
  ]

  pub load_file : ℕ → List ℕ → Bool × List T
  unfolding header_valid read_items
  load_file capacity b =
      let h = read_header b in
      if leb header_size (length b) && header_valid h
      then (true, read_items capacity h.item_count [] (drop header_size b))
      else (false, [])

  unfoldable pub load_snapshot : Mirror T → Bool × Mirror T
  unfolding load_file
  load_snapshot m = elim m.file [
    | none ↦ (true, record m { shadow = [] })
    | some b ↦ let (ok, items) = load_file m.capacity b in (ok, record m { shadow = items })
  ]

  -- The writing loop: it stops at the first write that fails.
  pub write_items : List T → Stream → Bool × Stream
  write_items [] s = (true, s)
  write_items (x ∷ xs) s =
      let (ok, s') = fwrite (c.bytes x) s in
      let rest = write_items xs s' in if ok then rest else (false, s')

  pub header_of : List T → SnapshotHeader
  header_of shadow = record {
    magic = snapshot_magic;
    version = snapshot_version;
    item_count = u32 (length shadow);
    item_size = c.item_size;
  }

  pub write_snapshot : List T → Stream → Bool × Stream
  unfolding write_items header_of
  write_snapshot shadow s =
      let (ok, s') = fwrite (header_bytes (header_of shadow)) s in
      if ok then write_items shadow s' else (false, s')

  -- `persistSnapshot`: `fopen(path, "wb")` empties the file before the first write, and what the
  -- closing of the stream answers is dropped.
  pub persist_snapshot : Medium → Mirror T → Bool × Mirror T
  unfolding write_snapshot opened closed
  persist_snapshot medium m =
      let (ok, s) = write_snapshot m.shadow (opened medium) in
      let (flushed, bytes) = closed medium s in
      if medium.opens then (ok, record m { file = some bytes }) else (false, m)

  pub init : Bool → Storage → Mirror T → Bool × Storage × Mirror T
  unfolding ensure_storage_mounted load_snapshot
  init registers storage m =
      let (mounted, storage') = ensure_storage_mounted registers storage in
      let (ok, m') = load_snapshot m in if mounted then (ok, storage', m') else (false, storage', m)

  module _ (r : RamQueue T) where
    -- The sending loop of `restoreToRam`: how many items the queue took.
    pub send_all : List T → r.Q → ℕ × r.Q
    send_all [] q = (0, q)
    send_all (x ∷ xs) q =
        let (sent, q') = r.send x q in
        let (restored, q'') = send_all xs q' in if sent then (suc restored, q'') else (0, q')

    pub restore_to_ram : Medium → Option r.Q → Mirror T → Bool × Option r.Q × Mirror T
    unfolding send_all persist_snapshot
    restore_to_ram medium none m = (false, none, m)
    restore_to_ram medium (some q) m =
        let (restored, q') = send_all m.shadow q in
        let (ok, m') = persist_snapshot medium (record m { shadow = take restored m.shadow }) in
        if restored == length m.shadow then (true, some q', m) else (ok, some q', m')

    pub enqueue : Medium → T → Option r.Q → Mirror T → Bool × Option r.Q × Mirror T
    unfolding persist_snapshot
    enqueue medium x none m = (false, none, m)
    enqueue medium x (some q) m =
        let (sent, q') = r.send x q in
        let shadow' = if ltb (length m.shadow) m.capacity then m.shadow ++ x ∷ [] else m.shadow in
        let (ok, m') = persist_snapshot medium (record m { shadow = shadow' }) in
        if sent then (ok, some q', m') else (false, some q', m)

    pub peek : Option r.Q → Option T
    peek none = none
    peek (some q) = r.peek q

    -- The item goes to `out`; the Boolean is the result.
    pub pop : Medium → Option r.Q → Mirror T → Bool × Option T × Option r.Q × Mirror T
    unfolding persist_snapshot
    pop medium none m = (false, none, none, m)
    pop medium (some q) m =
        let (item, q') = r.receive q in
        let (ok, m') = persist_snapshot medium (record m { shadow = erase_first m.shadow }) in
        elim item [ none ↦ (false, none, some q', m) | some x ↦ (ok, some x, some q', m') ]

    pub ack : Medium → Option r.Q → Mirror T → Bool × Option r.Q × Mirror T
    unfolding persist_snapshot
    ack medium none m = (false, none, m)
    ack medium (some q) m =
        let (item, q') = r.receive q in
        let (ok, m') = persist_snapshot medium (record m { shadow = erase_first m.shadow }) in
        elim item [ none ↦ (false, some q', m) | some x ↦ (ok, some q', m') ]
