-- ===== src/Queue/Mirror/Snapshot.antt =====
-- `loadSnapshot` on the file that `persistSnapshot` left, also where the writing was cut short.
use hydro_logger.Prelude.{
  ℕ, zero, suc, ◌+◌, ◌*◌, ◌≡◌, refl, ap, sym, ◌∙◌, ◌≤◌, ◌<◌, ◌^◌, List, [], ◌∷◌, ◌++◌, true, false,
  length, take, arith, All, length-append, length-take, take-append, drop-append, take_all,
  take-append_add, take-nil, append_assoc, append-nil,
}
use hydro_logger.Queue.Disk.{Medium, u32_bytes, read_u32}
use hydro_logger.Queue.Mirror.Written.{CodecLaws, flat, image, persist_snapshot_lem}
use hydro_logger.Queue.Mirror.{
  Codec, SnapshotHeader, header_size, header_bytes, read_header, Mirror, header_valid, read_items,
  load_file, load_snapshot, header_of, persist_snapshot,
}

read_u32-u32_bytes : (v : ℕ) (rest : List ℕ) → v < 2 ^ 32 → read_u32 (u32_bytes v ++ rest) ≡ v
unfolding read_u32 u32_bytes
read_u32-u32_bytes v rest h = omega arith

read_header-header_bytes :
    (h : SnapshotHeader) (rest : List ℕ)
    → h.magic < 2 ^ 32
    → h.version < 2 ^ 32
    → h.item_count < 2 ^ 32
    → h.item_size < 2 ^ 32
    → read_header (header_bytes h ++ rest) ≡ h
unfolding read_header header_bytes read_u32 u32_bytes
read_header-header_bytes h rest a b d e = ground arith

length-header_bytes : (h : SnapshotHeader) → length (header_bytes h) ≡ header_size
unfolding header_bytes u32_bytes
length-header_bytes h = refl

module _ {T : Type 0} (c : Codec T) (Fits : T → Type 0) (laws : CodecLaws c Fits) where
  read_items_stop :
      (capacity n : ℕ) (acc : List T) (rest : List ℕ)
      → length rest < c.item_size
      → read_items c capacity n acc rest ≡ acc
  unfolding read_items
  read_items_stop capacity zero acc rest h = refl
  read_items_stop capacity (suc n) acc rest h = ground arith

  read_items_step :
      (capacity n : ℕ) (acc : List T) (b rest : List ℕ)
      → length acc < capacity
      → length b ≡ c.item_size
      → read_items c capacity (suc n) acc (b ++ rest)
        ≡ read_items c capacity n (acc ++ c.read b ∷ []) rest
  unfolding read_items
  read_items_step capacity n acc b rest h e =
      ground (
        arith,
        length-append b rest,
        take-append b rest c.item_size,
        drop-append b rest c.item_size,
      )

  -- From the first `j` whole records and a rest that is shorter than a record, the reading loop
  -- gets those `j` items.
  read_items-flat :
      (capacity : ℕ) (xs acc : List T) (j r : ℕ)
      → All Fits xs
      → length acc + length xs ≤ capacity
      → r < c.item_size
      → read_items c capacity (length xs) acc (take (j * c.item_size + r) (flat c xs))
        ≡ acc ++ take j xs
  unfolding read_items
  read_items-flat capacity [] acc j r fits room h = rw (take-nil T j, append-nil)
  read_items-flat capacity (x ∷ xs) acc zero r fits room h =
      read_items_stop capacity (suc (length xs)) acc _
        (omega (arith, length-take (0 * c.item_size + r) (flat c (x ∷ xs))))
      ∙ rw append-nil
  read_items-flat capacity (x ∷ xs) acc (suc j) r fits room h =
      rw
        (take-append_add (c.bytes x) (flat c xs) (suc j * c.item_size + r) (j * c.item_size + r)
          (omega (arith, laws.image_size x fits.0)))
        (read_items_step capacity (length xs) acc (c.bytes x) _ (omega arith)
            (laws.image_size x fits.0)
          ∙ rw (laws.read_image x fits.0) (
              read_items-flat capacity xs (acc ++ x ∷ []) j r fits.1
                (omega (arith, length-append acc (x ∷ []))) h
              ∙ append_assoc acc (x ∷ []) (take j xs)))

  length-flat : (xs : List T) → All Fits xs → length (flat c xs) ≡ length xs * c.item_size
  length-flat [] fits = omega arith
  length-flat (x ∷ xs) fits = omega (
    arith,
    length-append (c.bytes x) (flat c xs),
    laws.image_size x fits.0,
    length-flat xs fits.1,
  )

  pub length-image :
      (xs : List T) → All Fits xs → length (image c xs) ≡ 16 + length xs * c.item_size
  length-image xs fits = omega (
    arith,
    length-append (header_bytes (header_of c xs)) (flat c xs),
    length-header_bytes (header_of c xs),
    length-flat xs fits,
  )

  header_of_lem :
      (xs : List T)
      → length xs < 2 ^ 32
      → (header_valid c (header_of c xs) ≡ true) × ((header_of c xs).item_count ≡ length xs)
  unfolding header_valid header_of
  header_of_lem xs h = (ground arith, omega arith)

  read_header-image :
      (xs : List T) (body : List ℕ)
      → length xs < 2 ^ 32
      → read_header (header_bytes (header_of c xs) ++ body) ≡ header_of c xs
  read_header-image xs body h =
      read_header-header_bytes (header_of c xs) body (unfold header_of in omega arith)
        (unfold header_of in omega arith) (omega (arith, (header_of_lem xs h).1))
        (unfold header_of in laws.size_small)

  load_file-image :
      (capacity : ℕ) (xs : List T) (body : List ℕ)
      → length xs < 2 ^ 32
      → load_file c capacity (header_bytes (header_of c xs) ++ body)
        ≡ (true, read_items c capacity (length xs) [] body)
  unfolding load_file
  load_file-image capacity xs body h = ground (
    arith,
    read_header-image xs body h,
    header_of_lem xs h,
    length-append (header_bytes (header_of c xs)) body,
    length-header_bytes (header_of c xs),
    drop-append (header_bytes (header_of c xs)) body header_size,
  )

  load_file_cut :
      (capacity : ℕ) (xs : List T) (j r : ℕ)
      → All Fits xs
      → length xs ≤ capacity
      → capacity < 2 ^ 32
      → r < c.item_size
      → load_file c capacity (take (16 + (j * c.item_size + r)) (image c xs)) ≡ (true, take j xs)
  load_file_cut capacity xs j r fits room small h =
      let head = header_bytes (header_of c xs) in
      let cut : ℕ = j * c.item_size + r in
      rw
        (take-append_add head (flat c xs) (16 + cut) cut
          (omega (arith, length-header_bytes (header_of c xs))))
        (load_file-image capacity xs (take cut (flat c xs)) (omega arith)
          ∙ ap (λ items. (true, items)) (read_items-flat capacity xs [] j r fits (omega arith) h))

  load_file_short :
      (capacity : ℕ) (b : List ℕ) → length b < 16 → load_file c capacity b ≡ (false, [])
  unfolding load_file
  load_file_short capacity b h = ground arith

  -- Where the writing of the snapshot was cut short after `j` whole records and a part of the
  -- next, the next start succeeds with the first `j` items of the queue, in their order.
  pub load-persist_cut :
      (medium : Medium) (m : Mirror T) (j r : ℕ)
      → All Fits m.shadow
      → length m.shadow ≤ m.capacity
      → m.capacity < 2 ^ 32
      → medium.opens ≡ true
      → r < c.item_size
      → medium.room ≡ 16 + (j * c.item_size + r)
      → ((load_snapshot c (persist_snapshot c medium m).1).0 ≡ true)
        × ((load_snapshot c (persist_snapshot c medium m).1).1.shadow ≡ take j m.shadow)
  unfolding load_snapshot
  load-persist_cut medium m j r fits room small opens h e = ground (
    arith,
    persist_snapshot_lem c medium m opens,
    load_file_cut m.capacity m.shadow j r fits room small h,
  )

  -- Where it was cut inside the header, the next start reports a failure and has an empty queue.
  pub load-persist_header_cut :
      (medium : Medium) (m : Mirror T)
      → medium.opens ≡ true
      → medium.room < 16
      → ((load_snapshot c (persist_snapshot c medium m).1).0 ≡ false)
        × ((load_snapshot c (persist_snapshot c medium m).1).1.shadow ≡ [])
  unfolding load_snapshot
  load-persist_header_cut medium m opens h = ground (
    arith,
    persist_snapshot_lem c medium m opens,
    load_file_short m.capacity (take medium.room (image c m.shadow)),
    length-take medium.room (image c m.shadow),
  )

  load_file_whole :
      (capacity : ℕ) (xs : List T) (room : ℕ)
      → All Fits xs
      → length xs ≤ capacity
      → capacity < 2 ^ 32
      → length (image c xs) ≤ room
      → load_file c capacity (take room (image c xs)) ≡ (true, xs)
  load_file_whole capacity xs room fits h small le =
      let cut : ℕ = 16 + (length xs * c.item_size + 0) in
      rw (take_all (image c xs) room le) (
        ap (load_file c capacity)
          (sym (take_all (image c xs) cut (omega (arith, length-image xs fits))))
        ∙ load_file_cut capacity xs (length xs) 0 fits h small laws.size_pos
        ∙ ap (λ items. (true, items)) (take_all xs (length xs) (omega arith)))

  -- Where the file can be opened and the file system has room for the whole snapshot,
  -- `persistSnapshot` answers true, and the next start loads the same items in the same order.
  pub load-persist_snapshot :
      (medium : Medium) (m : Mirror T)
      → All Fits m.shadow
      → length m.shadow ≤ m.capacity
      → m.capacity < 2 ^ 32
      → medium.opens ≡ true
      → 16 + length m.shadow * c.item_size ≤ medium.room
      → ((persist_snapshot c medium m).0 ≡ true)
        × (load_snapshot c (persist_snapshot c medium m).1
            ≡ (true, (persist_snapshot c medium m).1))
  unfolding load_snapshot
  load-persist_snapshot medium m fits room small opens whole = ground (
    arith,
    persist_snapshot_lem c medium m opens,
    length-image m.shadow fits,
    load_file_whole m.capacity m.shadow medium.room fits room small,
  )

  -- Where the file system is full after `j` whole records of a longer queue and a part of the next,
  -- and the buffer of the stream takes the rest, `persistSnapshot` answers true all the same, as
  -- nothing looks at the flush; the next start succeeds, with the first `j` items only.
  pub load-persist_unflushed :
      (medium : Medium) (m : Mirror T) (j r : ℕ)
      → All Fits m.shadow
      → length m.shadow ≤ m.capacity
      → m.capacity < 2 ^ 32
      → medium.opens ≡ true
      → r < c.item_size
      → j < length m.shadow
      → medium.room ≡ 16 + (j * c.item_size + r)
      → 16 + length m.shadow * c.item_size ≤ medium.room + medium.buffer
      → ((persist_snapshot c medium m).0 ≡ true)
        × ((load_snapshot c (persist_snapshot c medium m).1).0 ≡ true)
        × (length (load_snapshot c (persist_snapshot c medium m).1).1.shadow ≡ j)
        × ((load_snapshot c (persist_snapshot c medium m).1).1.shadow ≡ take j m.shadow)
  load-persist_unflushed medium m j r fits room small opens h short e buffered =
      let (ok, file) = persist_snapshot_lem c medium m opens in
      let (loads, items) = load-persist_cut medium m j r fits room small opens h e in
      (
        ok ∙ ground (arith, buffered, length-image m.shadow fits),
        loads,
        ap length items ∙ ground (arith, length-take j m.shadow, short),
        items,
      )
