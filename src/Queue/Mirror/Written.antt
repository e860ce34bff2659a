-- ===== src/Queue/Mirror/Written.antt =====
-- `persistSnapshot`: what it leaves in the file, whatever the medium takes.
use hydro_logger.Prelude.{
  ℕ, zero, suc, ap, refl, ◌+◌, ◌≤◌, ◌-◌, ◌≡◌, ◌<◌, ◌^◌, List, [], ◌∷◌, ◌++◌, true, some, length,
  take, leb, arith, length-append, take_all, take-append_add, take-nil, take-append_le,
  append_assoc, append-nil, Bool-cases, inl, inr,
}
use hydro_logger.Queue.Disk.{Medium, Stream, opened, fwrite, closed}
use hydro_logger.Queue.Mirror.{
  Codec, header_bytes, Mirror, write_items, header_of, write_snapshot, persist_snapshot,
}

-- The memory image of a record has the size that `sizeof` says, and reading it gives the record.
pub record CodecLaws {T : Type 0} (c : Codec T) (Fits : T → Type 0) : Type 0 where
  pub size_pos : 0 < c.item_size
  pub size_small : c.item_size < 2 ^ 32
  pub image_size : (x : T) → Fits x → length (c.bytes x) ≡ c.item_size
  pub read_image : (x : T) → Fits x → c.read (c.bytes x) ≡ x

module _ {T : Type 0} (c : Codec T) where
  abbrev pub flat : List T → List ℕ
  flat [] = []
  flat (x ∷ xs) = c.bytes x ++ flat xs

  abbrev pub image : List T → List ℕ
  image shadow = header_bytes (header_of c shadow) ++ flat shadow

fwrite_lem :
    (b : List ℕ) (s : Stream)
    → ((fwrite b s).1.written ≡ s.written ++ take s.left b)
      × ((fwrite b s).0 ≡ leb (length b) s.left)
      × ((fwrite b s).1.left ≡ s.left - length b)
unfolding fwrite
fwrite_lem b s = ground (arith, take_all b s.left)

take-take_le : (m n : ℕ) (xs : List ℕ) → m ≤ n → take m (take n xs) ≡ take m xs
take-take_le zero n xs h = refl
take-take_le (suc m) zero xs h = absurd (omega arith)
take-take_le (suc m) (suc n) [] h = refl
take-take_le (suc m) (suc n) (x ∷ xs) h = ap (λ t. x ∷ t) (take-take_le m n xs (omega arith))

module _ {T : Type 0} (c : Codec T) where
  -- However the loop ends, the stream has accepted the bytes of the items as far as it accepts any.
  write_items-written :
      (xs : List T) (s : Stream)
      → ((write_items c xs s).1.written ≡ s.written ++ take s.left (flat c xs))
        × ((write_items c xs s).0 ≡ leb (length (flat c xs)) s.left)
  unfolding write_items
  write_items-written [] s = (rw (take-nil ℕ s.left, append-nil), ground arith)
  write_items-written (x ∷ xs) s = elim (Bool-cases (leb (length (c.bytes x)) s.left)) [
    | inl fits ↦ ground (
      arith,
      fwrite_lem (c.bytes x) s,
      write_items-written xs (fwrite (c.bytes x) s).1,
      take-append_add (c.bytes x) (flat c xs) s.left (s.left - length (c.bytes x)),
      take_all (c.bytes x) s.left,
      append_assoc s.written (c.bytes x) (take (s.left - length (c.bytes x)) (flat c xs)),
      length-append (c.bytes x) (flat c xs),
    )
    | inr cut ↦ ground (
      arith,
      fwrite_lem (c.bytes x) s,
      take-append_le (c.bytes x) (flat c xs) s.left,
      length-append (c.bytes x) (flat c xs),
    )
  ]

  write_snapshot-written :
      (xs : List T) (s : Stream)
      → ((write_snapshot c xs s).1.written ≡ s.written ++ take s.left (image c xs))
        × ((write_snapshot c xs s).0 ≡ leb (length (image c xs)) s.left)
  unfolding write_snapshot
  write_snapshot-written xs s =
      let head = header_bytes (header_of c xs) in
      ground (
        arith,
        fwrite_lem head s,
        write_items-written xs (fwrite head s).1,
        take-append_add head (flat c xs) s.left (s.left - length head),
        take-append_le head (flat c xs) s.left,
        take_all head s.left,
        append_assoc s.written head (take (s.left - length head) (flat c xs)),
        length-append head (flat c xs),
      )

  -- Where the file could be opened it holds the image up to the end of the room. The result says
  -- whether the stream accepted all of it, which it may do beyond the room. The queue in memory is not
  -- touched.
  pub persist_snapshot_lem :
      (medium : Medium) (m : Mirror T)
      → medium.opens ≡ true
      → ((persist_snapshot c medium m).0
          ≡ leb (length (image c m.shadow)) (medium.room + medium.buffer))
        × ((persist_snapshot c medium m).1
            ≡ record m { file = some (take medium.room (image c m.shadow)) })
  unfolding persist_snapshot opened closed
  persist_snapshot_lem medium m o =
      let whole = image c m.shadow in
      ground (
        arith,
        write_snapshot-written m.shadow (opened medium),
        take-take_le medium.room (medium.room + medium.buffer) whole,
      )

  pub persist-opens :
      (medium : Medium) (m : Mirror T)
      → (persist_snapshot c medium m).0 ≡ true
      → medium.opens ≡ true
  unfolding persist_snapshot
  persist-opens medium m h = ground arith

  pub shadow-persist_snapshot :
      (medium : Medium) (m : Mirror T)
      → ((persist_snapshot c medium m).1.shadow ≡ m.shadow)
        × ((persist_snapshot c medium m).1.capacity ≡ m.capacity)
  unfolding persist_snapshot
  shadow-persist_snapshot medium m = ground arith
