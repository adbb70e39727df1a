-- ===== src/Fs/Check/Room.antt =====
-- `fkfs_block_available_offset`: the search for room in a block.
use fkfs.Base.{
  ℕ, zero, suc, ◌+◌, ◌*◌, ◌≤◌, ◌<◌, ◌≡◌, ◌⊎◌, inl, inr, refl, arith, List, Option, none, some, Bool,
  true, false, ltb, ltb→lt, ltb→le, get_or, subst, Bool-cases,
}
use fkfs.Layout.{Entry, File}
use fkfs.Platform.{Platform}
use fkfs.Fs.{Fs, blank_file}
use fkfs.Fs.Check.{
  Status, good, bad_size, bad_crc, priority, eob, check_entry, block_check, block_crc, entry_at,
  bytes_at, outranked, next_offset, available_loop, block_available_offset,
}
use fkfs.Fs.Check

-- What a good entry has passed.
pub record IsGood (e : Entry) (f : File) (bytes : List ℕ) : Type 0 where
  pub file : e.file < 4
  pub size : 0 < e.size
  pub size_max : e.size < 512
  pub available : 0 < e.available
  pub available_max : e.available < 512
  pub crc : e.crc ≡ block_crc f e bytes

pub check_entry-good :
    (entry : Entry) (file : File) (bytes : List ℕ)
    → check_entry entry file bytes ≡ good
    → IsGood entry file bytes
unfolding check_entry
check_entry-good entry file bytes h = ground arith

pub good-check_entry :
    (entry : Entry) (file : File) (bytes : List ℕ)
    → IsGood entry file bytes
    → check_entry entry file bytes ≡ good
unfolding check_entry
good-check_entry entry file bytes h = ground arith

module _ {D : Type 0} (p : Platform D) (fs : Fs D) (buffer : List ℕ) where
  pub block_check-plain :
      (offset : ℕ)
      → block_check p fs buffer offset
        ≡ check_entry
            (entry_at p fs.sd buffer offset)
            (get_or fs.header.files (entry_at p fs.sd buffer offset).file blank_file)
            (bytes_at p fs.sd buffer (offset + 7) (entry_at p fs.sd buffer offset).size)
  unfolding block_check
  block_check-plain offset = refl

  -- A check has one of three answers.
  pub block_check-cases :
      (offset : ℕ)
      → (block_check p fs buffer offset ≡ good)
        ⊎ (block_check p fs buffer offset ≡ bad_size)
        ⊎ (block_check p fs buffer offset ≡ bad_crc)
  unfolding block_check
  block_check-cases offset = ground arith

  pub block_check-available :
      (offset : ℕ)
      → block_check p fs buffer offset ≡ good
      → (0 < (entry_at p fs.sd buffer offset).available)
        × ((entry_at p fs.sd buffer offset).available < 512)
  unfolding block_check
  block_check-available offset h =
      let g = check_entry-good (entry_at p fs.sd buffer offset) _ _ h in
      (g.available, g.available_max)

  -- A good entry in the block's range is followed by one eight bytes further on at least.
  next_offset-grows :
      (offset : ℕ)
      → offset ≤ 512
      → block_check p fs buffer offset ≡ good
      → next_offset offset (entry_at p fs.sd buffer offset)
        ≡ offset + 7 + (entry_at p fs.sd buffer offset).available
  unfolding next_offset
  next_offset-grows offset fits h = omega (arith, block_check-available offset h)

  module _ (own required : ℕ) where
    -- From one offset of the block to another over good entries that stay as they are.
    pub data Passed : ℕ → ℕ → Type 0 where
      here : {offset : ℕ} → Passed offset offset
      over :
          (offset : ℕ) {next last : ℕ}
          → block_check p fs buffer offset ≡ good
          → outranked fs own required (entry_at p fs.sd buffer offset) ≡ false
          → next ≡ offset + 7 + (entry_at p fs.sd buffer offset).available
          → Passed next last
          → Passed offset last

    -- Why an offset is free: no entry stands there, or its checksum is wrong, or it may be overwritten.
    abbrev pub IsFree : ℕ → Status → Type 0
    IsFree offset status =
        ((status ≡ bad_size) × (block_check p fs buffer offset ≡ bad_size))
        ⊎ ((status ≡ bad_crc) × (block_check p fs buffer offset ≡ bad_crc))
        ⊎ ((status ≡ priority)
            × (block_check p fs buffer offset ≡ good)
            × (outranked fs own required (entry_at p fs.sd buffer offset) ≡ true))

    -- What holds of an offset that the search has found.
    abbrev pub IsRoom : ℕ → Check.Search → Type 0
    IsRoom start search =
        Passed start search.offset
        × (search.offset + required ≤ 512)
        × IsFree search.offset search.status

    stop :
        (offset : ℕ) (status : Status) {search : Check.Search}
        → offset + required ≤ 512
        → IsFree offset status
        → ◌≡◌ {A = Option (Bool × Check.Search)}
            (some (true, record { offset = offset; status = status }))
            (some (true, search))
        → IsRoom offset search
    stop offset status fits free e = subst (λ s. IsRoom offset s) (cc) (here, fits, free)

    -- One round, by what it meets.
    module _ (fuel offset : ℕ) where
      abbrev next : ℕ
      next = next_offset offset (entry_at p fs.sd buffer offset)

      loop_size :
          block_check p fs buffer offset ≡ bad_size
          → available_loop p fs own required buffer (suc fuel) offset
            ≡ some (true, record { offset = offset; status = bad_size })
      unfolding available_loop
      loop_size z = rw (z, available_loop)

      loop_crc :
          block_check p fs buffer offset ≡ bad_crc
          → available_loop p fs own required buffer (suc fuel) offset
            ≡ some (true, record { offset = offset; status = bad_crc })
      unfolding available_loop
      loop_crc z = rw (z, available_loop)

      loop_outranked :
          block_check p fs buffer offset ≡ good
          → outranked fs own required (entry_at p fs.sd buffer offset) ≡ true
          → available_loop p fs own required buffer (suc fuel) offset
            ≡ some (true, record { offset = offset; status = priority })
      unfolding available_loop
      loop_outranked g o = rw (g, o, available_loop)

      loop_more :
          block_check p fs buffer offset ≡ good
          → outranked fs own required (entry_at p fs.sd buffer offset) ≡ false
          → ltb (next + required) 512 ≡ true
          → available_loop p fs own required buffer (suc fuel) offset
            ≡ available_loop p fs own required buffer fuel next
      unfolding available_loop
      loop_more g o more = ground arith

      loop_full :
          block_check p fs buffer offset ≡ good
          → outranked fs own required (entry_at p fs.sd buffer offset) ≡ false
          → ltb (next + required) 512 ≡ false
          → available_loop p fs own required buffer (suc fuel) offset
            ≡ some (false, record { offset = next; status = eob })
      unfolding available_loop
      loop_full g o full = ground arith

    -- What the search says of the block from `start` on.
    abbrev pub Finds : ℕ → Option (Bool × Check.Search) → Type 0
    Finds start none = ⊥
    Finds start (some (true, search)) = IsRoom start search
    Finds start (some (false, search)) =
        Passed start search.offset × (512 ≤ search.offset + required) × (search.status ≡ eob)

    over_Finds :
        (offset : ℕ) {next : ℕ}
        → block_check p fs buffer offset ≡ good
        → outranked fs own required (entry_at p fs.sd buffer offset) ≡ false
        → next ≡ offset + 7 + (entry_at p fs.sd buffer offset).available
        → (r : Option (Bool × Check.Search)) → Finds next r
        → Finds offset r
    over_Finds offset g o e none h = h
    over_Finds offset g o e (some (true, search)) (path, room, free) =
        (over offset g o e path, room, free)
    over_Finds offset g o e (some (false, search)) (path, full, end) =
        (over offset g o e path, full, end)

    available_loop-Finds :
        (fuel offset : ℕ)
        → offset + required ≤ 512
        → 512 < offset + 8 * fuel
        → Finds offset (available_loop p fs own required buffer fuel offset)
    available_loop-Finds zero offset fits h = absurd (omega arith)
    available_loop-Finds (suc fuel) offset fits h = elim (block_check-cases offset) [
      | inl g ↦
          let grows : next fuel offset ≡ offset + 7 + (entry_at p fs.sd buffer offset).available =
            next_offset-grows offset (omega arith) g in
          elim (Bool-cases (outranked fs own required (entry_at p fs.sd buffer offset))) [
            | inl o ↦ rw (loop_outranked fuel offset g o) (here, fits, inr (inr (refl, g, o)))
            | inr o ↦ elim (Bool-cases (ltb (next fuel offset + required) 512)) [
              | inl more ↦ rw (loop_more fuel offset g o more) (
                  over_Finds offset g o grows
                    (available_loop p fs own required buffer fuel (next fuel offset))
                    (available_loop-Finds fuel (next fuel offset) (omega (arith, ltb→lt _ _ more))
                      (omega (arith, grows, block_check-available offset g))))
              | inr full ↦
                  rw (loop_full fuel offset g o full)
                    (over offset g o grows here, ltb→le _ _ full, refl)
            ]
          ]
      | inr (inl z) ↦ rw (loop_size fuel offset z) (here, fits, inl (refl, z))
      | inr (inr z) ↦ rw (loop_crc fuel offset z) (here, fits, inr (inl (refl, z)))
    ]

    -- The search of a block ends. Where it finds an offset, it has passed over good entries that may
    -- not be overwritten, what is required fits behind the offset, and the offset is free. Where it
    -- finds none, it has passed over such entries till too little of the block is left. What is
    -- required fits behind the offset that it starts at.
    pub block_available_offset_lem :
        (offset : ℕ)
        → offset + required ≤ 512
        → Finds offset (block_available_offset p fs own required buffer offset)
    unfolding block_available_offset
    block_available_offset_lem offset fits = available_loop-Finds 512 offset fits (omega arith)
