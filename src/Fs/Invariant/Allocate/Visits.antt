-- ===== src/Fs/Invariant/Allocate/Visits.antt =====
-- Where the bytes that `fkfs_file_allocate_block` searches come from: the blocks that it visits, and
-- what it does to the card on the way.
use fkfs.Base.{ℕ, ◌≡◌, ◌≢◌, ◌⊎◌, inl, true, List, refl}
use fkfs.Platform.{Platform}
use fkfs.Fs.{Fs, uint32_max}
use fkfs.Fs.Append.{next_block}

-- The blocks from a first one on, with the offset that a search of the block starts at: the given one
-- in the first block, and 0 in those behind it.
pub data Visited (blocks first offset : ℕ) : ℕ → ℕ → Type 0 where
  here : Visited blocks first offset first offset
  next :
      {block start : ℕ}
      → Visited blocks first offset block start
      → Visited blocks first offset (next_block blocks block) 0

module _ {D : Type 0} (p : Platform D) (fs : Fs D) where
  -- The states of the card from that of `fs` on, where nothing is written but the buffer of `fs`, if it
  -- is dirty, to the block of `fs`, and the header block.
  pub data Since : D → Type 0 where
    now : Since fs.sd
    clock : {d : D} → Since d → Since (p.millis d).1
    read : {d : D} (block : ℕ) (dest : List ℕ) → Since d → Since (p.sd_read block dest d).2
    flushed :
        {d : D}
        → fs.cached_block_dirty ≡ true
        → Since d
        → Since (p.sd_write fs.header.block fs.buffer d).1
    header_written : {d : D} (bytes : List ℕ) → Since d → Since (p.sd_write 0 bytes d).1

  -- The bytes are those that `fs` has cached for the block, or what a successful read of the block has
  -- delivered since.
  pub data Source (bytes : List ℕ) (block : ℕ) : Type 0 where
    in_buffer : bytes ≡ fs.buffer → block ≡ fs.cached_block_number → Source bytes block
    from_card :
        (dest : List ℕ) (d : D)
        → Since d
        → (p.sd_read block dest d).0 ≡ true
        → bytes ≡ (p.sd_read block dest d).1
        → Source bytes block

  -- A state between two rounds of the loop, before a search from the offset `start`.
  pub record Between (start : ℕ) (b : Fs D) : Type 0 where
    pub since : Since b.sd
    pub visited : Visited fs.number_of_blocks fs.header.block fs.header.offset b.header.block start
    pub dirty :
        b.cached_block_dirty ≡ true
        → (b.header.block ≡ fs.header.block)
          × (b.buffer ≡ fs.buffer)
          × (fs.cached_block_dirty ≡ true)
    pub held :
        Source b.buffer b.cached_block_number
        ⊎ ((b.cached_block_number ≡ uint32_max) × (b.header.block ≢ uint32_max))

  -- What holds of the header's block in the buffer after it is loaded.
  pub record Brought (b c : Fs D) : Type 0 where
    pub since : Since c.sd
    pub source : Source c.buffer b.header.block
    pub header : c.header ≡ b.header
    pub dirty : c.cached_block_dirty ≡ true → c ≡ b

module _ {D : Type 0} (p : Platform D) where
  pub Between-refl : (fs : Fs D) → Between p fs fs.header.offset fs
  Between-refl fs = record {
    since = Since.now;
    visited = Visited.here;
    dirty = λ is. (refl, refl, is);
    held = inl (Source.in_buffer refl refl);
  }
