-- ===== src/Fs/Invariant.antt =====
-- The invariant of `fkfs_t`: the arrays have their sizes, the slot is one of two, and the header's
-- fields fit their types.
pub mod Sync
pub mod Frame
pub mod Durable
pub mod Flush
pub mod Emptying
pub mod NewCard
pub mod Wipe
pub mod Start
pub mod Recovery
pub mod Restart
pub mod Allocate
pub mod Append
use fkfs.Base.{ℕ, ◌+◌, ◌≤◌, ◌<◌, ◌≡◌, List, length, refl}
use fkfs.Layout.{File}
use fkfs.Layout.RoundTrip.{HeaderFits}
use fkfs.Platform.{Platform}
use fkfs.Fs.{Fs, Settings}

pub record IsFs {D : Type 0} (fs : Fs D) : Type 0 where
  pub slot : fs.header_index < 2
  pub bytes : length fs.buffer ≡ 512
  pub settings : length fs.files ≡ 4
  pub fits : HeaderFits fs.header

-- What no block operation changes: the files and their settings, and the size of the card.
pub record SameFiles {D : Type 0} (fs fs' : Fs D) : Type 0 where
  pub settings : fs'.files ≡ fs.files
  pub entries : fs'.header.files ≡ fs.header.files
  pub blocks : fs'.number_of_blocks ≡ fs.number_of_blocks

-- What a sync does not change beside those: where the header stands, and the buffer.
pub record SamePlace {D : Type 0} (fs fs' : Fs D) : Type 0 where
  pub block : fs'.header.block ≡ fs.header.block
  pub offset : fs'.header.offset ≡ fs.header.offset
  pub buffer : fs'.buffer ≡ fs.buffer

-- A block that is read has the length of the destination that it is read into.
abbrev pub ReadsBlocks : {D : Type 0} → Platform D → Type 0
ReadsBlocks {D} p =
    (block : ℕ) (dest : List ℕ) (d : D) → length (p.sd_read block dest d).1 ≡ length dest
