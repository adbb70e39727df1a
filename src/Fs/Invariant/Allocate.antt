-- ===== src/Fs/Invariant/Allocate.antt =====
-- Finding room for an entry: what holds after the parts of `fkfs_file_allocate_block`.
pub mod Round
pub mod Loop
pub mod Visits
pub mod Leaving
pub mod Moving
use fkfs.Base.{
  ℕ, zero, suc, ◌+◌, ◌%◌, ◌^◌, ◌≤◌, ◌<◌, ◌≡◌, ◌⊎◌, Bool-cases, inl, inr, Bool, true, false, refl,
  sym, subst, ap, arith, length, get_or, get_elem?, ltb, leb, ltb→lt, ltb→le, lt→ltb, le→ltb, List,
  ◌∙◌, Option, none, some, get_elem?-some, ◌==◌, ==_iff,
}
use fkfs.Exec.{Exec, Result, ok, failed, fault, modify, pure, fail, ◌>>=◌, ◌>>◌}
use fkfs.Exec.Ends.{Ends, Ends-bind, Ends-then, Ends-mono}
use fkfs.Layout.{Header}
use fkfs.Layout.RoundTrip.{HeaderFits}
use fkfs.Platform.{Platform}
use fkfs.Fs.{Fs, Settings, settings_at, blank_settings}
use fkfs.Fs.Blocks.{load_block, block_ensure}
use fkfs.Fs.Check.{block_available_offset}
use fkfs.Fs.Check
use fkfs.Fs.Check.Room.{IsRoom, Finds, block_available_offset_lem}
use fkfs.Fs.Sync.{fsync}
use fkfs.Fs.Append.{
  next_block, leave_block, make_room, answer, search_cached, search_block, allocate_loop, at_offset,
  file_allocate_block,
}
use fkfs.Fs.Invariant.{IsFs, SameFiles, SamePlace, ReadsBlocks}
use fkfs.Fs.Invariant.Allocate.Visits.{Visited, Since, Source, Brought}
use fkfs.Fs.Invariant.Sync.{Synced, fsync-Ends}

-- The invariant, and the files as they were.
pub record Kept {D : Type 0} (fs fs' : Fs D) : Type 0 where
  pub is_fs : IsFs fs'
  pub files : SameFiles fs fs'

module _ {D : Type 0} where
  pub Kept-refl : (fs : Fs D) → IsFs fs → Kept fs fs
  Kept-refl fs h = record {
    is_fs = h;
    files = record { settings = refl; entries = refl; blocks = refl };
  }

  pub Kept-trans : {a b c : Fs D} → Kept a b → Kept b c → Kept a c
  Kept-trans h k = record {
    is_fs = k.is_fs;
    files = record {
      settings = k.files.settings ∙ h.files.settings;
      entries = k.files.entries ∙ h.files.entries;
      blocks = k.files.blocks ∙ h.files.blocks;
    };
  }

-- The block is in the buffer, and the header is as before.
pub record BlockEnsured {D : Type 0} (block : ℕ) (fs fs' : Fs D) : Type 0 where
  pub kept : Kept fs fs'
  pub header : fs'.header ≡ fs.header
  pub cached : fs'.cached_block_number ≡ block

module _ {D : Type 0} where
  -- After the test at the loop's head what is required fits behind the offset. The block was left
  -- exactly if it did not fit before.
  pub record Roomy (required new_offset visited : ℕ) (fs : Fs D) (r : ℕ × ℕ) (fs' : Fs D)
      : Type 0 where
    pub kept : Kept fs fs'
    pub fits : r.0 + required ≤ 512
    pub visited_le : r.1 ≤ visited + 1
    pub stayed : required + new_offset ≤ 512 → r.1 ≡ visited
    pub left : 512 < required + new_offset → r.1 ≡ visited + 1

  -- The priority that a file writes with.
  abbrev pub own_priority : ℕ → Fs D → ℕ
  own_priority number fs = (get_or fs.files number blank_settings).priority

module _ {D : Type 0} (p : Platform D) where
  -- The searched block is the header's block, and the search's answer is right.
  pub record Searched (number required start : ℕ) (first fs : Fs D) (r : Bool × Check.Search)
      (fs' : Fs D) : Type 0 where
    pub kept : Kept fs fs'
    pub cached : fs'.cached_block_number ≡ fs'.header.block
    pub brought : Brought p first fs fs'
    pub found : Finds p fs' fs'.buffer (own_priority number fs') required start (some r)

  -- What holds after an allocation: a block was searched from its start or, if it is the header's, from
  -- the header's offset on, with the bytes that were cached for it or read from the card, and the header
  -- stands at the offset that was found there.
  pub record Allocated (number required : ℕ) (fs fs' : Fs D) : Type 0 where
    pub searched : Fs D
    pub start : ℕ
    pub search : Check.Search
    pub kept : Kept fs searched
    pub since : Since p fs searched.sd
    pub source : Source p fs searched.buffer searched.header.block
    pub visited :
        Visited fs.number_of_blocks fs.header.block fs.header.offset searched.header.block start
    pub cached : searched.cached_block_number ≡ searched.header.block
    pub room :
        IsRoom p searched searched.buffer (own_priority number searched) required start search
    pub place : fs' ≡ at_offset p search.offset searched
