-- ===== src/Fs/Invariant/Append/AfterSync.antt =====
-- The sync at the end of `fkfs_file_append` and what the append has stored.
use fkfs.Base.{ℕ, ◌+◌, ◌≤◌, ◌≡◌, sym, ap, ap₂, ◌∙◌, arith, List, length, get_or}
use fkfs.Base.Memory.{read_from-inside}
use fkfs.Layout.{Entry, decode_entry}
use fkfs.Platform.{Platform}
use fkfs.Fs.{Fs, blank_file, add32}
use fkfs.Fs.Check.{block_check, check_entry, entry_at, bytes_at}
use fkfs.Fs.Check.Room.{block_check-plain}
use fkfs.Fs.Invariant.{IsFs}
use fkfs.Fs.Invariant.Sync.{Synced}
use fkfs.Fs.Invariant.Append.InBlock.{Stored, file_of}

module _ {D : Type 0} (p : Platform D) where
  -- In a block's range what is read depends on the buffer alone.
  pub bytes_at-buffer :
      (d d' : D) (buffer : List ℕ) (i n : ℕ)
      → i + n ≤ length buffer
      → bytes_at p d buffer i n ≡ bytes_at p d' buffer i n
  unfolding bytes_at
  bytes_at-buffer d d' buffer i n h = read_from-inside (p.past d) (p.past d') buffer i n h

  module _ {b c : Fs D} (h : IsFs b) (y : Synced b c) where
    pub bytes_at-Synced :
        (i n : ℕ) → i + n ≤ 512 → bytes_at p c.sd c.buffer i n ≡ bytes_at p b.sd b.buffer i n
    bytes_at-Synced i n fits =
        ap (λ (x : List ℕ). bytes_at p c.sd x i n) y.place.buffer
        ∙ bytes_at-buffer c.sd b.sd b.buffer i n (omega (arith, h.bytes))

    pub entry_at-Synced :
        (o : ℕ) → o + 7 ≤ 512 → entry_at p c.sd c.buffer o ≡ entry_at p b.sd b.buffer o
    unfolding entry_at
    entry_at-Synced o fits = ap decode_entry (bytes_at-Synced o 7 fits)

    file_of-Synced : (j : ℕ) → file_of p j c ≡ file_of p j b
    file_of-Synced j = ap (λ fs. get_or fs j blank_file) y.files.entries

    -- An entry whose bytes lie in the block is judged as before.
    pub block_check-Synced :
        (o : ℕ) {e : Entry}
        → o + 7 + e.size ≤ 512
        → entry_at p b.sd b.buffer o ≡ e
        → block_check p c c.buffer o ≡ block_check p b b.buffer o
    block_check-Synced o {e} fits is_e =
        block_check-plain p c c.buffer o
        ∙ ap
            (λ x.
              check_entry x (get_or c.header.files x.file blank_file)
                (bytes_at p c.sd c.buffer (o + 7) x.size))
            (entry_at-Synced o (omega arith) ∙ is_e)
        ∙ ap₂ (λ f bs. check_entry e f bs) (file_of-Synced e.file)
            (bytes_at-Synced (o + 7) e.size (omega arith))
        ∙ sym (
            ap
              (λ x.
                check_entry x (get_or b.header.files x.file blank_file)
                  (bytes_at p b.sd b.buffer (o + 7) x.size))
              is_e)
        ∙ sym (block_check-plain p b b.buffer o)

  -- A sync behind the append keeps all of it.
  pub Stored-Synced :
      (number : ℕ) (bytes : List ℕ) {fs b c : Fs D}
      → Stored p number bytes fs b
      → Synced b c
      → Stored p number bytes fs c
  Stored-Synced number bytes {fs} {b} {c} s y = record {
    searched = s.searched;
    start = s.start;
    found = s.found;
    kept = s.kept;
    since = s.since;
    source = s.source;
    visited = s.visited;
    room = s.room;
    is_fs = y.is_fs;
    checked =
        block_check-Synced s.is_fs y s.found.offset (omega (arith, s.room.1)) s.entry ∙ s.checked;
    entry = entry_at-Synced s.is_fs y s.found.offset (omega (arith, s.room.1)) ∙ s.entry;
    contents =
        bytes_at-Synced s.is_fs y (s.found.offset + 7) (length bytes) (omega (arith, s.room.1))
        ∙ s.contents;
    beside = λ i n in_range out. bytes_at-Synced s.is_fs y i n in_range ∙ s.beside i n in_range out;
    file =
        file_of-Synced s.is_fs y number
        ∙ s.file
        ∙ ap
            (λ (x : ℕ). record (file_of p number fs) {
              end_block = x;
              end_offset = s.found.offset + 7 + length bytes;
              size = add32 (file_of p number fs).size (length bytes);
            })
            (sym y.place.block);
    others = λ j ne. file_of-Synced s.is_fs y j ∙ s.others j ne;
    place = y.place.offset ∙ s.place;
    block = y.place.block ∙ s.block;
    settings = y.files.settings ∙ s.settings;
  }
