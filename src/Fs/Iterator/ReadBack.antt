-- ===== src/Fs/Iterator/ReadBack.antt =====
-- `fkfs_file_append`, and `fkfs_file_iterate` from the new entry on.
use fkfs.Base.{
  ℕ, suc, ◌+◌, ◌<◌, ◌≡◌, true, false, not, ◌&&◌, refl, ap, ap₂, ◌∙◌, ◌==◌, ==_iff, arith, List,
  length,
}
use fkfs.Exec.{Result, ok, failed, fault, ◌>>=◌, ◌>>◌}
use fkfs.Exec.Ends.{Ends, Ends-modify, Ends-gets, Ends-cases}
use fkfs.Layout.{Entry}
use fkfs.Platform.{Platform}
use fkfs.Fs.{Fs}
use fkfs.Fs.Blocks.{block_ensure}
use fkfs.Fs.Check.{good, block_check, entry_at, bytes_at}
use fkfs.Fs.Append.Written.{entry_for}
use fkfs.Fs.Invariant.Sync.{Synced}
use fkfs.Fs.Invariant.Append.InBlock.{Stored, file_of}
use fkfs.Fs.Invariant.Append.AfterSync.{bytes_at-buffer, entry_at-Synced, block_check-Synced}
use fkfs.Fs.Iterator.Block.{deliver-Pointed}
use fkfs.Fs.Iterator.{
  Verdict, token_of, Config, Iter, finish, State, now, deliver, iterator_valid, iterator_done,
  scan_entry, scan_round, scan_loop, close_scan, count_call, file_iterate,
}

module _ {D : Type 0} (p : Platform D) where
  block_ensure-cached :
      (block : ℕ) (fs : Fs D)
      → fs.cached_block_number ≡ block
      → block_ensure p block fs ≡ (ok tt, fs)
  unfolding block_ensure
  block_ensure-cached block fs cached =
      rw (block_ensure, (==_iff fs.cached_block_number block).1 cached) refl

  pub scan_entry-here :
      (config : Config) (started left : ℕ) (fs : Fs D) (iter : Iter)
      → block_check p fs fs.buffer iter.token.offset ≡ good
      → (entry_at p fs.sd fs.buffer iter.token.offset).file ≡ iter.token.file
      → scan_entry p config started left (fs, iter) ≡ (
        ok (finish true),
        (fs, deliver p config (entry_at p fs.sd fs.buffer iter.token.offset) iter),
      )
  unfolding scan_entry
  scan_entry-here config started left fs iter checked own =
      let mine : ((entry_at p fs.sd fs.buffer iter.token.offset).file == iter.token.file) ≡ true =
        (==_iff (entry_at p fs.sd fs.buffer iter.token.offset).file iter.token.file).1 own in
      rw (scan_entry, checked, mine) refl

  -- A round of the loop at a good entry of the file, in the block that is in the cache.
  scan_round-here :
      (config : Config) (started left : ℕ) (fs : Fs D) (iter : Iter)
      → fs.cached_block_number ≡ iter.token.block
      → block_check p fs fs.buffer iter.token.offset ≡ good
      → (entry_at p fs.sd fs.buffer iter.token.offset).file ≡ iter.token.file
      → scan_round p config started left (fs, iter) ≡ (
        ok (finish true),
        (fs, deliver p config (entry_at p fs.sd fs.buffer iter.token.offset) iter),
      )
  unfolding scan_round
  scan_round-here config started left fs iter cached checked own =
      ap
        (λ (r : Result (Unit {0}) × Fs D).
          elim r.0 as (λ (x : Result (Unit {0})). Result Verdict × State p) [
            | ok _ ↦ scan_entry p config started left (r.1, iter)
            | failed ↦ (ok (finish false), (r.1, iter))
            | fault e ↦ (fault e, (r.1, iter))
          ])
        (block_ensure-cached iter.token.block fs cached)
      ∙ scan_entry-here config started left fs iter checked own

  scan_loop-here :
      (config : Config) (started fuel last_status left : ℕ) (fs : Fs D) (iter : Iter)
      → fs.cached_block_number ≡ iter.token.block
      → block_check p fs fs.buffer iter.token.offset ≡ good
      → (entry_at p fs.sd fs.buffer iter.token.offset).file ≡ iter.token.file
      → scan_loop p config started (suc fuel) last_status left (fs, iter)
        ≡ (ok true, (fs, deliver p config (entry_at p fs.sd fs.buffer iter.token.offset) iter))
  unfolding scan_loop ◌>>=◌
  scan_loop-here config started fuel last_status left fs iter cached checked own =
      rw (scan_round-here config started left fs iter cached checked own) refl

  -- The iterator points to the bytes in the cached block.
  pub record Points (bytes : List ℕ) (s : State p) : Type 0 where
    pub size : s.1.size ≡ length bytes
    pub contents : bytes_at p s.0.sd s.0.buffer s.1.pointer s.1.size ≡ bytes

  module _ (number : ℕ) (bytes : List ℕ) (fs b : Fs D) (s : Stored p number bytes fs b)
      (iter : Iter) where
    -- The iterator that is reopened at the new entry.
    abbrev pub at_entry : Iter
    at_entry = record iter {
      token = token_of number (file_of p number b) b.header.block s.found.offset;
    }

    abbrev pub entry : Entry
    entry = entry_for number (file_of p number fs) (length bytes) bytes

    abbrev pub later : D → Fs D
    later d = record (count_call p b) { sd = d }

    same : (d : D) → Synced b (later d)
    same d = record {
      is_fs = record {
        slot = s.is_fs.slot;
        bytes = s.is_fs.bytes;
        settings = s.is_fs.settings;
        fits = s.is_fs.fits;
      };
      files = record { settings = refl; entries = refl; blocks = refl };
      place = record { block = refl; offset = refl; buffer = refl };
    }

    pub entry-later : (d : D) → entry_at p d b.buffer s.found.offset ≡ entry
    entry-later d =
        entry_at-Synced p s.is_fs (same d) s.found.offset (omega (arith, s.room.1)) ∙ s.entry

    pub checked-later : (d : D) → block_check p (later d) b.buffer s.found.offset ≡ good
    checked-later d =
        block_check-Synced p s.is_fs (same d) s.found.offset (omega (arith, s.room.1)) s.entry
        ∙ s.checked

    may_enter :
        0 < length bytes
        → 0 < b.header.block
        → (iterator_valid (count_call p b) at_entry && not (iterator_done at_entry)) ≡ true
    unfolding iterator_valid iterator_done
    may_enter some_data placed = rw s.file (ground arith)

    closed-Points :
        (config : Config) (started : ℕ) (d : D)
        → Ends
            (λ _ x. Points bytes x)
            (λ _. ⊥)
            (close_scan p started true
              (later d, deliver p config (entry_at p d b.buffer s.found.offset) at_entry))
    unfolding close_scan now ◌>>=◌ ◌>>◌
    closed-Points config started d =
        let made = deliver-Pointed p config (entry_at p d b.buffer s.found.offset) at_entry in
        let after = deliver p config (entry_at p d b.buffer s.found.offset) at_entry in
        let size : after.size ≡ length bytes =
          made.size ∙ ap (λ (e : Entry). e.size) (entry-later d) in
        record {
          size = size;
          contents =
              ap₂ (λ i n. bytes_at p (p.millis d).1 b.buffer i n) made.pointer size
              ∙ bytes_at-buffer p (p.millis d).1 b.sd b.buffer (s.found.offset + 7) (length bytes)
                  (omega (arith, s.room.1, s.is_fs.bytes))
              ∙ s.contents;
        }

    scanned-Points :
        (fuel : ℕ) (config : Config)
        → b.cached_block_number ≡ b.header.block
        → Ends
            (λ _ x. Points bytes x)
            (λ _. ⊥)
            ((now p >>= λ started.
                scan_loop p config started (suc fuel) started config.max_blocks >>= λ success.
                close_scan p started success)
              (count_call p b, at_entry))
    unfolding now ◌>>=◌
    scanned-Points fuel config cached =
        let d = (p.millis b.sd).1 in
        rw
          (scan_loop-here config (p.millis b.sd).0 fuel (p.millis b.sd).0 config.max_blocks
            (later d) at_entry cached (checked-later d)
            (ap (λ (e : Entry). e.file) (entry-later d)))
          (closed-Points config (p.millis b.sd).0 d)

    -- Behind an append, as file_append-Ends describes it, of at least a byte, with the block still in the
    -- cache and not block 0, an iteration over the file that starts at the new entry succeeds in its first
    -- round, and points to the bytes that were appended.
    pub append-iterate :
        0 < length bytes
        → 0 < b.header.block
        → b.cached_block_number ≡ b.header.block
        → (fuel : ℕ) (config : Config)
        → Ends (λ _ x. Points bytes x) (λ _. ⊥) (file_iterate p (suc fuel) config (b, at_entry))
    unfolding file_iterate
    append-iterate some_data placed cached fuel config =
        Ends-modify (λ _ x. Points bytes x) (λ _. ⊥) _ _ (b, at_entry)
          (Ends-gets (λ _ x. Points bytes x) (λ _. ⊥) _ _ _
            (Ends-cases (λ _ x. Points bytes x) (λ _. ⊥)
              (iterator_valid (count_call p b) at_entry && not (iterator_done at_entry)) _ _ _
              (λ _. scanned-Points fuel config cached)
              (λ refused. absurd (ground (arith, refused, may_enter some_data placed)))))
