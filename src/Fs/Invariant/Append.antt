-- ===== src/Fs/Invariant/Append.antt =====
-- `fkfs_file_append` as a whole: the guards, the allocation, the write of the entry and the sync.
pub mod InBlock
pub mod AfterSync
use fkfs.Base.{
  ℕ, zero, suc, [], ◌∷◌, ◌+◌, ◌%◌, ◌^◌, ◌≤◌, ◌<◌, ◌≡◌, ◌≢◌, ◌⊎◌, inl, inr, Bool, true, false, not,
  ◌||◌, ◌==◌, refl, sym, subst, ap, ap₂, ◌∙◌, arith, List, length, get_or, get_elem?-some, set,
  take, length-take, length-set, leb, ltb, get_or-set_self, get_or-set_ne,
}
use fkfs.Base.Memory.{read_from-inside, length-overwrite}
use fkfs.Exec.{ok, ◌>>=◌, ◌>>◌}
use fkfs.Exec.Ends.{Ends, Ends-then, Ends-skip, Ends-mono}
use fkfs.Layout.{File, Entry, decode_entry}
use fkfs.Layout.RoundTrip.{FileFits, FilesFit}
use fkfs.Platform.{Platform}
use fkfs.Fs.{Fs, file_at, put_file, blank_file, blank_settings, add32}
use fkfs.Fs.Check.{good, block_check, check_entry, entry_at, bytes_at}
use fkfs.Fs.Check
use fkfs.Fs.Check.Room.{IsRoom, block_check-plain}
use fkfs.Fs.Sync.{fsync}
use fkfs.Fs.Append.{file_append, file_allocate_block, write_entry, sync_unless, sync_file}
use fkfs.Fs.Append.Written.{entry_for, appended, Fits, write_entry_lem, write_entry-reads}
use fkfs.Fs.Invariant.{IsFs, ReadsBlocks}
use fkfs.Fs.Invariant.Sync.{Synced, fsync-Ends}
use fkfs.Fs.Invariant.Allocate.{Kept, own_priority, Allocated}
use fkfs.Fs.Invariant.Allocate.Round.{settings_at-some}
use fkfs.Fs.Invariant.Allocate.Loop.{file_allocate_block-Ends}
use fkfs.Fs.Invariant.Append.InBlock.{Stored, file_of, write_entry-written, written-Stored}
use fkfs.Fs.Invariant.Append.AfterSync.{Stored-Synced}

module _ {D : Type 0} (p : Platform D) where
  -- What an append that fails leaves: the files as they were or, where the sync at its end has failed,
  -- the entry stored all the same.
  abbrev pub NotDone : ℕ → List ℕ → Fs D → Fs D → Type 0
  NotDone number bytes fs b = Kept fs b ⊎ Stored p number bytes fs b

  module _ (reads : ReadsBlocks p) where
    sync_unless-Ends :
        (number : ℕ) (bytes : List ℕ) (fs b : Fs D)
        → Stored p number bytes fs b
        → (off : Bool)
        → Ends
            (λ _ c. Stored p number bytes fs c)
            (λ c. Stored p number bytes fs c)
            (sync_unless p off b)
    sync_unless-Ends number bytes fs b s true = s
    sync_unless-Ends number bytes fs b s false =
        Ends-mono (λ _ c. Synced b c) (λ _ c. Stored p number bytes fs c) (λ c. Synced b c)
          (λ c. Stored p number bytes fs c) (fsync p b) (fsync-Ends p b s.is_fs)
          (λ _ c y. Stored-Synced p number bytes s y) (λ c y. Stored-Synced p number bytes s y)

    sync_file-Ends :
        (number : ℕ) (bytes : List ℕ) (fs b : Fs D)
        → number < 4
        → Stored p number bytes fs b
        → Ends
            (λ _ c. Stored p number bytes fs c)
            (λ c. Stored p number bytes fs c)
            (sync_file p number b)
    unfolding sync_file ◌>>=◌
    sync_file-Ends number bytes fs b lt s =
        rw (settings_at-some p reads number b s.is_fs lt)
          (sync_unless-Ends number bytes fs b s ((get_or b.files number blank_settings).sync == 0))

    -- The write and the sync behind an allocation.
    finish-Ends :
        (number : ℕ) (bytes : List ℕ) (fs c : Fs D)
        → IsFs fs
        → number < 4
        → 0 < length bytes
        → Allocated p number (7 + length bytes) fs c
        → Ends
            (λ _ b. Stored p number bytes fs b)
            (λ b. Stored p number bytes fs b)
            ((write_entry p number (7 + length bytes) (length bytes) bytes >> sync_file p number) c)
    unfolding ◌>>◌ ◌>>=◌
    finish-Ends number bytes fs c h lt some_data a =
        rw (write_entry-written p number bytes fs c h lt some_data a) (
          sync_file-Ends number bytes fs _ lt (written-Stored p number bytes fs c h lt some_data a))

    file_at-some :
        (number : ℕ) (fs : Fs D)
        → IsFs fs
        → number < 4
        → file_at number fs ≡ (ok (file_of p number fs), fs)
    unfolding file_at
    file_at-some number fs h lt =
        rw (get_elem?-some fs.header.files number blank_file (omega (arith, h.fits.count))) refl

    pub file_append-Ends :
        (number size : ℕ) (bytes : List ℕ) (fs : Fs D)
        → IsFs fs
        → number < 4
        → 0 < size
        → size ≤ 505
        → size ≤ length bytes
        → Ends
            (λ _ b. Stored p number (take size bytes) fs b)
            (λ b. NotDone number (take size bytes) fs b)
            (file_append p number size bytes fs)
    unfolding file_append ◌>>=◌
    file_append-Ends number size bytes fs h lt some_data small given =
        rw (file_at-some number fs h lt, required_eq, guard)
          (Ends-skip (λ _ b. Stored p number (take size bytes) fs b)
            (λ b. NotDone number (take size bytes) fs b) _ fs
            (Ends-then (λ _ c. Allocated p number (7 + size) fs c)
              (λ _ b. Stored p number (take size bytes) fs b)
              (λ b. NotDone number (take size bytes) fs b) (file_allocate_block p number (7 + size))
              _ fs
              (Ends-mono (λ _ c. Allocated p number (7 + size) fs c)
                (λ _ c. Allocated p number (7 + size) fs c) (λ c. Kept fs c)
                (λ c. NotDone number (take size bytes) fs c)
                (file_allocate_block p number (7 + size) fs)
                (file_allocate_block-Ends p reads number (7 + size) fs h lt (omega arith)
                  (omega arith))
                (λ _ c a. a) (λ c k. inl k))
              (λ c a. rw inside (
                Ends-skip (λ _ b. Stored p number (take size bytes) fs b)
                  (λ b. NotDone number (take size bytes) fs b) _ c
                  (Ends-mono (λ _ b. Stored p number (take size bytes) fs b)
                    (λ _ b. Stored p number (take size bytes) fs b)
                    (λ b. Stored p number (take size bytes) fs b)
                    (λ b. NotDone number (take size bytes) fs b)
                    ((write_entry p number (7 + size) size (take size bytes) >> sync_file p number)
                      c)
                    (finish c a) (λ _ _ q. q) (λ _ q. inr q))))))
      where
        required_eq : (7 + size) % 2 ^ 16 ≡ 7 + size
        required_eq = omega arith

        guard : not (size == 0 || ltb 512 (7 + size)) ≡ true
        guard = ground arith

        inside : leb size (length bytes) ≡ true
        inside = ground arith

        taken : length (take size bytes) ≡ size
        taken = length-take size bytes ∙ omega arith

        finish :
            (c : Fs D)
            → Allocated p number (7 + size) fs c
            → Ends
                (λ _ b. Stored p number (take size bytes) fs b)
                (λ b. Stored p number (take size bytes) fs b)
                ((write_entry p number (7 + size) size (take size bytes) >> sync_file p number) c)
        finish c a =
            subst
              (λ (n : ℕ).
                Ends (λ _ b. Stored p number (take size bytes) fs b)
                  (λ b. Stored p number (take size bytes) fs b)
                  ((write_entry p number (7 + n) n (take size bytes) >> sync_file p number) c))
              taken
              (finish-Ends number (take size bytes) fs c h lt (omega (arith, taken))
                (subst (λ (n : ℕ). Allocated p number (7 + n) fs c) (sym taken) a))
