-- ===== src/Fs/Invariant/Sync.antt =====
-- `fkfs_header_write` and `fkfs_fsync` under the invariant, on any card.
use fkfs.Base.{
  ℕ, Bool-cases, inl, inr, ◌+◌, ◌*◌, leb, ◌≡◌, Bool, true, false, refl, arith, List, ◌∙◌,
}
use fkfs.Exec.{modify, ok, ◌>>=◌, ◌>>◌}
use fkfs.Exec.Ends.{Ends, Ends-bind, Ends-then, Ends-mono}
use fkfs.Platform.{Platform}
use fkfs.Fs.{Fs}
use fkfs.Fs.Blocks.{read_block, write_block}
use fkfs.Fs.Headers.{header_crc_update, header_buffer, put_header, header_write}
use fkfs.Fs.Headers.Slots.{header_crc_update-fits}
use fkfs.Fs.Sync.{sync_dirty, fsync, forget_cache, next_slot}
use fkfs.Fs.Invariant.{IsFs, SameFiles, SamePlace}

-- A write of the header changes its checksum, and what the card and the statistics do.
pub record Wrote {D : Type 0} (fs fs' : Fs D) : Type 0 where
  pub is_fs : IsFs fs'
  pub files : SameFiles fs fs'
  pub place : SamePlace fs fs'
  pub generation : fs'.header.generation ≡ fs.header.generation
  pub slot : fs'.header_index ≡ fs.header_index
  pub dirty : fs'.cached_block_dirty ≡ fs.cached_block_dirty
  pub cached : fs'.cached_block_number ≡ fs.cached_block_number

module _ {D : Type 0} where
  pub Wrote-trans : {a b c : Fs D} → Wrote a b → Wrote b c → Wrote a c
  Wrote-trans h k = record {
    is_fs = k.is_fs;
    files = record {
      settings = k.files.settings ∙ h.files.settings;
      entries = k.files.entries ∙ h.files.entries;
      blocks = k.files.blocks ∙ h.files.blocks;
    };
    place = record {
      block = k.place.block ∙ h.place.block;
      offset = k.place.offset ∙ h.place.offset;
      buffer = k.place.buffer ∙ h.place.buffer;
    };
    generation = k.generation ∙ h.generation;
    slot = k.slot ∙ h.slot;
    dirty = k.dirty ∙ h.dirty;
    cached = k.cached ∙ h.cached;
  }

module _ {D : Type 0} (p : Platform D) where
  put_header-Ends :
      (bytes : List ℕ) (fs : Fs D)
      → IsFs fs
      → Ends (λ _ fs'. Wrote fs fs') (λ fs'. Wrote fs fs') (put_header p bytes fs)
  unfolding put_header write_block header_crc_update ◌>>=◌ ◌>>◌
  put_header-Ends bytes fs h =
      let inside : leb (137 * fs.header_index + 137) 512 ≡ true = ground (arith, h.slot) in
      rw inside (ground (arith, header_crc_update-fits fs.header h.fits))

  pub header_buffer-Ends :
      (wipe : Bool) (fs : Fs D)
      → IsFs fs
      → Ends (λ _ fs'. Wrote fs fs') (λ fs'. Wrote fs fs') (header_buffer p wipe fs)
  unfolding header_buffer read_block
  header_buffer-Ends true fs h = ground arith
  header_buffer-Ends false fs h = ground arith

  pub header_write-Ends :
      (wipe : Bool) (fs : Fs D)
      → IsFs fs
      → Ends (λ _ fs'. Wrote fs fs') (λ fs'. Wrote fs fs') (header_write p wipe fs)
  unfolding header_write
  header_write-Ends wipe fs h =
      Ends-bind (λ _ fs'. Wrote fs fs') (λ _ fs'. Wrote fs fs') (λ fs'. Wrote fs fs')
        (header_buffer p wipe) (put_header p) fs (header_buffer-Ends wipe fs h)
        λ bytes fs' w.
          Ends-mono (λ _ b. Wrote fs' b) (λ _ b. Wrote fs b) (λ b. Wrote fs' b) (λ b. Wrote fs b)
            (put_header p bytes fs') (put_header-Ends bytes fs' w.is_fs) (λ _ b v. Wrote-trans w v)
            (λ b v. Wrote-trans w v)

-- What is left as it was by a sync, which moves on to the other slot.
pub record Synced {D : Type 0} (fs fs' : Fs D) : Type 0 where
  pub is_fs : IsFs fs'
  pub files : SameFiles fs fs'
  pub place : SamePlace fs fs'

module _ {D : Type 0} where
  Synced-Wrote : {a b c : Fs D} → Synced a b → Wrote b c → Synced a c
  Synced-Wrote h k = record {
    is_fs = k.is_fs;
    files = record {
      settings = k.files.settings ∙ h.files.settings;
      entries = k.files.entries ∙ h.files.entries;
      blocks = k.files.blocks ∙ h.files.blocks;
    };
    place = record {
      block = k.place.block ∙ h.place.block;
      offset = k.place.offset ∙ h.place.offset;
      buffer = k.place.buffer ∙ h.place.buffer;
    };
  }

  pub forget_cache-Synced : {a b : Fs D} → Synced a b → Synced a (forget_cache b)
  forget_cache-Synced h = ground arith

  pub next_slot-Synced : {a b : Fs D} → Synced a b → Synced a (next_slot b)
  next_slot-Synced h = ground arith

module _ {D : Type 0} (p : Platform D) where
  pub write_block-Ends :
      (block : ℕ) (bytes : List ℕ) (fs : Fs D)
      → IsFs fs
      → Ends (λ _ fs'. Synced fs fs') (λ fs'. Synced fs fs') (write_block p block bytes fs)
  unfolding write_block
  write_block-Ends block bytes fs h = ground arith

  sync_dirty-Ends :
      (fs : Fs D) → IsFs fs → Ends (λ _ fs'. Synced fs fs') (λ fs'. Synced fs fs') (sync_dirty p fs)
  unfolding sync_dirty ◌>>=◌ ◌>>◌
  sync_dirty-Ends fs h =
      Ends-then (λ _ b. Synced fs b) (λ _ b. Synced fs b) (λ b. Synced fs b)
        (write_block p fs.header.block fs.buffer) _ fs
        (write_block-Ends fs.header.block fs.buffer fs h)
        λ s q.
          let ready : Synced fs (next_slot (forget_cache s)) =
            next_slot-Synced (forget_cache-Synced q) in
          Ends-then (λ _ b. Synced fs b) (λ _ b. Synced fs b) (λ b. Synced fs b)
            (header_write p false) (modify forget_cache) (next_slot (forget_cache s))
            (Ends-mono (λ _ b. Wrote (next_slot (forget_cache s)) b) (λ _ b. Synced fs b)
              (λ b. Wrote (next_slot (forget_cache s)) b) (λ b. Synced fs b)
              (header_write p false (next_slot (forget_cache s)))
              (header_write-Ends p false (next_slot (forget_cache s)) ready.is_fs)
              (λ _ b w. Synced-Wrote ready w) (λ b w. Synced-Wrote ready w))
            (λ b w. forget_cache-Synced w)

  pub fsync_dirty : (fs : Fs D) → fs.cached_block_dirty ≡ true → fsync p fs ≡ sync_dirty p fs
  unfolding fsync
  fsync_dirty fs e = ground arith

  pub fsync_clean : (fs : Fs D) → fs.cached_block_dirty ≡ false → fsync p fs ≡ (ok tt, fs)
  unfolding fsync
  fsync_clean fs e = ground arith

  -- Under the invariant a sync does not fault; the invariant holds after it, and the files, the
  -- header's place and the buffer are as before, whether the card fails or not.
  pub fsync-Ends :
      (fs : Fs D) → IsFs fs → Ends (λ _ fs'. Synced fs fs') (λ fs'. Synced fs fs') (fsync p fs)
  fsync-Ends fs h = elim (Bool-cases fs.cached_block_dirty) [
    | inl dirty ↦ rw (fsync_dirty fs dirty) (sync_dirty-Ends fs h)
    | inr clean ↦ rw (fsync_clean fs clean) (record {
      is_fs = h;
      files = record { settings = refl; entries = refl; blocks = refl };
      place = record { block = refl; offset = refl; buffer = refl };
    })
  ]
