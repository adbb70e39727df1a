-- ===== src/Fs/Invariant/Flush.antt =====
-- `fkfs_touch` and `fkfs_flush` on a card that keeps blocks.
use fkfs.Base.{
  ◌⊎◌, ℕ, ◌+◌, ◌-◌, ◌<◌, ◌^◌, ◌≡◌, ◌≢◌, true, false, Bool-cases, inl, inr, sym, subst, ap, ◌∙◌,
  arith, List,
}
use fkfs.Exec.{◌>>=◌, ◌>>◌}
use fkfs.Exec.Ends.{Ends, Ends-then, Ends-mono, Ends-both}
use fkfs.Layout.{Header, decode_header}
use fkfs.Platform.{Platform, IsDisk, Reliable}
use fkfs.Fs.{Fs}
use fkfs.Fs.Headers.{header_bytes, header_crc_valid, header_crc_update, header_write}
use fkfs.Fs.Headers.Slots.{Holds}
use fkfs.Fs.Init.{pick_slot}
use fkfs.Fs.Sync.{fsync, touch, flush}
use fkfs.Fs.Invariant.{IsFs}
use fkfs.Fs.Invariant.Sync.{Wrote, header_write-Ends, fsync_clean}
use fkfs.Fs.Invariant.Durable.{Current, Durable, fsync-Durable}
use fkfs.Fs.Invariant.Durable.OnCard.{Older, HeaderWritten, header_write-HeaderWritten}

module _ {D : Type 0} (p : Platform D) (content : D → ℕ → List ℕ) (disk : IsDisk p content) where
  abbrev timed : ℕ → Fs D → Fs D
  timed time fs = record fs { header = record fs.header { time = time } }

  -- The header with the time is on the card in the slot in use, and the rest is as before.
  record Touched (time : ℕ) (fs b : Fs D) : Type 0 where
    wrote : Wrote (timed time fs) b
    written : HeaderWritten p content disk (timed time fs) b

  touch-Touched :
      (time : ℕ) (fs : Fs D)
      → IsFs fs
      → time < 2 ^ 32
      → Older p content disk fs
      → Ends (λ _ b. Touched time fs b) (λ _. ¬ Reliable p) (touch p time fs)
  unfolding touch ◌>>◌ ◌>>=◌
  touch-Touched time fs h fits older =
      let h' : IsFs (timed time fs) = record {
        slot = h.slot;
        bytes = h.bytes;
        settings = h.settings;
        fits = record {
          version = h.fits.version;
          generation = h.fits.generation;
          block = h.fits.block;
          offset = h.fits.offset;
          time = fits;
          count = h.fits.count;
          files = h.fits.files;
          crc = h.fits.crc;
        };
      } in
      Ends-mono (λ _ b. Wrote (timed time fs) b × HeaderWritten p content disk (timed time fs) b)
        (λ _ b. Touched time fs b) (λ b. Wrote (timed time fs) b × (¬ Reliable p))
        (λ _. ¬ Reliable p) (header_write p false (timed time fs))
        (Ends-both (λ _ b. Wrote (timed time fs) b)
          (λ _ b. HeaderWritten p content disk (timed time fs) b) (λ b. Wrote (timed time fs) b)
          (λ _. ¬ Reliable p) (header_write p false (timed time fs))
          (header_write-Ends p false (timed time fs) h')
          (header_write-HeaderWritten p content disk (timed time fs) h.slot h'.fits older))
        (λ _ b (w, k). record { wrote = w; written = k }) (λ b (w, k). k)

  -- What a flush leaves: the header with the time on the card, and if a block was dirty, this block
  -- with the next generation of the header in the other slot.
  pub record Flushed (now : ℕ) (fs b : Fs D) : Type 0 where
    pub time : b.header.time ≡ now
    pub block : b.header.block ≡ fs.header.block
    pub offset : b.header.offset ≡ fs.header.offset
    pub files : b.header.files ≡ fs.header.files
    pub holds : Holds (content b.sd 0) b.header_index b.header
    pub picked : pick_slot (content b.sd 0) ≡ b.header_index
    pub kept : (j : ℕ) → 0 ≢ j → fs.header.block ≢ j → content b.sd j ≡ content fs.sd j
    pub clean : b.cached_block_dirty ≡ false
    pub step :
        ((fs.cached_block_dirty ≡ true)
          × (content b.sd fs.header.block ≡ fs.buffer)
          × (b.header.generation ≡ fs.header.generation + 1)
          × (b.header_index ≡ 1 - fs.header_index))
        ⊎ ((fs.cached_block_dirty ≡ false)
            × (content b.sd fs.header.block ≡ content fs.sd fs.header.block)
            × (b.header.generation ≡ fs.header.generation)
            × (b.header_index ≡ fs.header_index))

  Touched-Current : (time : ℕ) (fs b : Fs D) → Touched time fs b → Current p content disk b
  Touched-Current time fs b t v =
      omega (arith, ap (λ (x : Header). x.generation) t.written.holds.reads)

  clean-Flushed :
      (time : ℕ) (fs b : Fs D)
      → Touched time fs b
      → fs.cached_block_dirty ≡ false
      → fs.header.block ≢ 0
      → Flushed time fs b
  unfolding header_crc_update
  clean-Flushed time fs b t clean outside = record {
    time = ap (λ (x : Header). x.time) t.written.header;
    block = t.wrote.place.block;
    offset = t.wrote.place.offset;
    files = t.wrote.files.entries;
    holds = t.written.holds;
    picked = t.written.picked;
    kept = λ j zero_ne block_ne. t.written.kept j zero_ne;
    clean = t.wrote.dirty ∙ clean;
    step = inr (
      clean,
      t.written.kept fs.header.block (λ e. outside (sym e)),
      t.wrote.generation,
      t.wrote.slot,
    );
  }

  dirty-Flushed :
      (time : ℕ) (fs b c : Fs D)
      → Touched time fs b
      → fs.cached_block_dirty ≡ true
      → Durable p content disk b c
      → Flushed time fs c
  unfolding header_crc_update
  dirty-Flushed time fs b c t dirty d =
      let block : b.header.block ≡ fs.header.block = t.wrote.place.block in
      record {
        time = ap (λ (x : Header). x.time) d.header ∙ ap (λ (x : Header). x.time) t.written.header;
        block = ap (λ (x : Header). x.block) d.header ∙ block;
        offset = ap (λ (x : Header). x.offset) d.header ∙ t.wrote.place.offset;
        files = ap (λ (x : Header). x.files) d.header ∙ t.wrote.files.entries;
        holds = d.holds;
        picked = d.picked;
        kept = λ j zero_ne block_ne.
            d.kept j zero_ne (λ e. block_ne (sym block ∙ e)) ∙ t.written.kept j zero_ne;
        clean = d.clean;
        step = inl (
          dirty,
          ap (λ n. content c.sd n) (sym block) ∙ d.data_block ∙ t.wrote.place.buffer,
          ap (λ (x : Header). x.generation) d.header ∙ ap (λ n. n + 1) t.wrote.generation,
          d.slot ∙ ap (λ n. 1 - n) t.wrote.slot,
        );
      }

  touch-fsync :
      (time : ℕ) (fs : Fs D)
      → IsFs fs
      → time < 2 ^ 32
      → Older p content disk fs
      → fs.header.block ≢ 0
      → fs.header.generation + 1 < 2 ^ 32
      → Ends (λ _ b. Flushed time fs b) (λ _. ¬ Reliable p) ((touch p time >> fsync p) fs)
  touch-fsync time fs h fits older outside young =
      Ends-then (λ _ b. Touched time fs b) (λ _ b. Flushed time fs b) (λ _. ¬ Reliable p)
        (touch p time) (fsync p) fs (touch-Touched time fs h fits older)
        λ b t. elim (Bool-cases fs.cached_block_dirty) [
          | inl dirty ↦
              Ends-mono (λ _ c. Durable p content disk b c) (λ _ c. Flushed time fs c)
                (λ _. ¬ Reliable p) (λ _. ¬ Reliable p) (fsync p b)
                (fsync-Durable p content disk b t.wrote.is_fs (Touched-Current time fs b t)
                  (λ e. outside (sym t.wrote.place.block ∙ e))
                  (omega (arith, young, t.wrote.generation)) (t.wrote.dirty ∙ dirty))
                (λ _ c d. dirty-Flushed time fs b c t dirty d) (λ _ u. u)
          | inr clean ↦
              rw (fsync_clean p b (t.wrote.dirty ∙ clean)) (clean-Flushed time fs b t clean outside)
        ]

  -- The reading of the clock leaves the card as it is.
  from_later :
      (now : ℕ) (fs b : Fs D)
      → Flushed now (record fs { sd = (p.millis fs.sd).1 }) b
      → Flushed now fs b
  from_later now fs b k = record {
    time = k.time;
    block = k.block;
    offset = k.offset;
    files = k.files;
    holds = k.holds;
    picked = k.picked;
    kept = λ j zero_ne block_ne. k.kept j zero_ne block_ne ∙ disk.millis_keeps j fs.sd;
    clean = k.clean;
    step = elim k.step [
      | inl written ↦ inl written
      | inr (clean, same, generation, slot) ↦
          inr (clean, same ∙ disk.millis_keeps fs.header.block fs.sd, generation, slot)
    ];
  }

  -- A flush does not fault, and it fails only on a card that is not reliable. Where it succeeds, the
  -- card holds the header with the time, in the slot that an initialisation picks, and no block but the
  -- header's and the cached one has changed. If a block was dirty, the card holds it, and the header
  -- has the next generation in the other slot; if none was, the header is in its slot as before. The
  -- other slot must hold no header of this generation or a newer one, the block is not the header's,
  -- and time and generation fit 32 bits.
  pub flush-Flushed :
      (fs : Fs D)
      → IsFs fs
      → (p.millis fs.sd).0 < 2 ^ 32
      → Older p content disk fs
      → fs.header.block ≢ 0
      → fs.header.generation + 1 < 2 ^ 32
      → Ends (λ _ b. Flushed (p.millis fs.sd).0 fs b) (λ _. ¬ Reliable p) (flush p fs)
  unfolding flush ◌>>=◌
  flush-Flushed fs h fits older outside young =
      let later : Fs D = record fs { sd = (p.millis fs.sd).1 } in
      Ends-mono (λ _ b. Flushed (p.millis fs.sd).0 later b) (λ _ b. Flushed (p.millis fs.sd).0 fs b)
        (λ _. ¬ Reliable p) (λ _. ¬ Reliable p) ((touch p (p.millis fs.sd).0 >> fsync p) later)
        (touch-fsync (p.millis fs.sd).0 later
          (record { slot = h.slot; bytes = h.bytes; settings = h.settings; fits = h.fits }) fits
          (subst
            (λ (x : List ℕ).
              header_crc_valid (header_bytes x (1 - fs.header_index)) ≡ true
              → (decode_header (header_bytes x (1 - fs.header_index))).generation
                < fs.header.generation)
            (sym (disk.millis_keeps 0 fs.sd)) older)
          outside young)
        (λ _ b k. from_later (p.millis fs.sd).0 fs b k) (λ _ u. u)
