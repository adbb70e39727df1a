-- ===== src/Fs/Invariant/Durable.antt =====
-- `fkfs_fsync` on a card that keeps blocks: what it leaves there, and what `fkfs_initialize` picks
-- later.
pub mod OnCard
use fkfs.Base.{
  ℕ, ◌+◌, ◌-◌, ◌%◌, ◌≤◌, ◌<◌, ◌^◌, ◌≡◌, ◌≢◌, true, false, refl, sym, subst, ap, ap₂, ◌∙◌, arith,
  List,
}
use fkfs.Exec.{modify, ◌>>=◌, ◌>>◌}
use fkfs.Exec.Ends.{Ends, Ends-then}
use fkfs.Layout.{Header, decode_header}
use fkfs.Layout.RoundTrip.{HeaderFits}
use fkfs.Platform.{Platform, IsDisk, Reliable}
use fkfs.Fs.{Fs}
use fkfs.Fs.Blocks.{write_block}
use fkfs.Fs.Headers.{header_bytes, header_crc_valid, header_crc_update, header_write}
use fkfs.Fs.Headers.Slots.{Holds}
use fkfs.Fs.Init.{pick_slot}
use fkfs.Fs.Sync.{sync_dirty, fsync, forget_cache, next_slot}
use fkfs.Fs.Invariant.{IsFs}
use fkfs.Fs.Invariant.Sync.{fsync_dirty}
use fkfs.Fs.Invariant.Durable.OnCard.{
  BlockWritten, write_block-BlockWritten, Older, HeaderWritten, header_write-HeaderWritten,
}

module _ {D : Type 0} (p : Platform D) (content : D → ℕ → List ℕ) (disk : IsDisk p content) where
  -- The slot that the header was last in is invalid, or holds no newer header than this one.
  abbrev pub Current : Fs D → Type 0
  Current fs =
      header_crc_valid (header_bytes (content fs.sd 0) fs.header_index) ≡ true
      → (decode_header (header_bytes (content fs.sd 0) fs.header_index)).generation
        ≤ fs.header.generation

  -- What a sync of a dirty block leaves on the card.
  pub record Durable (fs b : Fs D) : Type 0 where
    pub data_block : content b.sd fs.header.block ≡ fs.buffer
    pub header :
        b.header ≡ header_crc_update (record fs.header { generation = fs.header.generation + 1 })
    pub slot : b.header_index ≡ 1 - fs.header_index
    pub holds : Holds (content b.sd 0) b.header_index b.header
    pub picked : pick_slot (content b.sd 0) ≡ b.header_index
    pub kept : (j : ℕ) → 0 ≢ j → fs.header.block ≢ j → content b.sd j ≡ content fs.sd j
    pub clean : b.cached_block_dirty ≡ false

  module _ (fs : Fs D) (h : IsFs fs) (current : Current fs) (outside : fs.header.block ≢ 0)
      (young : fs.header.generation + 1 < 2 ^ 32) where
    -- The state in which the header is written.
    abbrev moved : Fs D → Fs D
    moved a = next_slot (forget_cache a)

    module _ (a : Fs D) (w : BlockWritten p content disk fs.header.block fs.buffer fs a) where
      moved_slot : (moved a).header_index ≡ 1 - fs.header_index
      moved_slot = omega (arith, w.slot, h.slot)

      moved_header : (moved a).header ≡ record fs.header { generation = fs.header.generation + 1 }
      moved_header =
          ap (λ (x : Header). record x { generation = (x.generation + 1) % 2 ^ 32 }) w.header
          ∙ ap (λ (g : ℕ). record fs.header { generation = g })
              {x = (fs.header.generation + 1) % 2 ^ 32} {y = fs.header.generation + 1}
              (omega (arith, young))

      moved_fits : HeaderFits (moved a).header
      moved_fits =
          subst (λ (x : Header). HeaderFits x) (sym moved_header)
            (record {
              version = h.fits.version;
              generation = young;
              block = h.fits.block;
              offset = h.fits.offset;
              time = h.fits.time;
              count = h.fits.count;
              files = h.fits.files;
              crc = h.fits.crc;
            })

      back : 1 - (moved a).header_index ≡ fs.header_index
      back = omega (arith, moved_slot, h.slot)

      moved-Older : Older p content disk (moved a)
      moved-Older v =
          let e : header_bytes (content a.sd 0) (1 - (moved a).header_index)
              ≡ header_bytes (content fs.sd 0) fs.header_index =
            ap₂ header_bytes (w.kept 0 outside) back in
          omega (
            arith,
            current (sym (ap header_crc_valid e) ∙ v),
            ap (λ bs. (decode_header bs).generation) e,
            ap (λ (x : Header). x.generation) moved_header,
          )

      Durable-HeaderWritten :
          (b : Fs D) → HeaderWritten p content disk (moved a) b → Durable fs (forget_cache b)
      Durable-HeaderWritten b v = record {
        data_block = v.kept fs.header.block (λ e. outside (sym e)) ∙ w.stored;
        header = v.header ∙ ap header_crc_update moved_header;
        slot = v.slot ∙ moved_slot;
        holds = v.holds;
        picked = v.picked;
        kept = λ j zero_ne block_ne. v.kept j zero_ne ∙ w.kept j block_ne;
        clean = refl;
      }

    sync_dirty-Durable : Ends (λ _ b. Durable fs b) (λ _. ¬ Reliable p) (sync_dirty p fs)
    unfolding sync_dirty ◌>>=◌ ◌>>◌
    sync_dirty-Durable =
        Ends-then (λ _ b. BlockWritten p content disk fs.header.block fs.buffer fs b)
          (λ _ b. Durable fs b) (λ _. ¬ Reliable p) (write_block p fs.header.block fs.buffer) _ fs
          (write_block-BlockWritten p content disk fs.header.block fs.buffer fs h.bytes)
          λ a w.
            Ends-then (λ _ b. HeaderWritten p content disk (moved a) b) (λ _ b. Durable fs b)
              (λ _. ¬ Reliable p) (header_write p false) (modify forget_cache) (moved a)
              (header_write-HeaderWritten p content disk (moved a) (omega (arith, moved_slot a w))
                (moved_fits a w) (moved-Older a w))
              (λ b v. Durable-HeaderWritten a w b v)

    -- A sync of a dirty block does not fault, and it fails only on a card that is not reliable. Where
    -- it succeeds, the card holds the cached block and,
    -- in the slot that was not in use, the header with the next generation and its checksum, which is
    -- the slot that an initialisation picks; every other block is as before. The header slot in use
    -- must hold no newer header, the block is not the header's, and the generation does not wrap.
    pub fsync-Durable :
        fs.cached_block_dirty ≡ true → Ends (λ _ b. Durable fs b) (λ _. ¬ Reliable p) (fsync p fs)
    fsync-Durable dirty = rw (fsync_dirty p fs dirty) sync_dirty-Durable
