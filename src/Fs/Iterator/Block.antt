-- ===== src/Fs/Iterator/Block.antt =====
-- A round of `fkfs_file_iterate`: the block in the buffer, the checks of an entry, and the delivery.
use fkfs.Base.{
  ◌%◌, ◌^◌, List, subst, ◌⊎◌, ◌<◌, ℕ, ◌+◌, ◌≡◌, ◌∙◌, Bool, true, false, refl, Bool-cases, inl, inr,
  ◌==◌, ==_iff, arith, length,
}
use fkfs.Exec.Ends.{Ends, Ends-choose}
use fkfs.Layout.{Entry}
use fkfs.Platform.{Platform, IsDisk, Reliable}
use fkfs.Fs.{Fs}
use fkfs.Fs.Blocks.{read_block, load_block, block_ensure}
use fkfs.Fs.Check.{Status, good, bad_size, bad_crc, block_check, check_entry, entry_at}
use fkfs.Fs.Check.Room.{block_check-cases}
use fkfs.Fs.Iterator.{Config, Iter, deliver}

module _ {D : Type 0} (p : Platform D) where
  pub crc-available :
      (fs : Fs D) (offset : ℕ)
      → block_check p fs fs.buffer offset ≡ bad_crc
      → (0 < (entry_at p fs.sd fs.buffer offset).available)
        × ((entry_at p fs.sd fs.buffer offset).available < 512)
  unfolding block_check check_entry
  crc-available fs offset h = ground (arith, h)

  pub only_answers :
      (fs : Fs D) (offset : ℕ) (status : Status)
      → block_check p fs fs.buffer offset ≡ status
      → (status ≡ good) ⊎ (status ≡ bad_size) ⊎ (status ≡ bad_crc)
  only_answers fs offset status e =
      subst (λ x. (x ≡ good) ⊎ (x ≡ bad_size) ⊎ (x ≡ bad_crc)) e
        (block_check-cases p fs fs.buffer offset)

  -- What the iterator holds of an entry that it delivers. Unless the token is to stay, it moves on.
  pub record Pointed (config : Config) (entry : Entry) (iter after : Iter) : Type 0 where
    pub size : after.size ≡ entry.size
    pub pointer : after.pointer ≡ iter.token.offset + 7
    pub last : after.token.last_block ≡ iter.token.last_block
    pub block : after.token.block ≡ iter.token.block
    pub offset :
        config.manual_next ≡ false
        → after.token.offset ≡ (iter.token.offset + (entry.available + 7)) % 2 ^ 16

  pub deliver-Pointed :
      (config : Config) (entry : Entry) (iter : Iter)
      → Pointed config entry iter (deliver p config entry iter)
  unfolding deliver
  deliver-Pointed config entry iter = by_manual config.manual_next refl
    where
      by_manual :
          (b : Bool)
          → config.manual_next ≡ b
          → Pointed config entry iter (deliver p (record config { manual_next = b }) entry iter)
      by_manual true e = record {
        size = refl;
        pointer = refl;
        last = refl;
        block = refl;
        offset = λ moving. absurd (ground (arith, e, moving));
      }
      by_manual false e = record {
        size = refl;
        pointer = refl;
        last = refl;
        block = refl;
        offset = λ _. refl;
      }

  module _ (content : D → ℕ → List ℕ) (disk : IsDisk p content) where
    -- The block is in the buffer; nothing else of what the scan reads has changed.
    pub record InBuffer (block : ℕ) (fs b : Fs D) : Type 0 where
      pub whole : length b.buffer ≡ 512
      pub header : b.header ≡ fs.header
      pub blocks : b.number_of_blocks ≡ fs.number_of_blocks
      pub card : (j : ℕ) → content b.sd j ≡ content fs.sd j
      pub cached : b.cached_block_number ≡ block
      pub buffer :
          (b.buffer ≡ content fs.sd block)
          ⊎ ((fs.cached_block_number ≡ block) × (b.buffer ≡ fs.buffer))

    pub block_ensure-InBuffer :
        (block : ℕ) (fs : Fs D)
        → length fs.buffer ≡ 512
        → Ends
            (λ _ b. InBuffer block fs b)
            (λ b. (¬ Reliable p) × (b.header ≡ fs.header))
            (block_ensure p block fs)
    unfolding block_ensure load_block read_block
    block_ensure-InBuffer block fs whole =
        Ends-choose _ _ (fs.cached_block_number == block) _ _
          (λ same.
            let is : fs.cached_block_number ≡ block =
              (==_iff fs.cached_block_number block).0 same in
            record {
              whole = whole;
              header = refl;
              blocks = refl;
              card = λ j. refl;
              cached = is;
              buffer = inr (is, refl);
            })
          (λ _.
            let d = (p.millis fs.sd).1 in
            let r = p.sd_read block fs.buffer d in
            elim (Bool-cases r.0) [
              | inl done ↦ rw done (record {
                whole = disk.read_length block fs.buffer d ∙ whole;
                header = refl;
                blocks = refl;
                card = λ j.
                    disk.millis_keeps j r.2
                    ∙ disk.read_keeps block j fs.buffer d
                    ∙ disk.millis_keeps j fs.sd;
                cached = refl;
                buffer =
                    inl (disk.read_status block fs.buffer d done ∙ disk.millis_keeps block fs.sd);
              })
              | inr bad ↦
                  rw bad (λ k. absurd (ground (arith, bad, k.reads block fs.buffer d whole)), refl)
            ])
