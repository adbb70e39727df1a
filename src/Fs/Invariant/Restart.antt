-- ===== src/Fs/Invariant/Restart.antt =====
-- A sync, and an initialisation of another `fkfs_t` on the same card later.
use fkfs.Base.{◌+◌, ◌-◌, ◌<◌, ◌^◌, ◌≡◌, ◌≢◌, length, ℕ, true, false, ap, sym, ◌∙◌, arith, List}
use fkfs.Exec.{ok}
use fkfs.Exec.Ends.{Ends, Ends-mono}
use fkfs.Layout.{Header}
use fkfs.Platform.{Platform, IsDisk, Reliable}
use fkfs.Fs.{Fs}
use fkfs.Fs.Headers.{header_crc_update}
use fkfs.Fs.Headers.Slots.{Holds}
use fkfs.Fs.Init.{pick_slot, copy_names, initialize}
use fkfs.Fs.Sync.{fsync}
use fkfs.Fs.Invariant.{IsFs}
use fkfs.Fs.Invariant.Durable.{Current, Durable, fsync-Durable}
use fkfs.Fs.Invariant.Recovery.{Recovered, initialize-Recovered}
use fkfs.Base.{subst}

module _ {D : Type 0} (p : Platform D) (content : D → ℕ → List ℕ) (disk : IsDisk p content) where
  -- `fs` is what was synced, `fresh` the state before the initialisation and `c` the one behind it.
  pub record Restarted (fs fresh c : Fs D) : Type 0 where
    pub generation : c.header.generation ≡ fs.header.generation + 1
    pub block : c.header.block ≡ fs.header.block
    pub offset : c.header.offset ≡ fs.header.offset
    pub files : c.header.files ≡ copy_names fs.header.files fresh.header.files
    pub slot : c.header_index ≡ 1 - fs.header_index
    pub data_block : content c.sd fs.header.block ≡ fs.buffer
    pub whole : length c.buffer ≡ 512
    pub cached : c.cached_block_number ≡ fresh.cached_block_number

  next_header : Fs D → Header
  next_header fs = header_crc_update (record fs.header { generation = fs.header.generation + 1 })

  Restarted-Recovered :
      (fs b fresh c : Fs D)
      → Durable p content disk fs b
      → ((j : ℕ) → content fresh.sd j ≡ content b.sd j)
      → Recovered p content disk b.header_index b.header fresh c
      → Restarted fs fresh c
  unfolding header_crc_update
  Restarted-Recovered fs b fresh c d same r = record {
    generation =
        ap (λ (x : Header). x.generation) r.header ∙ ap (λ (x : Header). x.generation) d.header;
    block = ap (λ (x : Header). x.block) r.header ∙ ap (λ (x : Header). x.block) d.header;
    offset = ap (λ (x : Header). x.offset) r.header ∙ ap (λ (x : Header). x.offset) d.header;
    files =
        ap (λ (x : Header). x.files) r.header
        ∙ ap (λ (x : Header). copy_names x.files fresh.header.files) d.header;
    slot = r.slot ∙ d.slot;
    data_block = r.kept fs.header.block ∙ same fs.header.block ∙ d.data_block;
    whole = r.whole;
    cached = r.cached;
  }

  -- After a successful sync of a dirty block, an initialisation, not told to wipe, of any other
  -- state on a card with the same blocks does not fault, and fails only on a card that is not
  -- reliable. Where it succeeds it stands where the synced state stood: the next generation, the same
  -- block, offset and files, under the names of the new state, in the other slot, with the synced
  -- block on the card. The header slot in use must hold no newer header, the block is not the
  -- header's, and the generation does not wrap.
  pub fsync-initialize :
      (fs b fresh : Fs D)
      → IsFs fs
      → Current p content disk fs
      → fs.header.block ≢ 0
      → fs.header.generation + 1 < 2 ^ 32
      → fs.cached_block_dirty ≡ true
      → fsync p fs ≡ (ok tt, b)
      → length fresh.buffer ≡ 512
      → ((j : ℕ) → content fresh.sd j ≡ content b.sd j)
      → Ends (λ _ c. Restarted fs fresh c) (λ _. ¬ Reliable p) (initialize p false fresh)
  fsync-initialize fs b fresh h current outside young dirty synced full same =
      let d : Durable p content disk fs b =
        subst (Ends (λ _ b. Durable p content disk fs b) (λ _. ¬ Reliable p)) synced
          (fsync-Durable p content disk fs h current outside young dirty) in
      Ends-mono (λ _ c. Recovered p content disk b.header_index b.header fresh c)
        (λ _ c. Restarted fs fresh c) (λ _. ¬ Reliable p) (λ _. ¬ Reliable p)
        (initialize p false fresh)
        (initialize-Recovered p content disk b.header_index b.header (omega (arith, d.slot, h.slot))
          fresh full
          (subst (λ (x : List ℕ). Holds x b.header_index b.header) (sym (same 0)) d.holds)
          (ap pick_slot (same 0) ∙ d.picked))
        (λ _ c r. Restarted-Recovered fs b fresh c d same r) (λ _ u. u)
