-- ===== src/Fs/Invariant/Recovery.antt =====
-- `fkfs_initialize` on a card that holds a header: the state that it starts from.
use fkfs.Base.{
  ◌*◌, ℕ, ◌<◌, ◌≡◌, Bool-cases, inl, inr, false, refl, ap, ap₂, ◌∙◌, arith, List, length, zero, suc,
}
use fkfs.Base.Memory.{overwrite, length-overwrite}
use fkfs.Exec.{◌>>=◌, ◌>>◌}
use fkfs.Exec.Ends.{Ends, Ends-then}
use fkfs.Layout.{File, Header, decode_header}
use mathlib.Core.List.{[], ◌∷◌}
use fkfs.Platform.{Platform, IsDisk, Reliable}
use fkfs.Fs.{Fs}
use fkfs.Fs.Blocks.{read_block, load_block}
use fkfs.Fs.Headers.{header_bytes}
use fkfs.Fs.Headers.Slots.{Holds}
use fkfs.Fs.Init.{pick_slot, copy_names, is_new_card, old_filesystem, statistics_zero, initialize}

is_new_card-Holds :
    (block : List ℕ) (i : ℕ) (h : Header) → i < 2 → Holds block i h → is_new_card block ≡ false
unfolding is_new_card
is_new_card-Holds block zero h lt k = ground (arith, k.valid)
is_new_card-Holds block (suc zero) h lt k = ground (arith, k.valid)
is_new_card-Holds block (suc (suc i)) h lt k = absurd (omega arith)

module _ {D : Type 0} (p : Platform D) (content : D → ℕ → List ℕ) (disk : IsDisk p content) where
  pub record Loaded (fs b : Fs D) : Type 0 where
    pub buffer : b.buffer ≡ content fs.sd 0
    pub kept : (j : ℕ) → content b.sd j ≡ content fs.sd j
    pub header : b.header ≡ fs.header
    pub slot : b.header_index ≡ fs.header_index
    pub whole : length b.buffer ≡ 512
    pub cached : b.cached_block_number ≡ fs.cached_block_number

  pub load_block-Loaded :
      (fs : Fs D)
      → length fs.buffer ≡ 512
      → Ends (λ _ b. Loaded fs b) (λ _. ¬ Reliable p) (load_block p 0 fs)
  unfolding load_block read_block
  load_block-Loaded fs full =
      let d = (p.millis fs.sd).1 in
      let r = p.sd_read 0 fs.buffer d in
      elim (Bool-cases r.0) [
        | inl done ↦ rw done (record {
          buffer = disk.read_status 0 fs.buffer d done ∙ disk.millis_keeps 0 fs.sd;
          kept = λ j.
              disk.millis_keeps j r.2 ∙ disk.read_keeps 0 j fs.buffer d ∙ disk.millis_keeps j fs.sd;
          header = refl;
          slot = refl;
          whole = disk.read_length 0 fs.buffer d ∙ full;
          cached = refl;
        })
        | inr bad ↦ rw bad (λ k. absurd (ground (arith, bad, k.reads 0 fs.buffer d full)))
      ]

  -- The header that the card holds, under the names that the program has set.
  pub record Recovered (i : ℕ) (h : Header) (fs b : Fs D) : Type 0 where
    pub slot : b.header_index ≡ i
    pub header : b.header ≡ record h { files = copy_names h.files fs.header.files }
    pub kept : (j : ℕ) → content b.sd j ≡ content fs.sd j
    pub whole : length b.buffer ≡ 512
    pub cached : b.cached_block_number ≡ fs.cached_block_number

  module _ (i : ℕ) (h : Header) (lt : i < 2) where
    old_filesystem-Recovered :
        (fs b : Fs D)
        → Loaded fs b
        → Holds (content fs.sd 0) i h
        → pick_slot (content fs.sd 0) ≡ i
        → Ends (λ _ c. Recovered i h fs c) (λ _. ¬ Reliable p) (old_filesystem p b)
    unfolding old_filesystem
    old_filesystem-Recovered fs b l k picked =
        let slot : pick_slot b.buffer ≡ i = ap pick_slot l.buffer ∙ picked in
        let found : decode_header (header_bytes b.buffer (pick_slot b.buffer)) ≡ h =
          ap decode_header (ap₂ header_bytes l.buffer slot) ∙ k.reads in
        record {
          slot = slot;
          header =
              ap₂ (λ (x : Header) (owns : List File). record x { files = copy_names x.files owns })
                found (ap (λ (x : Header). x.files) l.header);
          kept = l.kept;
          whole = length-overwrite (137 * pick_slot b.buffer) _ b.buffer ∙ l.whole;
          cached = l.cached;
        }

    -- On a card whose header block has a valid header in the slot that is picked, an initialisation
    -- that may not wipe, with a buffer of a block, does not fault, and it fails only on a card that is
    -- not reliable. Where it succeeds it starts from this header, with the names that are set, and
    -- leaves the card's blocks as they are.
    pub initialize-Recovered :
        (fs : Fs D)
        → length fs.buffer ≡ 512
        → Holds (content fs.sd 0) i h
        → pick_slot (content fs.sd 0) ≡ i
        → Ends (λ _ b. Recovered i h fs b) (λ _. ¬ Reliable p) (initialize p false fs)
    unfolding initialize ◌>>=◌ ◌>>◌ statistics_zero
    initialize-Recovered fs full k picked =
        let (blocks, d) = p.card_size fs.sd in
        let ready : Fs D = statistics_zero (record fs {
          number_of_blocks = blocks;
          sd = d;
          buffer = overwrite 0 (0 ∷ 0 ∷ []) fs.buffer;
        }) in
        Ends-then (λ _ b. Loaded ready b) (λ _ b. Recovered i h fs b) (λ _. ¬ Reliable p)
          (load_block p 0) _ ready (load_block-Loaded ready (length-overwrite 0 _ fs.buffer ∙ full))
          λ b l.
            let from_start : Loaded fs b = record {
              buffer = l.buffer ∙ disk.size_keeps 0 fs.sd;
              kept = λ j. l.kept j ∙ disk.size_keeps j fs.sd;
              header = l.header;
              slot = l.slot;
              whole = l.whole;
              cached = l.cached;
            } in
            let old : is_new_card b.buffer ≡ false =
              ap is_new_card from_start.buffer ∙ is_new_card-Holds (content fs.sd 0) i h lt k in
            rw old (old_filesystem-Recovered fs b from_start k picked)
