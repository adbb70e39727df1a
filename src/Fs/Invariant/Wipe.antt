-- ===== src/Fs/Invariant/Wipe.antt =====
-- `fkfs_initialize` from its start, where it makes a new file system.
use fkfs.Base.{ℕ, ◌≡◌, ◌||◌, Bool, true, sym, subst, ap, ◌∙◌, arith, List, [], ◌∷◌}
use fkfs.Base.Memory.{overwrite, length-overwrite}
use fkfs.Exec.{◌>>=◌, ◌>>◌}
use fkfs.Exec.Ends.{Ends, Ends-then, Ends-mono}
use fkfs.Layout.{Header}
use fkfs.Layout.RoundTrip.{HeaderFits}
use fkfs.Platform.{Platform, IsDisk, Reliable}
use fkfs.Fs.{Fs}
use fkfs.Fs.Blocks.{load_block}
use fkfs.Fs.Init.{is_new_card, new_filesystem, initialize, statistics_zero}
use fkfs.Fs.Invariant.{IsFs}
use fkfs.Fs.Invariant.Recovery.{Loaded, load_block-Loaded}
use fkfs.Fs.Invariant.Emptying.{AllEmptied}
use fkfs.Fs.Invariant.NewCard.{NewFs, new_filesystem-New}

module _ {D : Type 0} (p : Platform D) (content : D → ℕ → List ℕ) (disk : IsDisk p content) where
  -- The reading of the header block leaves the card and the header as they are.
  from_Loaded :
      (fs b c : Fs D)
      → Loaded p content disk fs b
      → NewFs p content disk b c
      → NewFs p content disk fs c
  from_Loaded fs b c l n = record {
    block = n.block;
    generation = n.generation;
    files =
        subst (λ olds. AllEmptied 8000 olds c.header.files) (ap (λ (x : Header). x.files) l.header)
          n.files;
    slot = n.slot;
    holds = n.holds;
    picked = n.picked;
    kept = λ j ne. n.kept j ne ∙ l.kept j;
  }

  -- On a card of which neither header is valid, or told to wipe, an initialisation under the invariant
  -- does not fault, and it fails only on a card that is not reliable. Where it succeeds, all files are
  -- empty and start in block 8000, under their names; the header has generation 1, and is on the card
  -- with its checksum, in the slot that a later initialisation picks; every block but the header's is
  -- as before.
  pub initialize-NewFs :
      (wipe : Bool) (fs : Fs D)
      → IsFs fs
      → (wipe || is_new_card (content fs.sd 0)) ≡ true
      → Ends (λ _ b. NewFs p content disk fs b) (λ _. ¬ Reliable p) (initialize p wipe fs)
  unfolding initialize ◌>>=◌ ◌>>◌ statistics_zero
  initialize-NewFs wipe fs h new =
      let (blocks, d) = p.card_size fs.sd in
      let ready : Fs D = statistics_zero (record fs {
        number_of_blocks = blocks;
        sd = d;
        buffer = overwrite 0 (0 ∷ 0 ∷ []) fs.buffer;
      }) in
      Ends-then (λ _ b. Loaded p content disk ready b) (λ _ c. NewFs p content disk fs c)
        (λ _. ¬ Reliable p) (load_block p 0) _ ready
        (load_block-Loaded p content disk ready (length-overwrite 0 _ fs.buffer ∙ h.bytes))
        λ b l.
          let from_start : Loaded p content disk fs b = record {
            buffer = l.buffer ∙ disk.size_keeps 0 fs.sd;
            kept = λ j. l.kept j ∙ disk.size_keeps j fs.sd;
            header = l.header;
            slot = l.slot;
            whole = l.whole;
            cached = l.cached;
          } in
          let wiping : (wipe || is_new_card b.buffer) ≡ true =
            ap (λ block. wipe || is_new_card block) from_start.buffer ∙ new in
          rw wiping (
            Ends-mono (λ _ c. NewFs p content disk b c) (λ _ c. NewFs p content disk fs c)
              (λ _. ¬ Reliable p) (λ _. ¬ Reliable p) (new_filesystem p b)
              (new_filesystem-New p content disk b (omega (arith, l.slot, h.slot))
                (subst (λ (x : Header). HeaderFits x) (sym l.header) h.fits))
              (λ _ c n. from_Loaded fs b c from_start n) (λ _ u. u))
