-- ===== src/Fs/Invariant/Start.antt =====
-- `fkfs_initialize` and the invariant, on any card that delivers bytes.
use fkfs.Base.{
  ℕ, ◌*◌, ◌<◌, ◌≡◌, ◌||◌, Bool, true, false, Bool-cases, inl, inr, refl, sym, subst, ap, ◌∙◌, arith,
  List, [], ◌∷◌, length, length-replicate, zero, suc, ◌==◌,
}
use fkfs.Base.Memory.{overwrite, length-overwrite}
use fkfs.Exec.{◌>>=◌, ◌>>◌}
use fkfs.Exec.Ends.{Ends, Ends-then, Ends-then_sure, Ends-mono, Ends-choose}
use fkfs.Layout.{File, Header, decode_header}
use fkfs.Layout.RoundTrip.{HeaderFits, FilesFit}
use fkfs.Layout.Fits.{
  IsBytes, drop-IsBytes, take-IsBytes, AllNumbersFit, Decoded, decode_header-Decoded,
}
use fkfs.Platform.{Platform}
use fkfs.Fs.{Fs}
use fkfs.Fs.Blocks.{read_block, load_block}
use fkfs.Fs.Headers.{header_bytes, header_write}
use fkfs.Fs.Init.{
  strncpy, pick_slot, copy_names, is_new_card, copy_header, new_filesystem, old_filesystem,
  initialize, statistics_zero,
}
use fkfs.Fs.Invariant.{IsFs}
use fkfs.Fs.Invariant.Sync.{Wrote, header_write-Ends}
use fkfs.Fs.Invariant.Emptying.{Copied, copy_header-Copied, wiped, wiped-fits}

length-strncpy : (n : ℕ) (src : List ℕ) → length (strncpy n src) ≡ n
unfolding strncpy
length-strncpy zero src = refl
length-strncpy (suc n) [] = ap suc (length-strncpy n [])
length-strncpy (suc n) (c ∷ cs) = elim (Bool-cases (c == 0)) [
  | inl e ↦ rw e (ap suc (length-replicate n 0))
  | inr e ↦ rw e (ap suc (length-strncpy n cs))
]

copy_names-fits :
    (fs owns : List File)
    → length fs ≡ length owns
    → AllNumbersFit fs
    → FilesFit (copy_names fs owns) × (length (copy_names fs owns) ≡ length fs)
unfolding copy_names
copy_names-fits [] owns e h = (tt, refl)
copy_names-fits (f ∷ fs) [] e h = absurd (omega arith)
copy_names-fits (f ∷ fs) (own ∷ owns) e (h, hs) =
    let (fits, same) = copy_names-fits fs owns (omega arith) hs in
    (
      (
        record {
          name = length-strncpy 12 own.name;
          version = h.version;
          start_block = h.start_block;
          start_offset = h.start_offset;
          end_block = h.end_block;
          end_offset = h.end_offset;
          size = h.size;
        },
        fits,
      ),
      ap suc same,
    )

pick_slot-lt : (block : List ℕ) → pick_slot block < 2
unfolding pick_slot
pick_slot-lt block = ground arith

header_bytes-IsBytes : (block : List ℕ) (i : ℕ) → IsBytes block → IsBytes (header_bytes block i)
unfolding header_bytes
header_bytes-IsBytes block i h = take-IsBytes 137 _ (drop-IsBytes (137 * i) block h)

-- A block that is read consists of as many bytes as the destination.
pub record ReadsBytes {D : Type 0} (p : Platform D) : Type 0 where
  pub size : (block : ℕ) (dest : List ℕ) (d : D) → length (p.sd_read block dest d).1 ≡ length dest
  pub bytes :
      (block : ℕ) (dest : List ℕ) (d : D)
      → (p.sd_read block dest d).0 ≡ true
      → IsBytes (p.sd_read block dest d).1

module _ {D : Type 0} (p : Platform D) where
  old_filesystem-IsFs :
      (fs : Fs D)
      → IsFs fs
      → IsBytes fs.buffer
      → Ends (λ _ b. IsFs b) (λ b. IsFs b) (old_filesystem p fs)
  unfolding old_filesystem
  old_filesystem-IsFs fs h bytes =
      let slot = pick_slot fs.buffer in
      let d : Decoded (decode_header (header_bytes fs.buffer slot)) =
        decode_header-Decoded _ (header_bytes-IsBytes fs.buffer slot bytes) in
      let (files, count) = copy_names-fits _ fs.header.files (d.count ∙ sym h.fits.count) d.files in
      record {
        slot = pick_slot-lt fs.buffer;
        bytes = length-overwrite (137 * slot) _ fs.buffer ∙ h.bytes;
        settings = h.settings;
        fits = record {
          version = d.version;
          generation = d.generation;
          block = d.block;
          offset = d.offset;
          time = d.time;
          count = count ∙ d.count;
          files = files;
          crc = d.crc;
        };
      }

  Copied-IsFs : (a b : Fs D) → IsFs a → Copied p a b → IsFs b
  Copied-IsFs a b h k = record {
    slot = omega (arith, k.slot, h.slot);
    bytes = k.whole ∙ h.bytes;
    settings = ap length k.settings ∙ h.settings;
    fits = subst (λ (x : Header). HeaderFits x) (sym k.header) h.fits;
  }

  wiped-IsFs : (fs : Fs D) → IsFs fs → IsFs (wiped p fs)
  unfolding wiped
  wiped-IsFs fs h = record {
    slot = h.slot;
    bytes = h.bytes;
    settings = h.settings;
    fits = wiped-fits p fs h.fits;
  }

  second-IsFs :
      (fs : Fs D)
      → IsFs fs
      → IsFs (record fs { header = record fs.header { generation = 1 }; header_index = 1 })
  second-IsFs fs h = record {
    slot = omega arith;
    bytes = h.bytes;
    settings = h.settings;
    fits = record {
      version = h.fits.version;
      generation = omega arith;
      block = h.fits.block;
      offset = h.fits.offset;
      time = h.fits.time;
      count = h.fits.count;
      files = h.fits.files;
      crc = h.fits.crc;
    };
  }

  -- A header that is copied into the buffer and written to the card.
  copied_written-IsFs :
      (wipe : Bool) (fs : Fs D)
      → IsFs fs
      → Ends (λ _ b. IsFs b) (λ b. IsFs b) ((copy_header p >> header_write p wipe) fs)
  copied_written-IsFs wipe fs h =
      Ends-then_sure (λ _ a. Copied p fs a) (λ _ b. IsFs b) _ (copy_header p) (header_write p wipe)
        fs (copy_header-Copied p fs h.slot h.fits)
        λ a k.
          Ends-mono (λ _ b. Wrote a b) (λ _ b. IsFs b) (λ b. Wrote a b) (λ b. IsFs b)
            (header_write p wipe a) (header_write-Ends p wipe a (Copied-IsFs fs a h k))
            (λ _ b w. w.is_fs) (λ b w. w.is_fs)

  new_filesystem-IsFs :
      (fs : Fs D) → IsFs fs → Ends (λ _ b. IsFs b) (λ b. IsFs b) (new_filesystem p fs)
  unfolding new_filesystem wiped ◌>>=◌ ◌>>◌
  new_filesystem-IsFs fs h =
      Ends-then_sure (λ _ a. Copied p (wiped p fs) a) (λ _ b. IsFs b) (λ b. IsFs b) (copy_header p)
        _ (wiped p fs) (copy_header-Copied p (wiped p fs) h.slot (wiped-fits p fs h.fits))
        λ a k.
          Ends-then (λ _ c. Wrote a c) (λ _ b. IsFs b) (λ b. IsFs b) (header_write p true) _ a
            (Ends-mono (λ _ c. Wrote a c) (λ _ c. Wrote a c) (λ c. Wrote a c) (λ c. IsFs c)
              (header_write p true a)
              (header_write-Ends p true a (Copied-IsFs (wiped p fs) a (wiped-IsFs fs h) k))
              (λ _ c w. w) (λ c w. w.is_fs))
            λ c w. copied_written-IsFs false _ (second-IsFs c w.is_fs)

  load_block-IsFs :
      ReadsBytes p
      → (block : ℕ) (fs : Fs D) → IsFs fs
      → Ends (λ _ b. IsFs b × IsBytes b.buffer) (λ b. IsFs b) (load_block p block fs)
  unfolding load_block read_block
  load_block-IsFs reads block fs h =
      let d = (p.millis fs.sd).1 in
      let whole = reads.size block fs.buffer d ∙ h.bytes in
      elim (Bool-cases (p.sd_read block fs.buffer d).0) [
        | inl done ↦ rw done (
          record { slot = h.slot; bytes = whole; settings = h.settings; fits = h.fits },
          reads.bytes block fs.buffer d done,
        )
        | inr bad ↦
            rw bad (record { slot = h.slot; bytes = whole; settings = h.settings; fits = h.fits })
      ]

  -- An initialisation, told to wipe or not, of a card that delivers bytes does not fault, and keeps the
  -- invariant, whether it succeeds or fails: the slot is one of two, and the fields of the header that
  -- it starts from fit their types, whatever stands on the card.
  pub initialize-IsFs :
      ReadsBytes p
      → (wipe : Bool) (fs : Fs D) → IsFs fs
      → Ends (λ _ b. IsFs b) (λ b. IsFs b) (initialize p wipe fs)
  unfolding initialize ◌>>=◌ ◌>>◌ statistics_zero
  initialize-IsFs reads wipe fs h =
      let (blocks, d) = p.card_size fs.sd in
      let ready : Fs D = statistics_zero (record fs {
        number_of_blocks = blocks;
        sd = d;
        buffer = overwrite 0 (0 ∷ 0 ∷ []) fs.buffer;
      }) in
      Ends-then (λ _ b. IsFs b × IsBytes b.buffer) (λ _ b. IsFs b) (λ b. IsFs b) (load_block p 0) _
        ready
        (load_block-IsFs reads 0 ready (record {
          slot = h.slot;
          bytes = length-overwrite 0 _ fs.buffer ∙ h.bytes;
          settings = h.settings;
          fits = h.fits;
        }))
        λ b (k, bytes).
          Ends-choose (λ _ x. IsFs x) (λ x. IsFs x) (wipe || is_new_card b.buffer)
            (new_filesystem p b) (old_filesystem p b) (λ _. new_filesystem-IsFs b k)
            (λ _. old_filesystem-IsFs b k bytes)
