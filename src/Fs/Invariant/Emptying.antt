-- ===== src/Fs/Invariant/Emptying.antt =====
-- What `fkfs_initialize` makes of the files on a new card, and the copy of the header into the buffer.
use fkfs.Base.{
  ℕ, ◌+◌, ◌*◌, ◌<◌, ◌^◌, ◌≡◌, true, refl, ap, ◌∙◌, arith, List, [], ◌∷◌, length, leb, suc,
}
use fkfs.Base.Memory.{length-overwrite}
use fkfs.Exec.{◌>>=◌, ◌>>◌}
use fkfs.Exec.Ends.{Ends}
use fkfs.Layout.{File, encode_header}
use fkfs.Layout.RoundTrip.{HeaderFits, FilesFit, FileFits, length-encode_header}
use fkfs.Platform.{Platform}
use fkfs.Fs.{Fs, store}
use fkfs.Fs.Init.{wipe_files, copy_header}

-- The file is empty, and starts in the block; its name is as before.
pub record Emptied (block : ℕ) (f g : File) : Type 0 where
  pub name : g.name ≡ f.name
  pub version : g.version < 2 ^ 16
  pub size : g.size ≡ 0
  pub start_block : g.start_block ≡ block
  pub end_block : g.end_block ≡ block
  pub start_offset : g.start_offset ≡ 0
  pub end_offset : g.end_offset ≡ 0

abbrev pub AllEmptied : ℕ → List File → List File → Type 0
AllEmptied block [] [] = Unit {0}
AllEmptied block (f ∷ fs) (g ∷ gs) = Emptied block f g × AllEmptied block fs gs
AllEmptied block _ _ = ⊥

Emptied-fits : (f g : File) → FileFits f → Emptied 8000 f g → FileFits g
Emptied-fits f g h e = record {
  name = ap length e.name ∙ h.name;
  version = e.version;
  start_block = omega (arith, e.start_block);
  start_offset = omega (arith, e.start_offset);
  end_block = omega (arith, e.end_block);
  end_offset = omega (arith, e.end_offset);
  size = omega (arith, e.size);
}

pub AllEmptied-fits :
    (fs gs : List File)
    → FilesFit fs
    → AllEmptied 8000 fs gs
    → FilesFit gs × (length gs ≡ length fs)
AllEmptied-fits [] [] h e = (tt, refl)
AllEmptied-fits [] (g ∷ gs) h e = absurd e
AllEmptied-fits (f ∷ fs) [] h e = absurd e
AllEmptied-fits (f ∷ fs) (g ∷ gs) (h, hs) (e, es) =
    let (fits, same) = AllEmptied-fits fs gs hs es in ((Emptied-fits f g h e, fits), ap suc same)

module _ {D : Type 0} (p : Platform D) where
  pub wipe_files-AllEmptied :
      (block : ℕ) (fs : List File) (d : D) → AllEmptied block fs (wipe_files p block fs d).0
  unfolding wipe_files
  wipe_files-AllEmptied block [] d = tt
  wipe_files-AllEmptied block (f ∷ fs) d = (
    record {
      name = refl;
      version = omega arith;
      size = refl;
      start_block = refl;
      end_block = refl;
      start_offset = refl;
      end_offset = refl;
    },
    wipe_files-AllEmptied block fs (p.random 65535 d).1,
  )

  -- The header that is copied into the buffer fits behind its slot.
  pub record Copied (fs b : Fs D) : Type 0 where
    pub sd : b.sd ≡ fs.sd
    pub header : b.header ≡ fs.header
    pub slot : b.header_index ≡ fs.header_index
    pub settings : b.files ≡ fs.files
    pub whole : length b.buffer ≡ length fs.buffer

  pub copy_header-Copied :
      (fs : Fs D)
      → fs.header_index < 2
      → HeaderFits fs.header
      → Ends (λ _ b. Copied fs b) (λ _. ⊥) (copy_header p fs)
  unfolding copy_header store ◌>>◌ ◌>>=◌
  copy_header-Copied fs slot fits =
      let inside : leb (137 * fs.header_index + length (encode_header fs.header)) 512 ≡ true =
        ground (arith, slot, length-encode_header fs.header fits) in
      rw inside (record {
        sd = refl;
        header = refl;
        slot = refl;
        settings = refl;
        whole = length-overwrite (137 * fs.header_index) (encode_header fs.header) fs.buffer;
      })

  unfoldable pub wiped : Fs D → Fs D
  wiped fs = record fs {
    sd = (wipe_files p 8000 fs.header.files fs.sd).1;
    header = record fs.header {
      block = 8000;
      generation = 0;
      files = (wipe_files p 8000 fs.header.files fs.sd).0;
    };
  }

  pub wiped-fits : (fs : Fs D) → HeaderFits fs.header → HeaderFits (wiped fs).header
  unfolding wiped
  wiped-fits fs fits =
      let (files, count) =
        AllEmptied-fits fs.header.files _ fits.files
          (wipe_files-AllEmptied 8000 fs.header.files fs.sd) in
      record {
        version = fits.version;
        generation = omega arith;
        block = omega arith;
        offset = fits.offset;
        time = fits.time;
        count = count ∙ fits.count;
        files = files;
        crc = fits.crc;
      }
