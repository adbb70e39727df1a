-- ===== src/Fs/Invariant/Append/InBlock.antt =====
-- The state behind `write_entry`, in `fkfs_file_append`: what it holds where the search has found room.
use fkfs.Base.{
  ℕ, ◌+◌, ◌%◌, ◌^◌, ◌≤◌, ◌<◌, ◌≡◌, ◌≢◌, ◌⊎◌, refl, sym, subst, ap, ◌∙◌, arith, List, length, get_or,
  get_elem?-some, length-set, get_or-set_self, get_or-set_ne,
}
use fkfs.Base.Memory.{length-overwrite}
use fkfs.Exec.{ok}
use fkfs.Layout.{File}
use fkfs.Layout.RoundTrip.{FileFits, FilesFit-set, FilesFit-at}
use fkfs.Platform.{Platform}
use fkfs.Fs.{Fs, put_file, blank_file, add32}
use fkfs.Fs.Check.{good, block_check, check_entry, entry_at, bytes_at}
use fkfs.Fs.Check
use fkfs.Fs.Check.Room.{IsRoom}
use fkfs.Fs.Append.{write_entry}
use fkfs.Fs.Append.Written.{entry_for, appended, Fits, write_entry_lem, write_entry-reads}
use fkfs.Fs.Invariant.{IsFs}
use fkfs.Fs.Invariant.Allocate.{Kept, own_priority, Allocated}
use fkfs.Fs.Invariant.Allocate.Visits.{Visited, Since, Source}

module _ {D : Type 0} (p : Platform D) where
  abbrev pub file_of : ℕ → Fs D → File
  file_of number fs = get_or fs.header.files number blank_file

  -- What a successful append leaves: `searched` is the state when the search of the block found
  -- `found`, and the new entry stands there. The bytes that were searched are those that `fs` had cached
  -- for the block, or what a successful read of the block delivered, of a card that nothing was written
  -- to since `fs` but the dirty buffer and the header block. The search began at the header's offset in
  -- the header's block, or at the start of one that follows it.
  pub record Stored (number : ℕ) (bytes : List ℕ) (fs fs' : Fs D) : Type 0 where
    pub searched : Fs D
    pub start : ℕ
    pub found : Check.Search
    pub kept : Kept fs searched
    pub since : Since p fs searched.sd
    pub source : Source p fs searched.buffer searched.header.block
    pub visited :
        Visited fs.number_of_blocks fs.header.block fs.header.offset searched.header.block start
    pub room :
        IsRoom p searched searched.buffer
          (own_priority number searched)
          (7 + length bytes)
          start
          found
    pub is_fs : IsFs fs'
    pub checked : block_check p fs' fs'.buffer found.offset ≡ good
    pub entry :
        entry_at p fs'.sd fs'.buffer found.offset
        ≡ entry_for number (file_of number fs) (length bytes) bytes
    pub contents : bytes_at p fs'.sd fs'.buffer (found.offset + 7) (length bytes) ≡ bytes
    pub beside :
        (i n : ℕ)
        → i + n ≤ 512
        → (i + n ≤ found.offset) ⊎ (found.offset + 7 + length bytes ≤ i)
        → bytes_at p fs'.sd fs'.buffer i n ≡ bytes_at p searched.sd searched.buffer i n
    pub file : file_of number fs' ≡ record (file_of number fs) {
      end_block = fs'.header.block;
      end_offset = found.offset + 7 + length bytes;
      size = add32 (file_of number fs).size (length bytes);
    }
    pub others : (j : ℕ) → number ≢ j → file_of j fs' ≡ file_of j fs
    pub place : fs'.header.offset ≡ found.offset + 7 + length bytes
    pub block : fs'.header.block ≡ searched.header.block
    pub settings : fs'.files ≡ fs.files

  module _ (number : ℕ) (bytes : List ℕ) (fs c : Fs D) (h : IsFs fs) (lt : number < 4)
      (some_data : 0 < length bytes) (a : Allocated p number (7 + length bytes) fs c) where
    same_files : c.header.files ≡ fs.header.files
    same_files = rw a.place a.kept.files.entries

    abbrev file : File
    file = file_of number fs

    fits_file : FileFits file
    fits_file =
        FilesFit-at fs.header.files number blank_file h.fits.files (omega (arith, h.fits.count))

    c_place : c.header.offset ≡ a.search.offset
    c_place = rw a.place refl

    fits : Fits c number file bytes
    fits = record {
      number_max = lt;
      is_file =
          rw same_files
            (get_elem?-some fs.header.files number blank_file (omega (arith, h.fits.count)));
      version = fits_file.version;
      buffer = rw a.place a.kept.is_fs.bytes;
      some_data = some_data;
      room = omega (arith, c_place, a.room.1);
    }

    abbrev pub written : Fs D
    written = appended number file (7 + length bytes) (length bytes) bytes c

    pub write_entry-written :
        write_entry p number (7 + length bytes) (length bytes) bytes c ≡ (ok tt, written)
    write_entry-written =
        write_entry_lem p number (7 + length bytes) (length bytes) bytes c file fits.is_file
          fits.room

    c-IsFs : IsFs c
    c-IsFs =
        let k = a.kept.is_fs in
        let near : a.search.offset < 2 ^ 16 = omega (arith, a.room.1) in
        subst IsFs (sym a.place) (record {
          slot = k.slot;
          bytes = k.bytes;
          settings = k.settings;
          fits = record {
            version = k.fits.version;
            generation = k.fits.generation;
            block = k.fits.block;
            offset = near;
            time = k.fits.time;
            count = k.fits.count;
            files = k.fits.files;
            crc = k.fits.crc;
          };
        })

    end_of_entry :
        (c.header.offset + (7 + length bytes)) % 2 ^ 16 ≡ a.search.offset + 7 + length bytes
    end_of_entry = omega (arith, c_place, a.room.1)

    written-IsFs : IsFs written
    unfolding put_file
    written-IsFs = record {
      slot = c-IsFs.slot;
      bytes =
          length-overwrite (c.header.offset + 7) bytes _
          ∙ length-overwrite c.header.offset _ c.buffer
          ∙ c-IsFs.bytes;
      settings = c-IsFs.settings;
      fits = record {
        version = c-IsFs.fits.version;
        generation = c-IsFs.fits.generation;
        block = c-IsFs.fits.block;
        offset = omega arith;
        time = c-IsFs.fits.time;
        count = length-set c.header.files number _ ∙ c-IsFs.fits.count;
        files = FilesFit-set c.header.files number _ c-IsFs.fits.files new_file;
        crc = c-IsFs.fits.crc;
      };
    }
      where
        new_file : FileFits (record file {
          end_block = c.header.block;
          end_offset = (c.header.offset + (7 + length bytes)) % 2 ^ 16;
          size = add32 file.size (length bytes);
        })
        new_file = record {
          name = fits_file.name;
          version = fits_file.version;
          start_block = fits_file.start_block;
          start_offset = fits_file.start_offset;
          end_block = c-IsFs.fits.block;
          end_offset = omega arith;
          size = omega arith;
        }

    pub written-Stored : Stored number bytes fs written
    unfolding put_file
    written-Stored =
        let reads =
          rw (ap (λ r. r.1) write_entry-written) at
            (write_entry-reads p number file bytes c fits) in
        record {
          searched = a.searched;
          start = a.start;
          found = a.search;
          kept = a.kept;
          since = a.since;
          source = a.source;
          visited = a.visited;
          room = a.room;
          is_fs = written-IsFs;
          checked =
              subst (λ (o : ℕ). block_check p written written.buffer o ≡ good) c_place reads.0;
          entry =
              subst
                (λ (o : ℕ).
                  entry_at p written.sd written.buffer o
                  ≡ entry_for number file (length bytes) bytes)
                c_place reads.1;
          contents =
              subst (λ (o : ℕ). bytes_at p written.sd written.buffer (o + 7) (length bytes) ≡ bytes)
                c_place reads.2;
          beside = λ i n in_range out.
              reads.3 i n (omega (arith, c_place))
              ∙ ap (λ (s : Fs D). bytes_at p s.sd s.buffer i n) a.place;
          file =
              get_or-set_self c.header.files number _ blank_file (omega (arith, c-IsFs.fits.count))
              ∙ ap
                  (λ (o : ℕ). record file {
                    end_block = c.header.block;
                    end_offset = o;
                    size = add32 file.size (length bytes);
                  })
                  end_of_entry;
          others = λ j ne.
              get_or-set_ne c.header.files number j _ blank_file ne
              ∙ ap (λ fs. get_or fs j blank_file) same_files;
          place = end_of_entry;
          block = ap (λ (s : Fs D). s.header.block) a.place;
          settings = ap (λ (s : Fs D). s.files) a.place ∙ a.kept.files.settings;
        }
