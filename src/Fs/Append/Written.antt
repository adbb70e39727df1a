-- ===== src/Fs/Append/Written.antt =====
-- What `fkfs_file_append` puts into the block.
use fkfs.Base.{
  ℕ, ◌+◌, ◌%◌, ◌^◌, ◌≤◌, ◌<◌, ◌≡◌, ◌⊎◌, inl, refl, ap, subst, ◌∙◌, arith, List, length, get_or,
  get_elem?, some, true, leb, get_or-set_self, get_elem?-lt,
}
use fkfs.Base.Memory.{
  overwrite, read_from, length-overwrite, read_from-overwrite_out, read_from-overwrite_self,
}
use fkfs.Crc.Injective.{crc16_update-lt}
use fkfs.Exec.{ok, ◌>>=◌, ◌>>◌}
use fkfs.Layout.{File, Entry, encode_entry, decode_entry}
use fkfs.Layout.RoundTrip.{EntryFits, decode_entry-encode_entry, length-encode_entry}
use fkfs.Platform.{Platform}
use fkfs.Fs.{Fs, file_at, put_file, store, blank_file, add32}
use fkfs.Fs.Check.{good, block_crc, check_entry, block_check, entry_at, bytes_at}
use fkfs.Fs.Check.Room.{IsGood, good-check_entry, block_check-plain}
use fkfs.Fs.Append.{write_entry}

-- The entry for data of a file, and the file's header after it.
abbrev pub entry_for : ℕ → File → ℕ → List ℕ → Entry
entry_for number file size bytes =
    let plain : Entry = record { file = number; size = size; available = size; crc = 0 } in
    record plain { crc = block_crc file plain bytes }

abbrev pub appended : {D : Type 0} → ℕ → File → ℕ → ℕ → List ℕ → Fs D → Fs D
appended number file required size bytes fs =
    let at = (fs.header.offset + required) % 2 ^ 16 in
    put_file number
      (record file { end_block = fs.header.block; end_offset = at; size = add32 file.size size })
      (record fs {
        cached_block_dirty = true;
        header = record fs.header { offset = at };
        buffer = overwrite (fs.header.offset + 7) bytes (
            overwrite fs.header.offset (encode_entry (entry_for number file size bytes)) fs.buffer);
      })

module _ {D : Type 0} (p : Platform D) (number required size : ℕ) (bytes : List ℕ) (fs : Fs D) where
  pub write_entry_lem :
      (file : File)
      → get_elem? fs.header.files number ≡ some file
      → fs.header.offset + 7 + length bytes ≤ 512
      → write_entry p number required size bytes fs
        ≡ (ok tt, appended number file required size bytes fs)
  unfolding write_entry file_at store ◌>>=◌ ◌>>◌
  write_entry_lem file e fits = rw (e, fits_entry, fits_bytes, store) refl
    where
      fits_entry :
          leb (fs.header.offset + length (encode_entry (entry_for number file size bytes))) 512
          ≡ true
      fits_entry = ground (arith, length-encode_entry (entry_for number file size bytes))

      fits_bytes : leb (fs.header.offset + 7 + length bytes) 512 ≡ true
      fits_bytes = ground arith

-- The conditions under which an entry is written: the file exists, the data is a block's at most and
-- fits behind the header's offset, and the versions are 16-bit numbers.
pub record Fits {D : Type 0} (fs : Fs D) (number : ℕ) (file : File) (bytes : List ℕ) : Type 0 where
  pub number_max : number < 4
  pub is_file : get_elem? fs.header.files number ≡ some file
  pub version : file.version < 2 ^ 16
  pub buffer : length fs.buffer ≡ 512
  pub some_data : 0 < length bytes
  pub room : fs.header.offset + 7 + length bytes ≤ 512

entry_fits :
    (number : ℕ) (file : File) (bytes : List ℕ)
    → number < 4
    → file.version < 2 ^ 16
    → length bytes < 512
    → EntryFits (entry_for number file (length bytes) bytes)
unfolding block_crc
entry_fits number file bytes hn hv hb = record {
  file = omega arith;
  size = omega arith;
  available = omega arith;
  crc = crc16_update-lt _ bytes (crc16_update-lt file.version _ hv);
}

module _ {D : Type 0} (p : Platform D) (number : ℕ) (file : File) (bytes : List ℕ) (fs : Fs D) where
  abbrev entry : Entry
  entry = entry_for number file (length bytes) bytes

  abbrev after : Fs D
  after = (write_entry p number (7 + length bytes) (length bytes) bytes fs).1

  abbrev result : Fs D
  result = appended number file (7 + length bytes) (length bytes) bytes fs

  after-result : Fits fs number file bytes → after ≡ result
  after-result h =
      ap (λ r. r.1)
        (write_entry_lem p number (7 + length bytes) (length bytes) bytes fs file h.is_file h.room)

  sd_result : result.sd ≡ fs.sd
  unfolding put_file
  sd_result = refl

  buffer_result :
      result.buffer
      ≡ overwrite
          (fs.header.offset + 7)
          bytes
          (overwrite fs.header.offset (encode_entry entry) fs.buffer)
  unfolding put_file
  buffer_result = refl

  read_entry :
      (past : ℕ → ℕ)
      → Fits fs number file bytes
      → read_from past result.buffer fs.header.offset 7 ≡ encode_entry entry
  read_entry past h = rw buffer_result (
      read_from-overwrite_out past (fs.header.offset + 7) bytes
        (overwrite fs.header.offset (encode_entry entry) fs.buffer) fs.header.offset 7
        (inl (omega arith))
      ∙ subst
          (λ (n : ℕ).
            read_from past (overwrite fs.header.offset (encode_entry entry) fs.buffer)
              fs.header.offset n
            ≡ encode_entry entry)
          (length-encode_entry entry)
          (read_from-overwrite_self past fs.header.offset (encode_entry entry) fs.buffer
            (omega (arith, length-encode_entry entry, h.buffer, h.room))))

  entry_at-result :
      Fits fs number file bytes → entry_at p fs.sd result.buffer fs.header.offset ≡ entry
  unfolding entry_at bytes_at
  entry_at-result h =
      ap decode_entry (read_entry (p.past fs.sd) h)
      ∙ decode_entry-encode_entry entry
          (entry_fits number file bytes h.number_max h.version (omega (arith, h.room)))

  bytes_at-result :
      Fits fs number file bytes
      → bytes_at p fs.sd result.buffer (fs.header.offset + 7) (length bytes) ≡ bytes
  unfolding bytes_at
  bytes_at-result h = rw buffer_result (
      read_from-overwrite_self (p.past fs.sd) (fs.header.offset + 7) bytes
        (overwrite fs.header.offset (encode_entry entry) fs.buffer)
        (omega (
          arith,
          h.room,
          h.buffer,
          length-overwrite fs.header.offset (encode_entry entry) fs.buffer,
        )))

  entry-IsGood :
      (f : File) → f.version ≡ file.version → Fits fs number file bytes → IsGood entry f bytes
  unfolding block_crc encode_entry
  entry-IsGood f e h = record {
    file = h.number_max;
    size = h.some_data;
    size_max = omega (arith, h.room);
    available = h.some_data;
    available_max = omega (arith, h.room);
    crc = rw e refl;
  }

  -- After the call the block holds a good entry of the file with the data, at the offset that the
  -- header had; what is read beside the entry is as before; and the file ends behind the entry.
  pub write_entry-reads :
      Fits fs number file bytes
      → (block_check p after after.buffer fs.header.offset ≡ good)
        × (entry_at p after.sd after.buffer fs.header.offset ≡ entry)
        × (bytes_at p after.sd after.buffer (fs.header.offset + 7) (length bytes) ≡ bytes)
        × ((i n : ℕ)
            → (i + n ≤ fs.header.offset) ⊎ (fs.header.offset + 7 + length bytes ≤ i)
            → bytes_at p after.sd after.buffer i n ≡ bytes_at p fs.sd fs.buffer i n)
  unfolding put_file bytes_at
  write_entry-reads h = rw (after-result h) (checked, entry_at-result h, bytes_at-result h, beside)
    where
      same_version : (get_or result.header.files number blank_file).version ≡ file.version
      same_version =
          ap (λ (f : File). f.version)
            (get_or-set_self fs.header.files number _ blank_file (get_elem?-lt _ number h.is_file))

      checked : block_check p result result.buffer fs.header.offset ≡ good
      checked =
          block_check-plain p result result.buffer fs.header.offset
          ∙ ap
              (λ e.
                check_entry e (get_or result.header.files e.file blank_file)
                  (bytes_at p fs.sd result.buffer (fs.header.offset + 7) e.size))
              (entry_at-result h)
          ∙ ap (λ b. check_entry entry (get_or result.header.files number blank_file) b)
              (bytes_at-result h)
          ∙ good-check_entry entry (get_or result.header.files number blank_file) bytes
              (entry-IsGood (get_or result.header.files number blank_file) same_version h)

      beside :
          (i n : ℕ)
          → (i + n ≤ fs.header.offset) ⊎ (fs.header.offset + 7 + length bytes ≤ i)
          → bytes_at p result.sd result.buffer i n ≡ bytes_at p fs.sd fs.buffer i n
      beside i n out =
          read_from-overwrite_out (p.past fs.sd) (fs.header.offset + 7) bytes
            (overwrite fs.header.offset (encode_entry entry) fs.buffer) i n (omega arith)
          ∙ read_from-overwrite_out (p.past fs.sd) fs.header.offset (encode_entry entry) fs.buffer i
              n (omega (arith, length-encode_entry entry))
