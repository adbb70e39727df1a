-- ===== src/Fs/Invariant/NewCard.antt =====
-- `fkfs_initialize` on a new card, or told to wipe: the empty file system that it writes.
use fkfs.Base.{
  ℕ, ◌-◌, ◌*◌, ◌<◌, ◌≡◌, ◌≢◌, false, refl, sym, subst, ap, ap₂, ◌∙◌, arith, List, [], ◌∷◌,
  replicate, zero, suc,
}
use fkfs.Base.Memory.{overwrite}
use fkfs.Exec.{◌>>=◌, ◌>>◌}
use fkfs.Exec.Ends.{Ends, Ends-then, Ends-then_sure, Ends-mono}
use fkfs.Layout.{File, Header, encode_header, decode_header}
use fkfs.Layout.RoundTrip.{HeaderFits, length-encode_header}
use fkfs.Platform.{Platform, IsDisk, Reliable}
use fkfs.Fs.{Fs}
use fkfs.Fs.Headers.{header_bytes, header_crc_update, header_buffer, put_header, header_write}
use fkfs.Fs.Headers.Slots.{
  Holds, header_bytes-overwrite_other, written-Holds, header_crc_update-fits,
}
use fkfs.Fs.Init.{pick_slot, wipe_files, copy_header, new_filesystem}
use fkfs.Fs.Invariant.Durable.OnCard.{
  BlockWritten, HeaderWritten, Older, with_header, updated, put_header-BlockWritten,
  header_write-HeaderWritten,
}
use fkfs.Fs.Invariant.Emptying.{
  AllEmptied, wipe_files-AllEmptied, Copied, copy_header-Copied, wiped, wiped-fits,
}

abbrev zeros : List ℕ
zeros = replicate 512 0

zeros-generation : (decode_header (header_bytes zeros 0)).generation ≡ 0
unfolding header_bytes decode_header
zeros-generation = refl

-- A block of zeros with a header of generation 0 in either slot.
first-generation :
    (h : Header) (i : ℕ)
    → HeaderFits h
    → h.generation ≡ 0
    → i < 2
    → (decode_header (
        header_bytes
          (overwrite (137 * i) (encode_header (header_crc_update h)) zeros)
          0)).generation
      ≡ 0
unfolding header_crc_update
first-generation h zero fits none lt =
    ap (λ (x : Header). x.generation) (written-Holds h fits 0 (omega arith) zeros refl).reads ∙ none
first-generation h (suc zero) fits none lt =
    ap (λ bytes. (decode_header bytes).generation)
      (header_bytes-overwrite_other 1 (encode_header (header_crc_update h)) zeros
        (length-encode_header (header_crc_update h) (header_crc_update-fits h fits)) (omega arith))
    ∙ zeros-generation
first-generation h (suc (suc i)) fits none lt = absurd (omega arith)

module _ {D : Type 0} (p : Platform D) (content : D → ℕ → List ℕ) (disk : IsDisk p content) where
  wipe_files_keeps :
      (block : ℕ) (fs : List File) (d : D) (j : ℕ)
      → content (wipe_files p block fs d).1 j ≡ content d j
  unfolding wipe_files
  wipe_files_keeps block [] d j = refl
  wipe_files_keeps block (f ∷ fs) d j =
      wipe_files_keeps block fs (p.random 65535 d).1 j ∙ disk.random_keeps 65535 j d

  -- An empty file system: `fs` is the state before.
  pub record NewFs (fs b : Fs D) : Type 0 where
    pub block : b.header.block ≡ 8000
    pub generation : b.header.generation ≡ 1
    pub files : AllEmptied 8000 fs.header.files b.header.files
    pub slot : b.header_index ≡ 1
    pub holds : Holds (content b.sd 0) b.header_index b.header
    pub picked : pick_slot (content b.sd 0) ≡ b.header_index
    pub kept : (j : ℕ) → 0 ≢ j → content b.sd j ≡ content fs.sd j

  abbrev pub second : Fs D → Fs D
  second c = record c { header = record c.header { generation = 1 }; header_index = 1 }

  module _ (fs : Fs D) (slot : fs.header_index < 2) (fits : HeaderFits fs.header) where
    -- The first header is on the card, in the slot that was in use.
    record First (a c : Fs D) : Type 0 where
      copied : Copied p (wiped p fs) a
      written :
          BlockWritten p content disk 0
            (with_header p content disk zeros a)
            (updated p content disk a)
            c

    First-fits : (a c : Fs D) → First a c → HeaderFits a.header
    First-fits a c f =
        subst (λ (x : Header). HeaderFits x) (sym f.copied.header) (wiped-fits p fs fits)

    second-fits : (a c : Fs D) → First a c → HeaderFits (second c).header
    second-fits a c f =
        subst (λ (x : Header). HeaderFits (record x { generation = 1 })) (sym f.written.header)
          (let k = header_crc_update-fits a.header (First-fits a c f) in
            record {
              version = k.version;
              generation = omega arith;
              block = k.block;
              offset = k.offset;
              time = k.time;
              count = k.count;
              files = k.files;
              crc = k.crc;
            })

    First-none : (a c : Fs D) → First a c → a.header.generation ≡ 0
    unfolding wiped
    First-none a c f = ap (λ (x : Header). x.generation) f.copied.header

    First-slot : (a c : Fs D) → First a c → a.header_index < 2
    unfolding wiped
    First-slot a c f = omega (arith, f.copied.slot, slot)

    second-Older : (a c g : Fs D) → First a c → Copied p (second c) g → Older p content disk g
    second-Older a c g f k v =
        let e : header_bytes (content g.sd 0) (1 - g.header_index)
            ≡ header_bytes (with_header p content disk zeros a) 0 =
          ap₂ header_bytes (ap (λ d. content d 0) k.sd ∙ f.written.stored)
            (omega (arith, k.slot)) in
        omega (
          arith,
          ap (λ bytes. (decode_header bytes).generation) e,
          first-generation a.header a.header_index (First-fits a c f) (First-none a c f)
              (First-slot a c f),
          ap (λ (x : Header). x.generation) k.header,
        )

    New-HeaderWritten :
        (a c g b : Fs D)
        → First a c
        → Copied p (second c) g
        → HeaderWritten p content disk g b
        → NewFs fs b
    unfolding wiped header_crc_update
    New-HeaderWritten a c g b f k w =
        let emptied = wipe_files-AllEmptied p 8000 fs.header.files fs.sd in
        let file_list : b.header.files ≡ (wipe_files p 8000 fs.header.files fs.sd).0 =
          ap (λ (x : Header). x.files) w.header
          ∙ ap (λ (x : Header). x.files) k.header
          ∙ ap (λ (x : Header). x.files) f.written.header
          ∙ ap (λ (x : Header). x.files) f.copied.header in
        record {
          block =
              ap (λ (x : Header). x.block) w.header
              ∙ ap (λ (x : Header). x.block) k.header
              ∙ ap (λ (x : Header). x.block) f.written.header
              ∙ ap (λ (x : Header). x.block) f.copied.header;
          generation =
              ap (λ (x : Header). x.generation) w.header
              ∙ ap (λ (x : Header). x.generation) k.header;
          files = subst (λ gs. AllEmptied 8000 fs.header.files gs) (sym file_list) emptied;
          slot = w.slot ∙ k.slot;
          holds = w.holds;
          picked = w.picked;
          kept = λ j ne.
              w.kept j ne
              ∙ ap (λ d. content d j) k.sd
              ∙ f.written.kept j ne
              ∙ ap (λ d. content d j) f.copied.sd
              ∙ wipe_files_keeps 8000 fs.header.files fs.sd j;
        }

    pub new_filesystem-New : Ends (λ _ b. NewFs fs b) (λ _. ¬ Reliable p) (new_filesystem p fs)
    unfolding new_filesystem wiped header_write header_buffer ◌>>=◌ ◌>>◌
    new_filesystem-New =
        Ends-then_sure (λ _ a. Copied p (wiped p fs) a) (λ _ b. NewFs fs b) _ (copy_header p) _
          (wiped p fs) (copy_header-Copied p (wiped p fs) slot (wiped-fits p fs fits))
          λ a k.
            Ends-then
              (λ _ c.
                BlockWritten p content disk 0 (with_header p content disk zeros a)
                  (updated p content disk a) c)
              (λ _ b. NewFs fs b) _ (put_header p zeros) _ a
              (put_header-BlockWritten p content disk zeros a (omega (arith, k.slot, slot)) refl)
              λ c w.
                let f : First a c = record { copied = k; written = w } in
                Ends-then_sure (λ _ g. Copied p (second c) g) (λ _ b. NewFs fs b) _ (copy_header p)
                  (header_write p false) (second c)
                  (copy_header-Copied p (second c) (omega arith) (second-fits a c f))
                  λ g q.
                    Ends-mono (λ _ b. HeaderWritten p content disk g b) (λ _ b. NewFs fs b)
                      (λ _. ¬ Reliable p) (λ _. ¬ Reliable p) (header_write p false g)
                      (header_write-HeaderWritten p content disk g (omega (arith, q.slot))
                        (subst (λ (x : Header). HeaderFits x) (sym q.header) (second-fits a c f))
                        (second-Older a c g f q))
                      (λ _ b v. New-HeaderWritten a c g b f q v) (λ _ u. u)
