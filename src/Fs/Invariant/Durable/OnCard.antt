-- ===== src/Fs/Invariant/Durable/OnCard.antt =====
-- What `fkfs_write_block` and `fkfs_header_write` leave on a card that keeps blocks.
use fkfs.Base.{
  ℕ, ◌+◌, ◌-◌, ◌*◌, ◌<◌, ◌≡◌, ◌≢◌, Bool-cases, inl, inr, true, false, refl, sym, subst, ap, ap₂,
  ◌∙◌, arith, List, length, leb, replicate,
}
use fkfs.Base.Memory.{overwrite, length-overwrite}
use fkfs.Exec.{◌>>=◌, ◌>>◌}
use fkfs.Exec.Ends.{Ends, Ends-bind, Ends-mono}
use fkfs.Layout.{Header, encode_header, decode_header}
use fkfs.Layout.RoundTrip.{HeaderFits}
use fkfs.Platform.{Platform, IsDisk, Reliable}
use fkfs.Fs.{Fs}
use fkfs.Fs.Blocks.{read_block, write_block}
use fkfs.Fs.Headers.{
  header_bytes, header_crc_valid, header_crc_update, header_buffer, put_header, header_write,
}
use fkfs.Fs.Headers.Slots.{Holds, written-Holds, pick_slot-written}
use fkfs.Fs.Init.{pick_slot}

module _ {D : Type 0} (p : Platform D) (content : D → ℕ → List ℕ) (disk : IsDisk p content) where
  -- A block is written: `fs` is the state before, `b` the state behind.
  pub record BlockWritten (block : ℕ) (source : List ℕ) (fs b : Fs D) : Type 0 where
    pub stored : content b.sd block ≡ source
    pub kept : (j : ℕ) → block ≢ j → content b.sd j ≡ content fs.sd j
    pub header : b.header ≡ fs.header
    pub slot : b.header_index ≡ fs.header_index

  pub write_block-BlockWritten :
      (block : ℕ) (source : List ℕ) (fs : Fs D)
      → length source ≡ 512
      → Ends
          (λ _ b. BlockWritten block source fs b)
          (λ _. ¬ Reliable p)
          (write_block p block source fs)
  unfolding write_block
  write_block-BlockWritten block source fs full =
      let d = (p.millis fs.sd).1 in
      elim (Bool-cases (p.sd_write block source d).0) [
        | inl done ↦ rw done (record {
          stored =
              disk.millis_keeps block (p.sd_write block source d).1
              ∙ disk.write_self block source d done;
          kept = λ j ne.
              disk.millis_keeps j (p.sd_write block source d).1
              ∙ disk.write_ne block j source d ne
              ∙ disk.millis_keeps j fs.sd;
          header = refl;
          slot = refl;
        })
        | inr bad ↦ rw bad (λ k. absurd (ground (arith, bad, k.writes block source d full)))
      ]

  record HeadersRead (bytes : List ℕ) (fs b : Fs D) : Type 0 where
    same : bytes ≡ content fs.sd 0
    full : length bytes ≡ 512
    kept : (j : ℕ) → content b.sd j ≡ content fs.sd j
    header : b.header ≡ fs.header
    slot : b.header_index ≡ fs.header_index

  header_buffer-HeadersRead :
      (fs : Fs D)
      → Ends (λ bytes b. HeadersRead bytes fs b) (λ _. ¬ Reliable p) (header_buffer p false fs)
  unfolding header_buffer read_block
  header_buffer-HeadersRead fs =
      let d = (p.millis fs.sd).1 in
      let r = p.sd_read 0 (replicate 512 0) d in
      elim (Bool-cases r.0) [
        | inl done ↦ rw done (record {
          same = disk.read_status 0 (replicate 512 0) d done ∙ disk.millis_keeps 0 fs.sd;
          full = disk.read_length 0 (replicate 512 0) d;
          kept = λ j.
              disk.millis_keeps j r.2
              ∙ disk.read_keeps 0 j (replicate 512 0) d
              ∙ disk.millis_keeps j fs.sd;
          header = refl;
          slot = refl;
        })
        | inr bad ↦ rw bad (λ k. absurd (ground (arith, bad, k.reads 0 (replicate 512 0) d refl)))
      ]

  -- The header slot that is not the present one is invalid, or its header is older.
  abbrev pub Older : Fs D → Type 0
  Older fs =
      header_crc_valid (header_bytes (content fs.sd 0) (1 - fs.header_index)) ≡ true
      → (decode_header (header_bytes (content fs.sd 0) (1 - fs.header_index))).generation
        < fs.header.generation

  -- What a successful write of the header leaves on the card.
  pub record HeaderWritten (fs b : Fs D) : Type 0 where
    pub header : b.header ≡ header_crc_update fs.header
    pub slot : b.header_index ≡ fs.header_index
    pub holds : Holds (content b.sd 0) b.header_index b.header
    pub picked : pick_slot (content b.sd 0) ≡ b.header_index
    pub kept : (j : ℕ) → 0 ≢ j → content b.sd j ≡ content fs.sd j

  -- What the header block is after a write of the header into a block's bytes.
  abbrev pub with_header : List ℕ → Fs D → List ℕ
  with_header bytes fs =
      overwrite (137 * fs.header_index) (encode_header (header_crc_update fs.header)) bytes

  abbrev pub updated : Fs D → Fs D
  updated fs = record fs { header = header_crc_update fs.header }

  pub put_header-BlockWritten :
      (bytes : List ℕ) (fs : Fs D)
      → fs.header_index < 2
      → length bytes ≡ 512
      → Ends
          (λ _ b. BlockWritten 0 (with_header bytes fs) (updated fs) b)
          (λ _. ¬ Reliable p)
          (put_header p bytes fs)
  unfolding put_header ◌>>=◌ ◌>>◌
  put_header-BlockWritten bytes fs slot full =
      let inside : leb (137 * fs.header_index + 137) 512 ≡ true = ground (arith, slot) in
      rw inside (
        write_block-BlockWritten 0 (with_header bytes fs) (updated fs)
          (length-overwrite (137 * fs.header_index) _ bytes ∙ full))

  put_header-HeaderWritten :
      (bytes : List ℕ) (fs : Fs D)
      → fs.header_index < 2
      → HeaderFits fs.header
      → length bytes ≡ 512
      → (header_crc_valid (header_bytes bytes (1 - fs.header_index)) ≡ true
          → (decode_header (header_bytes bytes (1 - fs.header_index))).generation
            < fs.header.generation)
      → Ends (λ _ b. HeaderWritten fs b) (λ _. ¬ Reliable p) (put_header p bytes fs)
  put_header-HeaderWritten bytes fs slot fits full older =
      Ends-mono (λ _ b. BlockWritten 0 (with_header bytes fs) (updated fs) b)
        (λ _ b. HeaderWritten fs b) (λ _. ¬ Reliable p) (λ _. ¬ Reliable p) (put_header p bytes fs)
        (put_header-BlockWritten bytes fs slot full)
        (λ _ b w. record {
          header = w.header;
          slot = w.slot;
          holds =
              subst (λ (x : List ℕ). Holds x b.header_index b.header) (sym w.stored)
                (subst (λ (i : ℕ). Holds (with_header bytes fs) i b.header) (sym w.slot)
                  (subst (λ (x : Header). Holds (with_header bytes fs) fs.header_index x)
                    (sym w.header) (written-Holds fs.header fits fs.header_index slot bytes full)));
          picked =
              ap pick_slot w.stored
              ∙ pick_slot-written fs.header fits fs.header_index slot bytes full older
              ∙ sym w.slot;
          kept = w.kept;
        })
        (λ _ u. u)

  -- The write of the header works on what the card holds.
  pub header_write-HeaderWritten :
      (fs : Fs D)
      → fs.header_index < 2
      → HeaderFits fs.header
      → Older fs
      → Ends (λ _ b. HeaderWritten fs b) (λ _. ¬ Reliable p) (header_write p false fs)
  unfolding header_write
  header_write-HeaderWritten fs slot fits older =
      Ends-bind (λ bytes b. HeadersRead bytes fs b) (λ _ b. HeaderWritten fs b) (λ _. ¬ Reliable p)
        (header_buffer p false) (put_header p) fs (header_buffer-HeadersRead fs)
        λ bytes b r.
          Ends-mono (λ _ c. HeaderWritten b c) (λ _ c. HeaderWritten fs c) (λ _. ¬ Reliable p)
            (λ _. ¬ Reliable p) (put_header p bytes b)
            (put_header-HeaderWritten bytes b (omega (arith, r.slot))
              (subst (λ (x : Header). HeaderFits x) (sym r.header) fits) r.full
              (older_read bytes b r))
            (λ _ c w. record {
              header = w.header ∙ ap header_crc_update r.header;
              slot = w.slot ∙ r.slot;
              holds = w.holds;
              picked = w.picked;
              kept = λ j ne. w.kept j ne ∙ r.kept j;
            })
            (λ _ u. u)
    where
      older_read :
          (bytes : List ℕ) (b : Fs D)
          → HeadersRead bytes fs b
          → header_crc_valid (header_bytes bytes (1 - b.header_index)) ≡ true
          → (decode_header (header_bytes bytes (1 - b.header_index))).generation
            < b.header.generation
      older_read bytes b r v =
          let e : header_bytes bytes (1 - b.header_index)
              ≡ header_bytes (content fs.sd 0) (1 - fs.header_index) =
            ap₂ (λ (x : List ℕ) (i : ℕ). header_bytes x (1 - i)) r.same r.slot in
          omega (
            arith,
            older (sym (ap header_crc_valid e) ∙ v),
            ap (λ bs. (decode_header bs).generation) e,
            ap (λ (x : Header). x.generation) r.header,
          )
