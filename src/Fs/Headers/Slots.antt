-- ===== src/Fs/Headers/Slots.antt =====
-- The two slots of the header block: what a write of one does to both, and which of them
-- `fkfs_initialize` picks afterwards.
use fkfs.Base.{
  ℕ, zero, suc, ◌+◌, ◌-◌, ◌*◌, ◌≤◌, ◌<◌, ◌≡◌, true, refl, sym, ap, ◌∙◌, arith, List, length, take,
  ==_iff, [],
}
use fkfs.Base.Memory.{overwrite}
use fkfs.Base.Slices.{slice-overwrite_self, take-overwrite, drop-overwrite}
use mathlib.Core.List.{append-nil}
use fkfs.Crc.{crc16_update}
use fkfs.Crc.Injective.{crc16_update-lt}
use fkfs.Layout.{Header, encode_header, decode_header}
use fkfs.Layout.RoundTrip.{
  HeaderFits, decode_header-encode_header, length-encode_header, take-encode_header_crc,
}
use fkfs.Fs.Headers.{header_bytes, header_crc, header_crc_valid, header_crc_update}
use fkfs.Fs.Init.{pick_slot}

pub header_bytes-overwrite_self :
    (i : ℕ) (bs block : List ℕ)
    → length bs ≡ 137
    → 137 * i + 137 ≤ length block
    → header_bytes (overwrite (137 * i) bs block) i ≡ bs
unfolding header_bytes
header_bytes-overwrite_self i bs block e h = slice-overwrite_self (137 * i) 137 bs block e h

-- Writing one slot keeps the other.
pub header_bytes-overwrite_other :
    (i : ℕ) (bs block : List ℕ)
    → length bs ≡ 137
    → i < 2
    → header_bytes (overwrite (137 * i) bs block) (1 - i) ≡ header_bytes block (1 - i)
unfolding header_bytes
header_bytes-overwrite_other zero bs block e h =
    ap (take 137) (drop-overwrite 137 0 bs block (omega arith))
header_bytes-overwrite_other (suc zero) bs block e h = take-overwrite 137 137 bs block (omega arith)
header_bytes-overwrite_other (suc (suc i)) bs block e h = absurd (omega arith)

pub header_crc_update-fits : (h : Header) → HeaderFits h → HeaderFits (header_crc_update h)
unfolding header_crc_update
header_crc_update-fits h f = record {
  version = f.version;
  generation = f.generation;
  block = f.block;
  offset = f.offset;
  time = f.time;
  count = f.count;
  files = f.files;
  crc = crc16_update-lt 31337 (take 135 (encode_header h)) (omega arith);
}

generation-header_crc_update : (h : Header) → (header_crc_update h).generation ≡ h.generation
unfolding header_crc_update
generation-header_crc_update h = refl

decode_header-encode_header_alone :
    (h : Header) → HeaderFits h → decode_header (encode_header h) ≡ h
decode_header-encode_header_alone h f =
    ap decode_header (sym (append-nil (encode_header h))) ∙ decode_header-encode_header h [] f

up_to_date :
    (h : Header)
    → HeaderFits h
    → (header_crc_update h).crc ≡ header_crc (encode_header (header_crc_update h))
unfolding header_crc_update header_crc
up_to_date h f = ap (crc16_update 31337) (sym (take-encode_header_crc h _ f))

-- A header whose checksum was brought up to date is valid.
header_crc_valid-header_crc_update :
    (h : Header) → HeaderFits h → header_crc_valid (encode_header (header_crc_update h)) ≡ true
unfolding header_crc_valid
header_crc_valid-header_crc_update h f = (==_iff _ _).1 (
    ap (λ (x : Header). x.crc)
      (decode_header-encode_header_alone (header_crc_update h) (header_crc_update-fits h f))
    ∙ up_to_date h f)

-- Which slot is picked, by the two checks and the generations.
pick_slot_newer :
    (block : List ℕ) (i : ℕ)
    → i < 2
    → header_crc_valid (header_bytes block i) ≡ true
    → (header_crc_valid (header_bytes block (1 - i)) ≡ true
        → (decode_header (header_bytes block (1 - i))).generation
          < (decode_header (header_bytes block i)).generation)
    → pick_slot block ≡ i
unfolding pick_slot
pick_slot_newer block zero lt v older = ground arith
pick_slot_newer block (suc zero) lt v older = ground arith
pick_slot_newer block (suc (suc i)) lt v older = absurd (omega arith)

-- A slot that holds a header with its checksum.
pub record Holds (block : List ℕ) (i : ℕ) (h : Header) : Type 0 where
  pub valid : header_crc_valid (header_bytes block i) ≡ true
  pub reads : decode_header (header_bytes block i) ≡ h

module _ (h : Header) (f : HeaderFits h) (i : ℕ) (slot : i < 2) (block : List ℕ)
    (full : length block ≡ 512) where
  abbrev pub written : List ℕ
  written = overwrite (137 * i) (encode_header (header_crc_update h)) block

  length-encoded : length (encode_header (header_crc_update h)) ≡ 137
  length-encoded = length-encode_header (header_crc_update h) (header_crc_update-fits h f)

  pub written-Holds : Holds written i (header_crc_update h)
  written-Holds =
      let e : header_bytes written i ≡ encode_header (header_crc_update h) =
        header_bytes-overwrite_self i _ block length-encoded (omega (arith, full)) in
      record {
        valid = ap header_crc_valid e ∙ header_crc_valid-header_crc_update h f;
        reads =
            ap decode_header e
            ∙ decode_header-encode_header_alone (header_crc_update h) (header_crc_update-fits h f);
      }

  -- Of two slots the one that was written last is picked, if the other is invalid or older.
  pub pick_slot-written :
      (header_crc_valid (header_bytes block (1 - i)) ≡ true
        → (decode_header (header_bytes block (1 - i))).generation < h.generation)
      → pick_slot written ≡ i
  pick_slot-written older = pick_slot_newer written i slot written-Holds.valid λ v.
      let e : header_bytes written (1 - i) ≡ header_bytes block (1 - i) =
        header_bytes-overwrite_other i _ block length-encoded slot in
      omega (
        arith,
        older (sym (ap header_crc_valid e) ∙ v),
        ap (λ bs. (decode_header bs).generation) e,
        ap (λ (x : Header). x.generation) written-Holds.reads,
        generation-header_crc_update h,
      )
