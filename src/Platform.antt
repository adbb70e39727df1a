-- ===== src/Platform.antt =====
-- What fkfs.cpp calls and does not implement: the block functions of sd_raw.h, Arduino's `millis` and
-- `random`, and the memory behind the block buffer. `D` is the state of all of that, the struct
-- `sd_raw_t` with the card, the clock and the generator.
use fkfs.Base.{ℕ, ◌≡◌, ◌≢◌, Bool, true, List, length}

pub record Platform (D : Type 0) : Type 0 where
  -- The block's number and what the destination holds; the status and what it holds then.
  pub sd_read : ℕ → List ℕ → D → Bool × List ℕ × D
  pub sd_write : ℕ → List ℕ → D → Bool × D
  pub card_size : D → ℕ × D
  pub millis : D → ℕ × D
  pub random : ℕ → D → ℕ × D
  -- `memset` of the `sd_raw_t` in the struct of the file system
  pub sd_zero : D → D
  -- The byte at an index of the block buffer that is behind its end.
  pub past : D → ℕ → ℕ

-- A card that keeps blocks: `content` is what it holds. A successful read delivers the block, a
-- successful write replaces that block, and nothing else changes a block. An attempt that fails may
-- leave anything in the destination, or in the block that it was to write.
pub record IsDisk {D : Type 0} (p : Platform D) (content : D → ℕ → List ℕ) : Type 0 where
  pub read_status :
      (b : ℕ) (dest : List ℕ) (d : D)
      → (p.sd_read b dest d).0 ≡ true
      → (p.sd_read b dest d).1 ≡ content d b
  pub read_length : (b : ℕ) (dest : List ℕ) (d : D) → length (p.sd_read b dest d).1 ≡ length dest
  pub read_keeps :
      (b j : ℕ) (dest : List ℕ) (d : D) → content (p.sd_read b dest d).2 j ≡ content d j
  pub write_self :
      (b : ℕ) (source : List ℕ) (d : D)
      → (p.sd_write b source d).0 ≡ true
      → content (p.sd_write b source d).1 b ≡ source
  pub write_ne :
      (b j : ℕ) (source : List ℕ) (d : D)
      → b ≢ j
      → content (p.sd_write b source d).1 j ≡ content d j
  pub millis_keeps : (j : ℕ) (d : D) → content (p.millis d).1 j ≡ content d j
  pub size_keeps : (j : ℕ) (d : D) → content (p.card_size d).1 j ≡ content d j
  pub random_keeps : (n j : ℕ) (d : D) → content (p.random n d).1 j ≡ content d j

-- A card on which no transfer of a whole block fails.
pub record Reliable {D : Type 0} (p : Platform D) : Type 0 where
  pub reads : (b : ℕ) (dest : List ℕ) (d : D) → length dest ≡ 512 → (p.sd_read b dest d).0 ≡ true
  pub writes :
      (b : ℕ) (source : List ℕ) (d : D) → length source ≡ 512 → (p.sd_write b source d).0 ≡ true
