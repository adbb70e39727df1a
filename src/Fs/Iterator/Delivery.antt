-- ===== src/Fs/Iterator/Delivery.antt =====
-- A round of an iteration: what it delivers, why it stops, and how far it moves on.
use fkfs.Base.{ℕ, ◌+◌, ◌-◌, ◌*◌, ◌^◌, ◌%◌, ◌<◌, ◌≤◌, ◌≡◌, ◌≢◌, ◌⊎◌, true, false, List, length}
use fkfs.Platform.{Platform, Reliable}
use fkfs.Fs.{Fs, add32, sub32, first_block, uint32_max}
use fkfs.Fs.Check.{good, bad_size, bad_crc, block_check, entry_at}
use fkfs.Fs.Iterator.{Config, Iter, Verdict, finish, again, State, iterator_done}

-- What stands in memory behind the block buffer is not taken for an entry.
pub record NothingBehind {D : Type 0} (p : Platform D) : Type 0 where
  pub no_entry :
      (fs : Fs D) (offset : ℕ)
      → length fs.buffer ≡ 512
      → 512 ≤ offset
      → block_check p fs fs.buffer offset ≡ bad_size

module _ {D : Type 0} (p : Platform D) (content : D → ℕ → List ℕ) where
  -- A reading of the clock changes nothing but the platform's state.
  pub record Ticked (s s' : State p) : Type 0 where
    pub sd : D
    pub same : s' ≡ (record s.0 { sd = sd }, s.1)
    pub card : (j : ℕ) → content sd j ≡ content s.0.sd j

-- From the state `start`, over a card of which `content` is what it holds.
module _ {D : Type 0} (p : Platform D) (content : D → ℕ → List ℕ) (config : Config)
    (start : State p) where
  abbrev pub number : ℕ
  number = start.1.token.file

  -- The bytes are those of the block: the card's, or those that stood in the buffer at the start.
  abbrev pub Seen : ℕ → List ℕ → Type 0
  Seen block bytes =
      (bytes ≡ content start.0.sd block)
      ⊎ ((start.0.cached_block_number ≡ block) × (bytes ≡ start.0.buffer))

  -- The positions, as a block and an offset, that are reached from the token's over other files'
  -- entries and those with a wrong checksum, and from a block without an entry at the position to the
  -- next. `fs` is the state that an entry is checked in.
  pub data Reached : ℕ → ℕ → Type 0 where
    at_token : Reached start.1.token.block start.1.token.offset
    over_other :
        (block offset : ℕ) (fs : Fs D)
        → Reached block offset
        → Seen block fs.buffer
        → fs.header ≡ start.0.header
        → block_check p fs fs.buffer offset ≡ good
        → (entry_at p fs.sd fs.buffer offset).file ≢ number
        → Reached block ((offset + ((entry_at p fs.sd fs.buffer offset).available + 7)) % 2 ^ 16)
    over_broken :
        (block offset : ℕ) (fs : Fs D)
        → Reached block offset
        → Seen block fs.buffer
        → fs.header ≡ start.0.header
        → block_check p fs fs.buffer offset ≡ bad_crc
        → Reached block ((offset + ((entry_at p fs.sd fs.buffer offset).available + 7)) % 2 ^ 16)
    to_next :
        (block offset : ℕ) (fs : Fs D)
        → Reached block offset
        → Seen block fs.buffer
        → fs.header ≡ start.0.header
        → block_check p fs fs.buffer offset ≡ bad_size
        → Reached (add32 block 1) 0
    around :
        (block : ℕ)
        → Reached block 0
        → (block ≡ sub32 start.0.number_of_blocks 2) ⊎ (block ≡ uint32_max)
        → Reached first_block 0

  -- The token's end is in front of the card's end, and its offset has 16 bits.
  pub record Within : Type 0 where
    pub end : start.1.token.last_block < sub32 start.0.number_of_blocks 2
    pub small : start.1.token.last_block < 2 ^ 32 - 1
    pub offset : start.1.token.offset < 2 ^ 16

  abbrev pub place : Iter → ℕ
  place iter = iter.token.block * 65536 + iter.token.offset

  -- The scan has not gone back, nor beyond the token's last block.
  pub record Ahead (iter : Iter) : Type 0 where
    pub moved : place start.1 ≤ place iter
    pub inside : iter.token.block ≤ start.1.token.last_block
    pub low : iter.token.offset < 65536

  -- The iterator points behind the head of a good entry of the file, in the cached block, and the
  -- entry is the first at a position that is reached. `at` is the state in which it was checked.
  pub record Delivered (s : State p) : Type 0 where
    pub at : Fs D
    pub block : ℕ
    pub offset : ℕ
    pub reached : Reached block offset
    pub seen : Seen block s.0.buffer
    pub buffer : at.buffer ≡ s.0.buffer
    pub same_header : at.header ≡ start.0.header
    pub good_entry : block_check p at at.buffer offset ≡ good
    pub own : (entry_at p at.sd at.buffer offset).file ≡ number
    pub size : s.1.size ≡ (entry_at p at.sd at.buffer offset).size
    pub pointer : s.1.pointer ≡ offset + 7
    pub whole : length s.0.buffer ≡ 512
    pub kept : s.0.header ≡ start.0.header
    pub same_size : s.0.number_of_blocks ≡ start.0.number_of_blocks
    pub last : s.1.token.last_block ≡ start.1.token.last_block
    pub ahead : Within → config.manual_next ≡ false → Ahead s.1 × (place start.1 < place s.1)

  -- A scan that finds nothing has reached the token's end, was limited, or met a card that fails.
  pub data Stopped (s : State p) : Type 0 where
    at_end : Reached s.1.token.block s.1.token.offset → iterator_done s.1 ≡ true → Stopped s
    limited : (0 < config.max_blocks) ⊎ (0 < config.max_time) → Stopped s
    unreadable : ¬ Reliable p → Stopped s

  pub record Ended (s : State p) : Type 0 where
    pub stopped : Stopped s
    pub kept : s.0.header ≡ start.0.header

  -- The blocks that are left to a scan: those of its limit, or those up to the token's last one.
  pub data Budget (left : ℕ) (s : State p) (blocks : ℕ) : Type 0 where
    by_limit :
        0 < config.max_blocks → 0 < left → left < 2 ^ 32 → left ≡ blocks → Budget left s blocks
    by_token :
        config.max_blocks ≡ 0
        → s.1.token.last_block ≡ s.1.token.block + blocks
        → s.1.token.last_block < sub32 s.0.number_of_blocks 2
        → s.1.token.last_block < 2 ^ 32 - 1
        → Budget left s blocks

  -- A scan that goes on, for fewer rounds than `rounds`.
  pub record Goes (rounds left : ℕ) (s : State p) : Type 0 where
    pub whole : length s.0.buffer ≡ 512
    pub kept : s.0.header ≡ start.0.header
    pub same_size : s.0.number_of_blocks ≡ start.0.number_of_blocks
    pub card : (j : ℕ) → content s.0.sd j ≡ content start.0.sd j
    pub seen : Seen s.0.cached_block_number s.0.buffer
    pub own : s.1.token.file ≡ number
    pub reached : Reached s.1.token.block s.1.token.offset
    pub last : s.1.token.last_block ≡ start.1.token.last_block
    pub ahead : Within → Ahead s.1
    pub blocks : ℕ
    pub budget : Budget left s blocks
    pub bound : blocks * 700 + (600 - s.1.token.offset) < rounds

  abbrev pub Found : ℕ → Verdict → State p → Type 0
  Found rounds (finish true) s = Delivered s
  Found rounds (finish false) s = Ended s
  Found rounds (again left) s = Goes rounds left s
