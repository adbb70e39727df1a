-- ===== src/Fs/Iterator.antt =====
-- fkfs.cpp: the tokens of the iterator and the loop of `fkfs_file_iterate`.
pub mod Delivery
pub mod Ticks
pub mod Passing
pub mod Block
pub mod Round
pub mod Scan
pub mod Wrapped
pub mod ReadBack
pub mod Loaded
pub mod Survival
use fkfs.Base.{
  ℕ, zero, suc, ◌+◌, ◌%◌, ◌^◌, Bool, true, false, not, ◌&&◌, ◌||◌, ◌==◌, ltb, leb, if◌then◌else◌,
}
use fkfs.Exec.{Exec, Result, ok, failed, fault, out_of_fuel, pure, fail, modify, gets, ◌>>=◌, ◌>>◌}
use fkfs.Layout.{File, Entry, sizeof_entry}
use fkfs.Platform.{Platform}
use fkfs.Fs.{Fs, file_at, add32, sub32, first_block, uint32_max}
use fkfs.Fs.Blocks.{block_ensure}
use fkfs.Fs.Check.{good, bad_crc, block_check, entry_at}

-- fkfs_iterator_token_t
pub record Token : Type 0 where
  pub file : ℕ
  pub block : ℕ
  pub offset : ℕ
  pub last_block : ℕ
  pub last_offset : ℕ
  pub size : ℕ

-- fkfs_iterator_config_t
pub record Config : Type 0 where
  pub max_blocks : ℕ
  pub max_time : ℕ
  pub manual_next : Bool

-- fkfs_file_iter_t; `data` is a pointer into `fs->buffer`, here its index there.
pub record Iter : Type 0 where
  pub token : Token
  pub pointer : ℕ
  pub size : ℕ
  pub iterated : ℕ

-- A token for a file that is read from `block` and `offset` on, up to its present end.
abbrev pub token_of : ℕ → File → ℕ → ℕ → Token
token_of number file block offset = record {
  file = number;
  block = block;
  offset = offset;
  last_block = file.end_block;
  last_offset = file.end_offset;
  size = file.size;
}

unfoldable pub iterator_done : Iter → Bool
iterator_done iter =
    ltb iter.token.last_block iter.token.block
    || (iter.token.block == iter.token.last_block && leb iter.token.last_offset iter.token.offset)

unfoldable pub iterator_move_end : Iter → Iter
iterator_move_end iter = record iter {
  token = record iter.token { block = iter.token.last_block; offset = iter.token.last_offset };
}

-- `token.offset += entry->available + sizeof(fkfs_entry_t)`
unfoldable pub skip_entry : Entry → Iter → Iter
skip_entry entry iter = record iter {
  token = record iter.token {
    offset = (iter.token.offset + (entry.available + sizeof_entry)) % 2 ^ 16;
  };
}

module _ {D : Type 0} where
  unfoldable pub iterator_create : ℕ → Iter → Exec (Fs D) Iter
  iterator_create number iter = do
    file ← file_at number
    pure (record iter { token = token_of number file file.start_block file.start_offset })

  -- A token of more bytes than the file has is of an older version: the file is read from its start.
  unfoldable pub iterator_reopen : Iter → Token → Exec (Fs D) Iter
  unfolding iterator_create
  iterator_reopen iter token = do
    file ← file_at token.file
    elim (ltb file.size token.size) [
      | true ↦ iterator_create token.file iter
      | false ↦ pure (record iter { token = token_of token.file file token.block token.offset })
    ]

  unfoldable pub iterator_resume : Iter → Token → Exec (Fs D) Iter
  unfolding iterator_create
  iterator_resume iter token = do
    file ← file_at token.file
    elim (ltb file.size token.size) [
      | true ↦ iterator_create token.file iter
      | false ↦ pure (record iter { token = token })
    ]

  unfoldable pub iterator_valid : Fs D → Iter → Bool
  iterator_valid fs iter =
      ltb 0 iter.token.block
      && leb iter.token.block fs.header.block
      && (ltb iter.token.block iter.token.last_block
          || (iter.token.block == iter.token.last_block
              && leb iter.token.offset iter.token.last_offset))

-- FKFS_ENSURE_*
pub data Ensured : Type 0 where
  ensure_failed ensure_loaded ensure_noop : Ensured

-- How a round of the loop of `fkfs_file_iterate` goes on; `again` carries `maxBlocks`.
pub data Verdict : Type 0 where
  finish : Bool → Verdict
  again : ℕ → Verdict

module _ {D : Type 0} (p : Platform D) where
  unfoldable pub iterate_move : Bool → Fs D → Iter → Bool × Iter
  unfolding skip_entry
  iterate_move check_block fs iter =
      let moved = skip_entry (entry_at p fs.sd fs.buffer iter.token.offset) iter in
      elim check_block [
        | true ↦ elim (block_check p fs fs.buffer iter.token.offset) [
          | bad_crc ↦ (true, moved)
          | good ↦ (true, moved)
          | _ ↦ (false, iter)
        ]
        | false ↦ (true, moved)
      ]

  abbrev ensured : Result (Unit {0}) × Fs D → Result Ensured × Fs D
  ensured (ok a, fs) = (ok ensure_loaded, fs)
  ensured (failed, fs) = (ok ensure_failed, fs)
  ensured (fault e, fs) = (fault e, fs)

  unfoldable pub iterator_ensure : Iter → Exec (Fs D) Ensured
  iterator_ensure iter fs = elim (fs.cached_block_number == iter.token.block) [
    | true ↦ (ok ensure_noop, fs)
    | false ↦ ensured (block_ensure p iter.token.block fs)
  ]

  abbrev pub State : Type 0
  State = Fs D × Iter

  unfoldable pub now : Exec State ℕ
  now (fs, iter) = let (t, d) = p.millis fs.sd in (ok t, (record fs { sd = d }, iter))

  -- An entry of the file: the caller gets its data, and the token moves on unless it is to stay.
  unfoldable pub deliver : Config → Entry → Iter → Iter
  unfolding skip_entry
  deliver config entry iter =
      let found = record iter {
        size = entry.size;
        pointer = iter.token.offset + sizeof_entry;
        iterated = add32 iter.iterated entry.size;
      } in
      if config.manual_next then found else skip_entry entry found

  -- Another file's entry, or one whose checksum is wrong.
  unfoldable pub pass_entry : ℕ → Entry → Exec State Verdict
  unfolding skip_entry
  pass_entry max_blocks entry (fs, iter) =
      let moved = skip_entry entry iter in
      (ok (if iterator_done moved then finish false else again max_blocks), (fs, moved))

  -- `config->maxTime > 0 && (millis() - started) > config->maxTime`
  unfoldable pub time_reached : Config → ℕ → Exec State Bool
  unfolding now
  time_reached config started = elim (ltb 0 config.max_time) [
    | true ↦ do t ← now; pure (ltb config.max_time (sub32 t started))
    | false ↦ pure false
  ]

  -- No entry: on to the next block, round the end of the card, unless a limit is reached.
  unfoldable pub pass_block : Config → ℕ → ℕ → Exec State Verdict
  unfolding time_reached
  pass_block config started max_blocks (fs, iter) =
      let next = record iter {
        token = record iter.token { block = add32 iter.token.block 1; offset = 0 };
      } in
      let wrapped = record next {
        token = record next.token {
          block =
              if next.token.block == sub32 fs.number_of_blocks 2 || next.token.block == uint32_max
              then first_block
              else next.token.block;
        };
      } in
      let left = if ltb 0 config.max_blocks then sub32 max_blocks 1 else max_blocks in
      let blocks_reached = ltb 0 config.max_blocks && left == 0 in
      elim (iterator_done next) [
        | true ↦ (ok (finish false), (fs, next))
        | false ↦
            (time_reached config started >>= λ late.
            pure (if blocks_reached || late then finish false else again left))
              (fs, wrapped)
      ]

  -- What a round does with the block in the cache.
  unfoldable pub scan_entry : Config → ℕ → ℕ → Exec State Verdict
  unfolding pass_entry pass_block deliver
  scan_entry config started max_blocks (fs, iter) =
      let entry = entry_at p fs.sd fs.buffer iter.token.offset in
      elim (block_check p fs fs.buffer iter.token.offset) [
        | good ↦ elim (entry.file == iter.token.file) [
          | true ↦ (ok (finish true), (fs, deliver config entry iter))
          | false ↦ pass_entry max_blocks entry (fs, iter)
        ]
        | bad_crc ↦ pass_entry max_blocks entry (fs, iter)
        | _ ↦ pass_block config started max_blocks (fs, iter)
      ]

  -- A block that cannot be read ends the loop.
  unfoldable pub scan_round : Config → ℕ → ℕ → Exec State Verdict
  unfolding scan_entry
  scan_round config started max_blocks (fs, iter) =
      let (r, fs') = block_ensure p iter.token.block fs in
      elim r [
        | ok _ ↦ scan_entry config started max_blocks (fs', iter)
        | failed ↦ (ok (finish false), (fs', iter))
        | fault e ↦ (fault e, (fs', iter))
      ]

  -- The note of progress once a second: `lastStatus` afterwards.
  unfoldable pub report : ℕ → Exec State ℕ
  unfolding now
  report last_status = do
    t ← now
    elim (ltb 1000 (sub32 t last_status)) [ true ↦ now | false ↦ pure last_status ]

  unfoldable pub scan_loop : Config → ℕ → ℕ → ℕ → ℕ → Exec State Bool
  unfolding scan_round report
  scan_loop config started zero last_status max_blocks s = (fault out_of_fuel, s)
  scan_loop config started (suc fuel) last_status max_blocks s =
      (scan_round config started max_blocks >>= λ verdict. elim verdict [
        | finish success ↦ pure success
        | again left ↦ report last_status >>= λ status. scan_loop config started fuel status left
      ])
        s

  -- `iterateTime += millis() - started; return success;`
  unfoldable pub close_scan : ℕ → Bool → Exec State (Unit {0})
  unfolding now
  close_scan started success = do
    t ← now
    modify (λ (fs, iter). (
      record fs {
        statistics = record fs.statistics {
          iterate_time = add32 fs.statistics.iterate_time (sub32 t started);
        };
      },
      iter,
    ))
    if success then pure tt else fail

  abbrev pub count_call : Fs D → Fs D
  count_call fs = record fs {
    statistics = record fs.statistics { iterate_calls = add32 fs.statistics.iterate_calls 1 };
  }

  -- `fuel` bounds the rounds of the loop.
  unfoldable pub file_iterate : ℕ → Config → Exec State (Unit {0})
  unfolding scan_loop close_scan iterator_valid iterator_done
  file_iterate fuel config = do
    modify (λ (fs, iter). (count_call fs, iter))
    enter ← gets (λ (fs, iter). iterator_valid fs iter && not (iterator_done iter))
    elim enter [
      | false ↦ fail
      | true ↦ do
        started ← now
        success ← scan_loop config started fuel started config.max_blocks
        close_scan started success
    ]
