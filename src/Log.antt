-- ===== src/Log.antt =====
-- fkfs_log.cpp: the buffer that collects log data, and hands it to `fkfs_file_append` in pieces that
-- fit into a block.
pub mod Buffered
pub mod Whole
pub mod Stream
pub mod Traced
use fkfs.Base.{
  ℕ, zero, suc, ◌+◌, ◌%◌, ◌^◌, min, Bool, true, false, not, ◌&&◌, List, [], ◌∷◌, length, take, drop,
  set, ltb, leb, ◌==◌, if◌then◌else◌,
}
use fkfs.Base.Memory.{overwrite}
use fkfs.Exec.{
  Exec, Result, ok, failed, fault, out_of_fuel, fail, pure, raise, gets, modify, in_bounds, ◌>>=◌,
  ◌>>◌,
}
use fkfs.Layout.{maximum_block_size}
use fkfs.Fs.{sub32}

-- fkfs_log_t, with the file system that it points to.
pub record Log (S : Type 0) : Type 0 where
  pub fs : S
  pub file : ℕ
  pub position : ℕ
  pub buffer : List ℕ

-- `fkfs_file_append`: the file, the size, the data.
abbrev pub Append : Type 0 → Type 0
Append S = ℕ → ℕ → List ℕ → Exec S (Unit {0})

module _ {S : Type 0} where
  -- `position` is not set.
  unfoldable pub log_initialize : S → ℕ → Log S → Log S
  log_initialize fs file log = record log { buffer = set log.buffer 0 0; fs = fs; file = file }

  abbrev pub reset : Log S → Result (Unit {0}) × S → Result (Unit {0}) × Log S
  reset log (ok a, fs) = (ok tt, record log { fs = fs; buffer = set log.buffer 0 0; position = 0 })
  reset log (failed, fs) = (failed, record log { fs = fs })
  reset log (fault e, fs) = (fault e, record log { fs = fs })

  -- `log->buffer + log->position`, written to.
  unfoldable pub put : List ℕ → Exec (Log S) (Unit {0})
  put bytes = do
    position ← gets (λ log. log.position)
    in_bounds (leb (position + length bytes) maximum_block_size)
    modify (λ log. record log {
      buffer = overwrite position bytes log.buffer;
      position = position + length bytes;
    })

module _ {S : Type 0} (append : Append S) where
  unfoldable pub log_flush : Exec (Log S) (Unit {0})
  log_flush log = reset log (append log.file (log.position % 2 ^ 16) log.buffer log.fs)

  -- `if (log->position >= FKFS_MAXIMUM_BLOCK_SIZE)`
  unfoldable pub flush_full : Exec (Log S) (Unit {0})
  unfolding log_flush
  flush_full log = elim (leb maximum_block_size log.position) [
    | true ↦ log_flush log
    | false ↦ (ok tt, log)
  ]

  -- The loop; `bytes` are the `required` bytes at `ptr`.
  unfoldable pub append_loop : ℕ → List ℕ → Exec (Log S) (Unit {0})
  append_loop fuel [] = pure tt
  append_loop zero (b ∷ bs) = raise out_of_fuel
  append_loop (suc fuel) (b ∷ bs) = do
    position ← gets (λ log. log.position)
    let copy = min (sub32 maximum_block_size position) (length (b ∷ bs))
    put (take copy (b ∷ bs))
    flush_full
    append_loop fuel (drop copy (b ∷ bs))

  -- What must not be split and does not fit behind the buffered bytes goes into a new piece.
  unfoldable pub make_whole : Bool → ℕ → Exec (Log S) (Unit {0})
  unfolding log_flush
  make_whole can_split size log =
      elim (not can_split && ltb (sub32 maximum_block_size log.position) size) [
        | true ↦ elim (leb maximum_block_size size) [ true ↦ (failed, log) | false ↦ log_flush log ]
        | false ↦ (ok tt, log)
      ]

  -- Each round but the first moves a byte at least.
  unfoldable pub append_binary : List ℕ → Bool → Exec (Log S) (Unit {0})
  unfolding append_loop make_whole
  append_binary bytes can_split = do
    make_whole can_split (length bytes)
    append_loop (suc (length bytes)) bytes

  -- A string is the bytes in front of its first zero.
  abbrev string_bytes : List ℕ → List ℕ
  string_bytes [] = []
  string_bytes (c ∷ cs) = if c == 0 then [] else c ∷ string_bytes cs

  unfoldable pub log_append : List ℕ → Exec (Log S) (Unit {0})
  unfolding append_binary
  log_append str = append_binary (string_bytes str) true

  -- `incoming` is what `vsnprintf` leaves in the array.
  unfoldable pub log_printf : List ℕ → Exec (Log S) (Unit {0})
  unfolding log_append
  log_printf incoming = log_append incoming
