-- ===== src/Fs/Blocks.antt =====
-- fkfs.cpp: `fkfs_read_block`, `fkfs_write_block` and `fkfs_block_ensure`.
use fkfs.Base.{ℕ, Bool, true, false, List, ◌==◌}
use fkfs.Exec.{Exec, Result, ok, failed}
use fkfs.Platform.{Platform}
use fkfs.Fs.{Fs, add32, sub32}

module _ {D : Type 0} (p : Platform D) where
  -- The status, what the destination holds afterwards, and the state.
  unfoldable pub read_block : ℕ → List ℕ → Fs D → Bool × List ℕ × Fs D
  read_block block dest fs =
      let (started, d) = p.millis fs.sd in
      let (status, dest', d') = p.sd_read block dest d in
      let (ended, d'') = p.millis d' in
      (
        status,
        dest',
        record fs {
          sd = d'';
          statistics = record fs.statistics {
            block_reads = add32 fs.statistics.block_reads 1;
            read_time = add32 fs.statistics.read_time (sub32 ended started);
          };
        },
      )

  unfoldable pub write_block : ℕ → List ℕ → Exec (Fs D) (Unit {0})
  write_block block source fs =
      let (started, d) = p.millis fs.sd in
      let (status, d') = p.sd_write block source d in
      let (ended, d'') = p.millis d' in
      (
        elim status [ true ↦ ok tt | false ↦ failed ],
        record fs {
          sd = d'';
          statistics = record fs.statistics {
            block_writes = add32 fs.statistics.block_writes 1;
            write_time = add32 fs.statistics.write_time (sub32 ended started);
          };
        },
      )

  -- `fkfs_read_block` with `fs->buffer` for the destination.
  unfoldable pub load_block : ℕ → Exec (Fs D) (Unit {0})
  unfolding read_block
  load_block block fs =
      let (status, bytes, fs') = read_block block fs.buffer fs in
      (elim status [ true ↦ ok tt | false ↦ failed ], record fs' { buffer = bytes })

  abbrev pub set_cached : ℕ → Result (Unit {0}) × Fs D → Result (Unit {0}) × Fs D
  set_cached block (ok a, fs) =
      (ok tt, record fs { cached_block_number = block; cached_block_dirty = false })
  set_cached block (r, fs) = (r, fs)

  -- The buffer holds the block afterwards; what was in it is not written back.
  unfoldable pub block_ensure : ℕ → Exec (Fs D) (Unit {0})
  unfolding load_block
  block_ensure block fs = elim (fs.cached_block_number == block) [
    | true ↦ (ok tt, fs)
    | false ↦ set_cached block (load_block block fs)
  ]
