-- ===== src/Fs/Sync.antt =====
-- fkfs.cpp: `fkfs_fsync`, `fkfs_touch` and `fkfs_flush`.
use fkfs.Base.{ℕ, ◌+◌, ◌%◌, true, false}
use fkfs.Exec.{Exec, ok, modify, gets, ◌>>=◌, ◌>>◌}
use fkfs.Platform.{Platform}
use fkfs.Fs.{Fs, add32, uint32_max}
use fkfs.Fs.Blocks.{write_block}
use fkfs.Fs.Headers.{header_write}

module _ {D : Type 0} where
  abbrev pub forget_cache : Fs D → Fs D
  forget_cache fs = record fs { cached_block_number = uint32_max; cached_block_dirty = false }

  -- `header.generation++; headerIndex = (headerIndex + 1) % 2`
  abbrev pub next_slot : Fs D → Fs D
  next_slot fs = record fs {
    header = record fs.header { generation = add32 fs.header.generation 1 };
    header_index = (fs.header_index + 1) % 2;
  }

module _ {D : Type 0} (p : Platform D) where
  -- What `fkfs_fsync` does when the cached block is dirty.
  unfoldable pub sync_dirty : Exec (Fs D) (Unit {0})
  sync_dirty = do
    block ← gets (λ fs. fs.header.block)
    bytes ← gets (λ fs. fs.buffer)
    write_block p block bytes
    modify forget_cache
    modify next_slot
    header_write p false
    modify forget_cache

  unfoldable pub fsync : Exec (Fs D) (Unit {0})
  unfolding sync_dirty
  fsync fs = elim fs.cached_block_dirty [ true ↦ sync_dirty fs | false ↦ (ok tt, fs) ]

  unfoldable pub touch : ℕ → Exec (Fs D) (Unit {0})
  touch time = do
    modify (λ fs. record fs { header = record fs.header { time = time } })
    header_write p false

  -- `fkfs_touch(fs, millis())`, then the sync.
  unfoldable pub flush : Exec (Fs D) (Unit {0})
  unfolding fsync touch
  flush = do
    time ← λ fs. let (now, d) = p.millis fs.sd in (ok now, record fs { sd = d })
    touch time
    fsync
