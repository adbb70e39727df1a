-- ===== src/Fs/Invariant/Allocate/Leaving.antt =====
-- What a sync on the way to the next block does to the card.
use fkfs.Base.{
  ℕ, ◌≡◌, ◌≢◌, ◌⊎◌, ◌+◌, ◌*◌, ◌<◌, leb, inl, inr, Bool, true, false, List, refl, Bool-cases, arith,
  replicate,
}
use fkfs.Layout.{block_size}
use fkfs.Exec.{Result, failed, ok, modify, ◌>>=◌, ◌>>◌}
use fkfs.Exec.Ends.{Ends, Ends-bind, Ends-then, Ends-mono, Ends-both}
use fkfs.Platform.{Platform}
use fkfs.Fs.{Fs, uint32_max}
use fkfs.Fs.Blocks.{read_block, write_block}
use fkfs.Fs.Headers.{header_buffer, put_header, header_write}
use fkfs.Fs.Sync.{sync_dirty, fsync, forget_cache, next_slot}
use fkfs.Fs.Append.{next_block}
use fkfs.Fs.Invariant.{IsFs}
use fkfs.Fs.Invariant.Sync.{
  Wrote, header_buffer-Ends, fsync_dirty, fsync_clean, Synced, write_block-Ends, next_slot-Synced,
  forget_cache-Synced,
}
use fkfs.Fs.Invariant.Allocate.Visits.{Since, Source, Between}

module _ {D : Type 0} (p : Platform D) (fs : Fs D) where
  -- What a step ends with where the card has been left in one of those states.
  header_buffer-Since :
      (wipe : Bool) (b : Fs D)
      → Since p fs b.sd
      → Ends (λ _ c. Since p fs c.sd) (λ c. Since p fs c.sd) (header_buffer p wipe b)
  unfolding header_buffer read_block
  header_buffer-Since true b s = s
  header_buffer-Since false b s =
      by_status (p.sd_read 0 (replicate block_size 0) (p.millis b.sd).1).0
    where
      after : Since p fs (p.millis (p.sd_read 0 (replicate block_size 0) (p.millis b.sd).1).2).1
      after = Since.clock (Since.read 0 (replicate block_size 0) (Since.clock s))

      by_status :
          (status : Bool)
          → Ends
              (λ _ c. Since p fs c.sd)
              (λ c. Since p fs c.sd)
              (
                elim status as (λ (x : Bool). Result (List ℕ)) [
                  | true ↦ ok (p.sd_read 0 (replicate block_size 0) (p.millis b.sd).1).1
                  | false ↦ failed
                ],
                (read_block p 0 (replicate block_size 0) b).2,
              )
      by_status true = after
      by_status false = after

  write-Since :
      (block : ℕ) (bytes : List ℕ) (b : Fs D)
      → Since p fs (p.sd_write block bytes (p.millis b.sd).1).1
      → Ends (λ _ c. Since p fs c.sd) (λ c. Since p fs c.sd) (write_block p block bytes b)
  unfolding write_block
  write-Since block bytes b s = by_status (p.sd_write block bytes (p.millis b.sd).1).0
    where
      by_status :
          (status : Bool)
          → Ends
              (λ _ c. Since p fs c.sd)
              (λ c. Since p fs c.sd)
              (
                elim status as (λ (x : Bool). Result (Unit {0})) [ true ↦ ok tt | false ↦ failed ],
                (write_block p block bytes b).1,
              )
      by_status true = Since.clock s
      by_status false = Since.clock s

  put_header-Since :
      (bytes : List ℕ) (b : Fs D)
      → b.header_index < 2
      → Since p fs b.sd
      → Ends (λ _ c. Since p fs c.sd) (λ c. Since p fs c.sd) (put_header p bytes b)
  unfolding put_header ◌>>=◌ ◌>>◌
  put_header-Since bytes b slot s =
      let inside : leb (137 * b.header_index + 137) 512 ≡ true = ground (arith, slot) in
      rw inside (write-Since 0 _ _ (Since.header_written _ (Since.clock s)))

  header_write-Since :
      (wipe : Bool) (b : Fs D)
      → IsFs b
      → Since p fs b.sd
      → Ends (λ _ c. Since p fs c.sd) (λ c. Since p fs c.sd) (header_write p wipe b)
  unfolding header_write
  header_write-Since wipe b h s =
      Ends-bind (λ _ c. Wrote b c × Since p fs c.sd) (λ _ c. Since p fs c.sd) (λ c. Since p fs c.sd)
        (header_buffer p wipe) (put_header p) b
        (Ends-mono (λ _ c. Wrote b c × Since p fs c.sd) (λ _ c. Wrote b c × Since p fs c.sd)
          (λ c. Wrote b c × Since p fs c.sd) (λ c. Since p fs c.sd) (header_buffer p wipe b)
          (Ends-both (λ _ c. Wrote b c) (λ _ c. Since p fs c.sd) (λ c. Wrote b c)
            (λ c. Since p fs c.sd) (header_buffer p wipe b) (header_buffer-Ends p wipe b h)
            (header_buffer-Since wipe b s))
          (λ _ _ q. q) (λ _ q. q.1))
        λ bytes c q. put_header-Since bytes c q.0.is_fs.slot q.1

  -- What a sync before the next block leaves.
  pub record Left (b : Fs D) : Type 0 where
    pub since : Since p fs b.sd
    pub clean : b.cached_block_dirty ≡ false
    pub held : Source p fs b.buffer b.cached_block_number ⊎ (b.cached_block_number ≡ uint32_max)

  sync_dirty-Left :
      (start : ℕ) (b : Fs D)
      → IsFs b
      → b.cached_block_dirty ≡ true
      → Between p fs start b
      → Ends (λ _ c. Left c) (λ _. Unit {0}) (sync_dirty p b)
  unfolding sync_dirty ◌>>=◌ ◌>>◌
  sync_dirty-Left start b h is t =
      let (block, bytes, own) = t.dirty is in
      Ends-then (λ _ c. Synced b c × Since p fs c.sd) (λ _ c. Left c) (λ _. Unit {0})
        (write_block p b.header.block b.buffer) _ b
        (Ends-mono (λ _ c. Synced b c × Since p fs c.sd) (λ _ c. Synced b c × Since p fs c.sd)
          (λ c. Synced b c × Since p fs c.sd) (λ _. Unit {0})
          (write_block p b.header.block b.buffer b)
          (Ends-both (λ _ c. Synced b c) (λ _ c. Since p fs c.sd) (λ c. Synced b c)
            (λ c. Since p fs c.sd) (write_block p b.header.block b.buffer b)
            (write_block-Ends p b.header.block b.buffer b h)
            (write-Since b.header.block b.buffer b
              (rw (block, bytes) (Since.flushed own (Since.clock t.since)))))
          (λ _ _ q. q) (λ _ _. tt))
        λ c q.
          Ends-then (λ _ d. Since p fs d.sd) (λ _ d. Left d) (λ _. Unit {0}) (header_write p false)
            (modify forget_cache) (next_slot (forget_cache c))
            (Ends-mono (λ _ d. Since p fs d.sd) (λ _ d. Since p fs d.sd) (λ d. Since p fs d.sd)
              (λ _. Unit {0}) (header_write p false (next_slot (forget_cache c)))
              (header_write-Since false (next_slot (forget_cache c))
                (next_slot-Synced (forget_cache-Synced q.0)).is_fs q.1)
              (λ _ _ s. s) (λ _ _. tt))
            (λ d s. record { since = s; clean = refl; held = inr refl })

  pub fsync-Left :
      (start : ℕ) (b : Fs D)
      → IsFs b
      → Between p fs start b
      → Ends (λ _ c. Left c) (λ _. Unit {0}) (fsync p b)
  fsync-Left start b h t = elim (Bool-cases b.cached_block_dirty) [
    | inl is ↦ rw (fsync_dirty p b is) (sync_dirty-Left start b h is t)
    | inr clean ↦ rw (fsync_clean p b clean) (record {
      since = t.since;
      clean = clean;
      held = elim t.held [ inl s ↦ inl s | inr n ↦ inr n.0 ];
    })
  ]

  pub next_block-ne : (blocks block : ℕ) → next_block blocks block ≢ uint32_max
  unfolding next_block
  next_block-ne blocks block = ground arith
