-- ===== src/Fs/Invariant/Allocate/Moving.antt =====
-- The parts of a round, from one state between two rounds to the next.
use fkfs.Base.{
  ap, ltb, ltb→le, ◌≤◌, ℕ, ◌≡◌, ◌+◌, inl, inr, Bool, true, false, refl, sym, subst, ◌∙◌, ◌==◌,
  ==_iff,
}
use fkfs.Exec.{Result, failed, ok, ◌>>◌}
use fkfs.Exec.Ends.{Ends-cases, Ends, Ends-bind, Ends-then, Ends-mono, Ends-both}
use fkfs.Layout.{Header}
use fkfs.Platform.{Platform}
use fkfs.Fs.{Fs}
use fkfs.Fs.Blocks.{load_block, block_ensure, read_block, set_cached}
use fkfs.Fs.Sync.{fsync}
use fkfs.Fs.Append.{leave_block, make_room}
use fkfs.Fs.Invariant.{IsFs, SameFiles}
use fkfs.Fs.Invariant.Sync.{Synced, fsync-Ends}
use fkfs.Fs.Invariant.Allocate.Visits.{Visited, Since, Source, Between, Brought}
use fkfs.Fs.Invariant.Allocate.Leaving.{Left, fsync-Left, next_block-ne}

module _ {D : Type 0} (p : Platform D) (fs : Fs D) where
  -- The block is left for the next one.
  pub leave_block-Between :
      (start : ℕ) (b : Fs D)
      → IsFs b
      → SameFiles fs b
      → Between p fs start b
      → Ends (λ _ c. Between p fs 0 c) (λ _. Unit {0}) (leave_block p b)
  unfolding leave_block
  leave_block-Between start b h same t =
      Ends-then (λ _ c. Synced b c × Left p fs c) (λ _ c. Between p fs 0 c) (λ _. Unit {0})
        (fsync p) _ b
        (Ends-mono (λ _ c. Synced b c × Left p fs c) (λ _ c. Synced b c × Left p fs c)
          (λ c. Synced b c × Unit {0}) (λ _. Unit {0}) (fsync p b)
          (Ends-both (λ _ c. Synced b c) (λ _ c. Left p fs c) (λ c. Synced b c) (λ _. Unit {0})
            (fsync p b) (fsync-Ends p b h) (fsync-Left p fs start b h t))
          (λ _ _ q. q) (λ _ _. tt))
        λ c (y, l). record {
          since = l.since;
          visited = rw (y.files.blocks ∙ same.blocks, y.place.block) (Visited.next t.visited);
          dirty = λ is. let no : c.cached_block_dirty ≡ false = l.clean in absurd cc;
          held = elim l.held [
            | inl s ↦ inl s
            | inr n ↦ inr (n, next_block-ne p fs c.number_of_blocks c.header.block)
          ];
        }

  -- The header's block is loaded.
  pub block_ensure-Brought :
      (start : ℕ) (b : Fs D)
      → Between p fs start b
      → Ends (λ _ c. Brought p fs b c) (λ _. Unit {0}) (block_ensure p b.header.block b)
  unfolding block_ensure load_block read_block
  block_ensure-Brought start b t = by_cached (b.cached_block_number == b.header.block) refl
    where
      loaded :
          (status : Bool)
          → (p.sd_read b.header.block b.buffer (p.millis b.sd).1).0 ≡ status
          → Ends
              (λ _ c. Brought p fs b c)
              (λ _. Unit {0})
              (set_cached p b.header.block (
                elim status as (λ (x : Bool). Result (Unit {0})) [ true ↦ ok tt | false ↦ failed ],
                (load_block p b.header.block b).1,
              ))
      loaded true is = record {
        since = Since.clock (Since.read b.header.block b.buffer (Since.clock t.since));
        source = Source.from_card b.buffer (p.millis b.sd).1 (Since.clock t.since) is refl;
        header = refl;
        dirty = λ no. absurd cc;
      }
      loaded false is = tt

      by_cached :
          (hit : Bool)
          → (b.cached_block_number == b.header.block) ≡ hit
          → Ends
              (λ _ c. Brought p fs b c)
              (λ _. Unit {0})
              (elim hit as (λ (x : Bool). Result (Unit {0}) × Fs D) [
                | true ↦ (ok tt, b)
                | false ↦ set_cached p b.header.block (load_block p b.header.block b)
              ])
      by_cached true hit =
          let is : b.cached_block_number ≡ b.header.block = (==_iff _ _).0 hit in
          record {
            since = t.since;
            source = elim t.held [
              | inl s ↦ subst (λ n. Source p fs b.buffer n) is s
              | inr n ↦ absurd (n.1 (sym is ∙ n.0))
            ];
            header = refl;
            dirty = λ _. refl;
          }
      by_cached false hit = loaded (p.sd_read b.header.block b.buffer (p.millis b.sd).1).0 refl

  -- The next round goes on from the block that was loaded.
  pub Brought-Between :
      (start : ℕ) (b c : Fs D)
      → Between p fs start b
      → Brought p fs b c
      → c.cached_block_number ≡ c.header.block
      → Between p fs start c
  Brought-Between start b c t l cached = record {
    since = l.since;
    visited =
        subst
          (λ (x : Header).
            Visited fs.number_of_blocks fs.header.block fs.header.offset x.block start)
          (sym l.header) t.visited;
    dirty = λ is.
        let (block, bytes, first) =
          t.dirty (ap (λ (x : Fs D). x.cached_block_dirty) (sym (l.dirty is)) ∙ is) in
        (
          ap (λ (x : Fs D). x.header.block) (l.dirty is) ∙ block,
          ap (λ (x : Fs D). x.buffer) (l.dirty is) ∙ bytes,
          first,
        );
    held = inl (
        subst (λ n. Source p fs c.buffer n) (sym (cached ∙ ap (λ (x : Header). x.block) l.header))
          l.source);
  }

  -- The test at the loop's head. A search that stays in the block starts at the offset that is given.
  pub make_room-Between :
      (start required new_offset visited : ℕ) (b : Fs D)
      → IsFs b
      → SameFiles fs b
      → Between p fs start b
      → (required + new_offset ≤ 512 → start ≡ new_offset)
      → Ends (λ r c. Between p fs r.0 c) (λ _. Unit {0}) (make_room p required new_offset visited b)
  unfolding make_room ◌>>◌
  make_room-Between start required new_offset visited b h same t at =
      Ends-cases (λ r c. Between p fs r.0 c) (λ _. Unit {0}) (ltb 512 (required + new_offset)) _ _ b
        (λ full.
          Ends-bind (λ _ c. Between p fs 0 c) (λ r c. Between p fs r.0 c) (λ _. Unit {0})
            (leave_block p) _ b (leave_block-Between start b h same t) (λ _ c k. k))
        (λ free. subst (λ n. Between p fs n b) (at (ltb→le 512 (required + new_offset) free)) t)
