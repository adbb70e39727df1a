-- ===== src/Fs/Invariant/Allocate/Round.antt =====
-- One round of the loop: room in the block or a new block, then the search.
use fkfs.Base.{
  ℕ, ◌+◌, ◌%◌, ◌^◌, ◌≤◌, ◌<◌, ◌≡◌, Bool-cases, inl, inr, Bool, refl, sym, ap, arith, get_or, ltb,
  ltb→lt, ltb→le, lt→ltb, le→ltb, ◌∙◌, Option, none, some, get_elem?-some,
}
use fkfs.Exec.{ok, pure, ◌>>=◌, ◌>>◌}
use fkfs.Exec.Ends.{Ends, Ends-bind, Ends-then, Ends-mono, Ends-both}
use fkfs.Layout.{Header}
use fkfs.Platform.{Platform}
use fkfs.Fs.{Fs, settings_at, blank_settings}
use fkfs.Fs.Blocks.{block_ensure}
use fkfs.Fs.Check.{block_available_offset}
use fkfs.Fs.Check
use fkfs.Fs.Check.Room.{Finds, block_available_offset_lem}
use fkfs.Fs.Sync.{fsync}
use fkfs.Fs.Append.{next_block, leave_block, make_room, answer, search_cached, search_block}
use fkfs.Fs.Invariant.{IsFs, ReadsBlocks}
use fkfs.Fs.Invariant.Allocate.Visits.{Between, Brought}
use fkfs.Fs.Invariant.Allocate.Moving.{block_ensure-Brought}
use fkfs.Fs.Invariant.Sync.{Synced, fsync-Ends}
use fkfs.Fs.Invariant.Allocate.{Kept, Kept-refl, BlockEnsured, Roomy, own_priority, Searched}

next_block-lt : (n b : ℕ) → next_block n b < 2 ^ 32
unfolding next_block
next_block-lt n b = ground arith

module _ {D : Type 0} (p : Platform D) (reads : ReadsBlocks p) where
  pub block_ensure-Ends :
      (block : ℕ) (fs : Fs D)
      → IsFs fs
      → Ends (λ _ b. BlockEnsured block fs b) (λ b. Kept fs b) (block_ensure p block fs)
  unfolding block_ensure
  block_ensure-Ends block fs h = ground (arith, reads block fs.buffer (p.millis fs.sd).1)

  leave_block-Ends :
      (fs : Fs D) → IsFs fs → Ends (λ _ b. Kept fs b) (λ b. Kept fs b) (leave_block p fs)
  unfolding leave_block
  leave_block-Ends fs h =
      Ends-then (λ _ b. Synced fs b) (λ _ b. Kept fs b) (λ b. Kept fs b) (fsync p) _ fs
        (Ends-mono (λ _ b. Synced fs b) (λ _ b. Synced fs b) (λ b. Synced fs b) (λ b. Kept fs b)
          (fsync p fs) (fsync-Ends p fs h) (λ _ b s. s)
          (λ b s. record { is_fs = s.is_fs; files = s.files }))
        λ b s. ground (arith, next_block-lt b.number_of_blocks b.header.block)

  make_room_full :
      (required new_offset visited : ℕ) (fs : Fs D)
      → 512 < required + new_offset
      → make_room p required new_offset visited fs
        ≡ (leave_block p >>= λ _. pure (0, (visited + 1) % 2 ^ 16)) fs
  unfolding make_room ◌>>◌
  make_room_full required new_offset visited fs h =
      rw (lt→ltb 512 (required + new_offset) h, make_room)

  make_room_free :
      (required new_offset visited : ℕ) (fs : Fs D)
      → required + new_offset ≤ 512
      → make_room p required new_offset visited fs ≡ (ok (new_offset, visited), fs)
  unfolding make_room
  make_room_free required new_offset visited fs h =
      rw (le→ltb 512 (required + new_offset) h, make_room)

  pub make_room-Ends :
      (required new_offset visited : ℕ) (fs : Fs D)
      → IsFs fs
      → required ≤ 512
      → visited < 6
      → Ends
          (λ r b. Roomy required new_offset visited fs r b)
          (λ b. Kept fs b)
          (make_room p required new_offset visited fs)
  make_room-Ends required new_offset visited fs h small few =
      elim (Bool-cases (ltb 512 (required + new_offset))) [
        | inl full ↦ rw (make_room_full required new_offset visited fs (ltb→lt _ _ full)) (
            Ends-bind (λ _ b. Kept fs b) (λ r b. Roomy required new_offset visited fs r b)
              (λ b. Kept fs b) (leave_block p) (λ _. pure (0, (visited + 1) % 2 ^ 16)) fs
              (leave_block-Ends fs h)
              λ _ b k. record {
                kept = k;
                fits = omega arith;
                visited_le = omega arith;
                stayed = λ no. absurd (omega (arith, ltb→lt _ _ full));
                left = λ _. omega arith;
              })
        | inr free ↦ rw (make_room_free required new_offset visited fs (ltb→le _ _ free)) (record {
          kept = Kept-refl fs h;
          fits = omega (arith, ltb→le _ _ free);
          visited_le = omega arith;
          stayed = λ _. refl;
          left = λ no. absurd (omega (arith, ltb→le _ _ free));
        })
      ]

  pub settings_at-some :
      (number : ℕ) (fs : Fs D)
      → IsFs fs
      → number < 4
      → settings_at number fs ≡ (ok (get_or fs.files number blank_settings), fs)
  unfolding settings_at
  settings_at-some number fs h lt =
      rw (get_elem?-some fs.files number blank_settings (omega (arith, h.settings))) refl

  answer-Ends :
      (number required start : ℕ) (first fs b : Fs D) (r : Option (Bool × Check.Search))
      → Kept fs b
      → Brought p first fs b
      → b.cached_block_number ≡ b.header.block
      → Finds p b b.buffer (own_priority number b) required start r
      → Ends (λ r c. Searched p number required start first fs r c) (λ c. Kept fs c) (answer p r b)
  answer-Ends number required start first fs b none k l c f = absurd f
  answer-Ends number required start first fs b (some r) k l c f = record {
    kept = k;
    cached = c;
    brought = l;
    found = f;
  }

  pub search_block-Ends :
      (number required start : ℕ) (first fs : Fs D)
      → IsFs fs
      → number < 4
      → start + required ≤ 512
      → Between p first start fs
      → Ends
          (λ r b. Searched p number required start first fs r b)
          (λ b. Kept fs b)
          (search_block p number required start fs)
  unfolding search_block ◌>>=◌
  search_block-Ends number required start first fs h lt fits t =
      Ends-then (λ _ b. BlockEnsured fs.header.block fs b × Brought p first fs b)
        (λ r b. Searched p number required start first fs r b) (λ b. Kept fs b)
        (block_ensure p fs.header.block)
        (settings_at number >>= λ settings. search_cached p settings.priority required start) fs
        (Ends-mono (λ _ b. BlockEnsured fs.header.block fs b × Brought p first fs b)
          (λ _ b. BlockEnsured fs.header.block fs b × Brought p first fs b)
          (λ b. Kept fs b × Unit {0}) (λ b. Kept fs b) (block_ensure p fs.header.block fs)
          (Ends-both (λ _ b. BlockEnsured fs.header.block fs b) (λ _ b. Brought p first fs b)
            (λ b. Kept fs b) (λ _. Unit {0}) (block_ensure p fs.header.block fs)
            (block_ensure-Ends fs.header.block fs h) (block_ensure-Brought p first start fs t))
          (λ _ _ q. q) (λ _ q. q.0))
        λ b (e, l). rw (settings_at-some number b e.kept.is_fs lt) (
          answer-Ends number required start first fs b
            (block_available_offset p b (own_priority number b) required b.buffer start) e.kept l
            (e.cached ∙ ap (λ (x : Header). x.block) (sym e.header))
            (block_available_offset_lem p b b.buffer (own_priority number b) required start fits))
