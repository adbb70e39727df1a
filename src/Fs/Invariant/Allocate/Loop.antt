-- ===== src/Fs/Invariant/Allocate/Loop.antt =====
-- The loop of `fkfs_file_allocate_block` over the blocks.
use fkfs.Base.{
  subst, sym, ℕ, zero, suc, ◌+◌, ◌≤◌, ◌<◌, ◌≡◌, Bool, true, false, refl, arith, ltb, ltb→lt,
}
use fkfs.Exec.{Exec, modify, fail, ◌>>=◌}
use fkfs.Exec.Ends.{Ends, Ends-bind, Ends-mono, Ends-both}
use fkfs.Platform.{Platform}
use fkfs.Fs.{Fs}
use fkfs.Fs.Check.{block_available_offset}
use fkfs.Fs.Check
use fkfs.Fs.Append.{make_room, search_block, allocate_loop, at_offset, file_allocate_block}
use fkfs.Fs.Invariant.{IsFs, ReadsBlocks}
use fkfs.Fs.Invariant.Allocate.{Kept, Kept-refl, Kept-trans, Roomy, Searched, Allocated}
use fkfs.Fs.Invariant.Allocate.Round.{make_room-Ends, search_block-Ends}
use fkfs.Layout.{Header}
use fkfs.Fs.Invariant.Allocate.Visits.{Source, Between, Between-refl}
use fkfs.Fs.Invariant.Allocate.Moving.{Brought-Between, make_room-Between}

module _ {D : Type 0} (p : Platform D) (reads : ReadsBlocks p) (first : Fs D) where
  -- The loop after a round that found nothing, by the number of visited blocks.
  abbrev Resumes : ℕ → ℕ → ℕ → ℕ → Type 0
  Resumes number required fuel visited =
      (start : ℕ) (b : Fs D)
      → Kept first b
      → Between p first start b
      → visited < 5
      → Ends (λ _ c. Allocated p number required first c) (λ c. Kept first c)
          (allocate_loop p fuel number required 512 visited b)

  abbrev again_or_fail : ℕ → ℕ → ℕ → ℕ → Bool → Exec (Fs D) (Unit {0})
  again_or_fail number required fuel visited more = elim more [
    | true ↦ allocate_loop p fuel number required 512 visited
    | false ↦ fail
  ]

  abbrev resume : ℕ → ℕ → ℕ → ℕ → Bool × Check.Search → Exec (Fs D) (Unit {0})
  resume number required fuel visited (found, search) = elim found [
    | true ↦ modify (at_offset p search.offset)
    | false ↦ again_or_fail number required fuel visited (ltb visited 5)
  ]

  resume-Ends :
      (number required start fuel visited : ℕ) (b c : Fs D) (found : Bool) (place : Check.Search)
      → Kept first b
      → Between p first start b
      → Searched p number required start first b (found, place) c
      → Resumes number required fuel visited
      → Ends
          (λ _ d. Allocated p number required first d)
          (λ d. Kept first d)
          (resume number required fuel visited (found, place) c)
  resume-Ends number required start fuel visited b c true place k t s go =
      let next : Between p first start c = Brought-Between p first start b c t s.brought s.cached in
      record {
        searched = c;
        start = start;
        search = place;
        kept = Kept-trans k s.kept;
        since = next.since;
        source =
            subst (λ (x : Header). Source p first c.buffer x.block) (sym s.brought.header)
              s.brought.source;
        visited = next.visited;
        cached = s.cached;
        room = s.found;
        place = refl;
      }
  resume-Ends number required start fuel visited b c false place k t s go =
      go_on (ltb visited 5) refl
    where
      go_on :
          (more : Bool)
          → ltb visited 5 ≡ more
          → Ends
              (λ _ d. Allocated p number required first d)
              (λ d. Kept first d)
              (again_or_fail number required fuel visited more c)
      go_on true e =
          go start c (Kept-trans k s.kept) (Brought-Between p first start b c t s.brought s.cached)
            (ltb→lt _ _ e)
      go_on false e = Kept-trans k s.kept

  allocate_round :
      (fuel number required start new_offset visited : ℕ) (fs : Fs D)
      → Kept first fs
      → Between p first start fs
      → (required + new_offset ≤ 512 → start ≡ new_offset)
      → number < 4
      → required ≤ 512
      → visited < 6
      → ((v : ℕ)
          → v ≤ visited + 1
          → (512 < required + new_offset → v ≡ visited + 1)
          → Resumes number required fuel v)
      → Ends
          (λ _ b. Allocated p number required first b)
          (λ b. Kept first b)
          (allocate_loop p (suc fuel) number required new_offset visited fs)
  unfolding allocate_loop
  allocate_round fuel number required start new_offset visited fs h t at lt small few go =
      Ends-bind (λ r b. Roomy required new_offset visited fs r b × Between p first r.0 b)
        (λ _ b. Allocated p number required first b) (λ b. Kept first b)
        (make_room p required new_offset visited) _ fs
        (Ends-mono (λ r b. Roomy required new_offset visited fs r b × Between p first r.0 b)
          (λ r b. Roomy required new_offset visited fs r b × Between p first r.0 b)
          (λ b. Kept fs b × Unit {0}) (λ b. Kept first b)
          (make_room p required new_offset visited fs)
          (Ends-both (λ r b. Roomy required new_offset visited fs r b)
            (λ r b. Between p first r.0 b) (λ b. Kept fs b) (λ _. Unit {0})
            (make_room p required new_offset visited fs)
            (make_room-Ends p reads required new_offset visited fs h.is_fs small few)
            (make_room-Between p first start required new_offset visited fs h.is_fs h.files t at))
          (λ _ _ q. q) (λ _ q. Kept-trans h q.0))
        λ (offset, v) b (m, u).
          Ends-bind (λ r c. Searched p number required offset first b r c)
            (λ _ c. Allocated p number required first c) (λ c. Kept first c)
            (search_block p number required offset) (resume number required fuel v) b
            (Ends-mono (λ r c. Searched p number required offset first b r c)
              (λ r c. Searched p number required offset first b r c) (λ c. Kept b c)
              (λ c. Kept first c) (search_block p number required offset b)
              (search_block-Ends p reads number required offset first b m.kept.is_fs lt m.fits u)
              (λ _ _ s. s) (λ _ k. Kept-trans (Kept-trans h m.kept) k))
            (λ (found, search) c s.
              resume-Ends number required offset fuel v b c found search (Kept-trans h m.kept) u s
                (go v m.visited_le m.left))

  -- Once the loop has to move on in each round, each round visits a block.
  allocate_loop-Ends :
      (fuel number required visited : ℕ)
      → number < 4
      → 0 < required
      → required ≤ 512
      → 5 ≤ fuel + visited
      → Resumes number required fuel visited
  allocate_loop-Ends zero number required visited lt some_room small enough start fs h t few =
      absurd (omega arith)
  allocate_loop-Ends (suc fuel) number required visited lt some_room small enough start fs h t few =
      allocate_round fuel number required start 512 visited fs h t (λ no. absurd (omega arith)) lt
        small (omega arith)
        λ v le left.
          allocate_loop-Ends fuel number required v lt some_room small
            (omega (arith, left (omega arith)))

module _ {D : Type 0} (p : Platform D) (reads : ReadsBlocks p) where
  -- Under the invariant, and with reads that deliver whole blocks, the loop over the blocks for 1 to
  -- 512 bytes of one of the four files ends in success or in failure, and not by a fault or for want
  -- of fuel. Where it succeeds, the header stands in the cached block at room that the search has
  -- found. The files and the invariant are kept in both cases.
  pub file_allocate_block-Ends :
      (number required : ℕ) (fs : Fs D)
      → IsFs fs
      → number < 4
      → 0 < required
      → required ≤ 512
      → Ends
          (λ _ b. Allocated p number required fs b)
          (λ b. Kept fs b)
          (file_allocate_block p number required fs)
  unfolding file_allocate_block ◌>>=◌
  file_allocate_block-Ends number required fs h lt some_room small =
      allocate_round p reads fs 5 number required fs.header.offset fs.header.offset 0 fs
        (Kept-refl fs h) (Between-refl p fs) (λ _. refl) lt small (omega arith)
        λ v le left.
          allocate_loop-Ends p reads fs 5 number required v lt some_room small (omega arith)
