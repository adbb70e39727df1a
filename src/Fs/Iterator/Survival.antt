-- ===== src/Fs/Iterator/Survival.antt =====
-- An append, its sync, an initialisation of another state later, and an iteration from the entry on.
use fkfs.Base.{
  ℕ, suc, ◌+◌, ◌<◌, ◌≡◌, ◌≢◌, inl, inr, Bool, true, false, not, ◌&&◌, sym, subst, ap, ap₂, ◌∙◌,
  arith, List, length,
}
use fkfs.Exec.{Exec, Result, ok, failed, fault, pure, ◌>>=◌, ◌>>◌}
use fkfs.Exec.Ends.{Ends, Ends-modify, Ends-gets, Ends-cases, Ends-bind, Ends-bind_sure}
use fkfs.Layout.{Entry, File}
use fkfs.Platform.{Platform, IsDisk, Reliable}
use fkfs.Fs.{Fs}
use fkfs.Fs.Blocks.{block_ensure}
use fkfs.Fs.Check.{entry_at, bytes_at}
use fkfs.Fs.Invariant.Append.InBlock.{Stored, file_of}
use fkfs.Fs.Invariant.Append.AfterSync.{bytes_at-buffer}
use fkfs.Fs.Invariant.Restart.{Restarted}
use fkfs.Fs.Iterator.{
  token_of, Verdict, finish, again, Config, Iter, State, now, deliver, iterator_valid,
  iterator_done, report, scan_entry, scan_round, scan_loop, close_scan, count_call, file_iterate,
}
use fkfs.Fs.Iterator.Block.{InBuffer, block_ensure-InBuffer, deliver-Pointed}
use fkfs.Fs.Iterator.ReadBack.{Points, scan_entry-here, entry-later}
use fkfs.Fs.Iterator.Loaded.{renamed, loaded-entry, loaded-checked}

module _ {D : Type 0} (p : Platform D) (content : D → ℕ → List ℕ) (disk : IsDisk p content)
    (number : ℕ) (bytes : List ℕ) (before fs : Fs D) (s : Stored p number bytes before fs)
    (fresh c : Fs D) (r : Restarted p content disk fs fresh c) (iter : Iter) where
  abbrev pub at_stored : Iter
  at_stored = record iter {
    token = token_of number (file_of p number c) c.header.block s.found.offset;
  }

  may_enter :
      0 < length bytes
      → 0 < fs.header.block
      → (iterator_valid (count_call p c) at_stored && not (iterator_done at_stored)) ≡ true
  unfolding iterator_valid iterator_done
  may_enter some_data placed =
      let last : (file_of p number c).end_block ≡ c.header.block =
        (renamed p content disk number bytes before fs s fresh c r iter number).end_block
        ∙ ap (λ (f : File). f.end_block) s.file
        ∙ sym r.block in
      let end : (file_of p number c).end_offset ≡ s.found.offset + 7 + length bytes =
        (renamed p content disk number bytes before fs s fresh c r iter number).end_offset
        ∙ ap (λ (f : File). f.end_offset) s.file in
      rw (last, end) (ground (arith, r.block))

  module _ (config : Config) where
    -- The iterator that the entry is delivered with, and the block in the buffer.
    record Hit (x : State p) : Type 0 where
      buffer : x.0.buffer ≡ fs.buffer
      at : D
      iter_is : x.1 ≡ deliver p config (entry_at p at fs.buffer s.found.offset) at_stored

    abbrev Seen : Verdict → State p → Type 0
    Seen (finish true) x = Hit x
    Seen (finish false) x = ¬ Reliable p
    Seen (again left) x = ⊥

    round-Seen :
        (started left : ℕ) (d : D)
        → ((j : ℕ) → content d j ≡ content c.sd j)
        → length c.buffer ≡ 512
        → c.cached_block_number ≢ c.header.block
        → Ends Seen
            (λ _. ⊥)
            (scan_round p config started left (record (count_call p c) { sd = d }, at_stored))
    unfolding scan_round
    round-Seen started left d card whole elsewhere =
        by_ensured (block_ensure p c.header.block ready)
          (block_ensure-InBuffer p content disk c.header.block ready whole)
      where
        ready : Fs D
        ready = record (count_call p c) { sd = d }

        in_buffer :
            (b : Fs D) → InBuffer p content disk c.header.block ready b → b.buffer ≡ fs.buffer
        in_buffer b k = elim k.buffer [
          | inl loaded ↦
              loaded ∙ card c.header.block ∙ ap (λ n. content c.sd n) r.block ∙ r.data_block
          | inr (is, _) ↦ absurd (elsewhere is)
        ]

        by_ensured :
            (x : Result (Unit {0}) × Fs D)
            → Ends
                (λ _ b.
                  InBuffer p content disk c.header.block (record (count_call p c) { sd = d }) b)
                (λ b. (¬ Reliable p) × (b.header ≡ c.header))
                x
            → Ends Seen
                (λ _. ⊥)
                (elim x.0 as (λ (y : Result (Unit {0})). Result Verdict × State p) [
                  | ok _ ↦ scan_entry p config started left (x.1, at_stored)
                  | failed ↦ (ok (finish false), (x.1, at_stored))
                  | fault e ↦ (fault e, (x.1, at_stored))
                ])
        by_ensured (ok a, b) k =
            let same : b.buffer ≡ fs.buffer = in_buffer b k in
            subst (λ x. Ends Seen (λ _. ⊥) x)
              (sym (
                scan_entry-here p config started left b at_stored
                  (loaded-checked p content disk number bytes before fs s fresh c r iter b same
                    k.header)
                  (ap (λ (e : Entry). e.file)
                    (loaded-entry p content disk number bytes before fs s fresh c r iter b same))))
              (record {
                buffer = same;
                at = b.sd;
                iter_is =
                    ap
                      (λ (x : List ℕ).
                        deliver p config (entry_at p b.sd x s.found.offset) at_stored)
                      same;
              })
        by_ensured (failed, b) (u, _) = u
        by_ensured (fault e, b) k = absurd k

    abbrev Answered : Bool → State p → Type 0
    Answered true x = Hit x
    Answered false x = ¬ Reliable p

    loop-Answered :
        (started fuel last_status left : ℕ) (d : D)
        → ((j : ℕ) → content d j ≡ content c.sd j)
        → length c.buffer ≡ 512
        → c.cached_block_number ≢ c.header.block
        → Ends Answered
            (λ _. ⊥)
            (scan_loop p config started
              (suc fuel)
              last_status
              left
              (record (count_call p c) { sd = d }, at_stored))
    unfolding scan_loop
    loop-Answered started fuel last_status left d card whole elsewhere =
        Ends-bind Seen Answered (λ _. ⊥) (scan_round p config started left) _
          (record (count_call p c) { sd = d }, at_stored)
          (round-Seen started left d card whole elsewhere) by_verdict
      where
        by_verdict :
            (verdict : Verdict) (x : State p)
            → Seen verdict x
            → Ends Answered
                (λ _. ⊥)
                (elim verdict as (λ (v : Verdict). Exec (State p) Bool) [
                  | finish success ↦ pure success
                  | again l ↦
                      report p last_status >>= λ status. scan_loop p config started fuel status l
                ]
                  x)
        by_verdict (finish true) x h = h
        by_verdict (finish false) x h = h
        by_verdict (again l) x h = absurd h

    closed-Points :
        (started : ℕ) (success : Bool) (x : State p)
        → Answered success x
        → Ends (λ _ y. Points p bytes y) (λ _. ¬ Reliable p) (close_scan p started success x)
    unfolding close_scan now ◌>>=◌ ◌>>◌
    closed-Points started true x h =
        let made = deliver-Pointed p config (entry_at p h.at fs.buffer s.found.offset) at_stored in
        let size : x.1.size ≡ length bytes =
          ap (λ (i : Iter). i.size) h.iter_is
          ∙ made.size
          ∙ ap (λ (e : Entry). e.size) (entry-later p number bytes before fs s iter h.at) in
        let pointer : x.1.pointer ≡ s.found.offset + 7 =
          ap (λ (i : Iter). i.pointer) h.iter_is ∙ made.pointer in
        let d = (p.millis x.0.sd).1 in
        record {
          size = size;
          contents =
              ap (λ buffer. bytes_at p d buffer x.1.pointer x.1.size) h.buffer
              ∙ ap₂ (λ i n. bytes_at p d fs.buffer i n) pointer size
              ∙ bytes_at-buffer p d fs.sd fs.buffer (s.found.offset + 7) (length bytes)
                  (omega (arith, s.room.1, s.is_fs.bytes))
              ∙ s.contents;
        }
    closed-Points started false x h = h

    scanned-Points :
        length c.buffer ≡ 512
        → c.cached_block_number ≢ c.header.block
        → (fuel : ℕ)
        → Ends
            (λ _ x. Points p bytes x)
            (λ _. ¬ Reliable p)
            ((now p >>= λ started.
                scan_loop p config started (suc fuel) started config.max_blocks >>= λ success.
                close_scan p started success)
              (count_call p c, at_stored))
    unfolding now ◌>>=◌
    scanned-Points whole elsewhere fuel =
        let started = (p.millis c.sd).0 in
        let d = (p.millis c.sd).1 in
        Ends-bind_sure Answered (λ _ x. Points p bytes x) (λ _. ¬ Reliable p)
          (scan_loop p config started (suc fuel) started config.max_blocks)
          (λ success. close_scan p started success) (record (count_call p c) { sd = d }, at_stored)
          (loop-Answered started fuel started config.max_blocks d (λ j. disk.millis_keeps j c.sd)
            whole elsewhere)
          (λ success x h. closed-Points started success x h)

    -- Behind an append, as file_append-Ends describes it, of at least a byte to a block that is not block
    -- 0, then a sync and an initialisation of another state that had not this block in its cache, as
    -- fsync-initialize describes them, an iteration over the file from the entry on does not fault, and
    -- fails only on a card that is not reliable. Where it succeeds it points to the bytes that were
    -- appended.
    pub restart-iterate :
        0 < length bytes
        → 0 < fs.header.block
        → fresh.cached_block_number ≢ fs.header.block
        → (fuel : ℕ)
        → Ends
            (λ _ x. Points p bytes x)
            (λ _. ¬ Reliable p)
            (file_iterate p (suc fuel) config (c, at_stored))
    unfolding file_iterate
    restart-iterate some_data placed elsewhere fuel =
        Ends-modify (λ _ x. Points p bytes x) (λ _. ¬ Reliable p) _ _ (c, at_stored)
          (Ends-gets (λ _ x. Points p bytes x) (λ _. ¬ Reliable p) _ _ _
            (Ends-cases (λ _ x. Points p bytes x) (λ _. ¬ Reliable p)
              (iterator_valid (count_call p c) at_stored && not (iterator_done at_stored)) _ _ _
              (λ _. scanned-Points r.whole (λ e. elsewhere (sym r.cached ∙ e ∙ r.block)) fuel)
              (λ refused. absurd (ground (arith, refused, may_enter some_data placed)))))
