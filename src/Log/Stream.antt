-- ===== src/Log/Stream.antt =====
-- The append to a log, as the stream sees it.
use fkfs.Base.{
  ℕ, zero, suc, ◌+◌, ◌-◌, ◌%◌, ◌≤◌, ◌<◌, ◌^◌, ◌≡◌, ◌⊎◌, inl, inr, Bool, refl, sym, ap, ◌∙◌, arith,
  min, List, [], ◌∷◌, ◌++◌, length, take, drop, length-take, length-append, take-append-drop,
}
use mathlib.Core.List.{append_assoc, append-nil}
use fkfs.Base.Slices.{take_more}
use fkfs.Exec.{◌>>=◌, ◌>>◌}
use fkfs.Exec.Ends.{Ends, Ends-then, Ends-mono}
use fkfs.Log.{Log, Append, flush_full, append_loop, make_whole, append_binary}
use fkfs.Log.Buffered.{
  Appends, IsLog, Streams, Failed, Doubled, flush_full-Ends, placed, placed-Streams, put_lem,
  stream,
}
use fkfs.Log.Whole.{make_whole-Ends}

module _ {S : Type 0} (append : Append S) (IsReady : S → Type 0) (contents : S → List ℕ) (file : ℕ)
    (a : Appends append IsReady contents file) where
  -- A part of the bytes has gone into the stream.
  pub record PartStreams (before bytes : List ℕ) (log : Log S) : Type 0 where
    pub is_log : IsLog append IsReady contents file a log
    pub count : ℕ
    pub same :
        (stream append IsReady contents file a log ≡ before ++ take count bytes)
        ⊎ Doubled append IsReady contents file a (before ++ take count bytes) log

  -- Either of the two goes on to an equal list.
  carry :
      (log : Log S) {old new : List ℕ}
      → (stream append IsReady contents file a log ≡ old)
        ⊎ Doubled append IsReady contents file a old log
      → old ≡ new
      → (stream append IsReady contents file a log ≡ new)
        ⊎ Doubled append IsReady contents file a new log
  carry log (inl h) e = inl (h ∙ e)
  carry log (inr h) e = inr (record { older = h.older; filed = h.filed ∙ e; again = h.again ∙ e })

  -- One round: the copy, and the flush of a full buffer.
  abbrev copied : List ℕ → Log S → ℕ
  copied bytes log = min (505 - log.position) (length bytes)

  take-copied :
      (bytes : List ℕ) (log : Log S) → length (take (copied bytes log) bytes) ≡ copied bytes log
  take-copied bytes log = length-take (copied bytes log) bytes ∙ omega arith

  append_loop_step :
      (fuel : ℕ) (b : ℕ) (bs : List ℕ) (log : Log S)
      → IsLog append IsReady contents file a log
      → append_loop append (suc fuel) (b ∷ bs) log
        ≡ (flush_full append >> append_loop append fuel (drop (copied (b ∷ bs) log) (b ∷ bs)))
            (placed append IsReady contents file a (take (copied (b ∷ bs) log) (b ∷ bs)) log)
  unfolding append_loop ◌>>=◌ ◌>>◌
  append_loop_step fuel b bs log h =
      let left : (505 + 2 ^ 32 - log.position) % 2 ^ 32 ≡ 505 - log.position =
        omega (arith, h.place) in
      rw
        (
          left,
          put_lem append IsReady contents file a (take (copied (b ∷ bs) log) (b ∷ bs)) log
              (omega (arith, take-copied (b ∷ bs) log, h.place)),
        )
        refl

  length-drop_copied :
      (k : ℕ) (bytes : List ℕ) → k ≤ length bytes → length (drop k bytes) + k ≡ length bytes
  length-drop_copied k bytes h = omega (
    arith,
    ap (λ (t : List ℕ). length t) (take-append-drop k bytes),
    length-append (take k bytes) (drop k bytes),
    length-take k bytes,
  )

  -- The loop moves all bytes into the stream, or stops with a part of them there.
  append_loop-Ends :
      (fuel : ℕ) (bytes : List ℕ) (log : Log S)
      → IsLog append IsReady contents file a log
      → (suc (length bytes) ≤ fuel) ⊎ ((length bytes ≤ fuel) × (log.position < 505))
      → Ends
          (λ _ b.
            Streams append IsReady contents file a
              (stream append IsReady contents file a log ++ bytes)
              b)
          (λ b. PartStreams (stream append IsReady contents file a log) bytes b)
          (append_loop append fuel bytes log)
  unfolding append_loop
  append_loop-Ends zero [] log h enough = record {
    is_log = h;
    same = sym (append-nil (stream append IsReady contents file a log));
  }
  append_loop-Ends (suc fuel) [] log h enough = record {
    is_log = h;
    same = sym (append-nil (stream append IsReady contents file a log));
  }
  append_loop-Ends zero (b ∷ bs) log h enough = absurd (omega arith)
  append_loop-Ends (suc fuel) (b ∷ bs) log h enough =
      let bytes : List ℕ = b ∷ bs in
      let k : ℕ = copied bytes log in
      let part : List ℕ = take k bytes in
      let rest : List ℕ = drop k bytes in
      let log1 : Log S = placed append IsReady contents file a part log in
      let p : Streams append IsReady contents file a
          (stream append IsReady contents file a log ++ part) log1 =
        placed-Streams append IsReady contents file a part log h
          (omega (arith, take-copied bytes log, h.place)) in
      rw (append_loop_step fuel b bs log h) (
        Ends-then
          (λ _ c.
            Streams append IsReady contents file a (stream append IsReady contents file a log1) c
            × (c.position < 505))
          (λ _ d.
            Streams append IsReady contents file a
              (stream append IsReady contents file a log ++ bytes) d)
          (λ d. PartStreams (stream append IsReady contents file a log) bytes d) (flush_full append)
          (append_loop append fuel rest) log1
          (Ends-mono
            (λ _ c.
              Streams append IsReady contents file a (stream append IsReady contents file a log1) c
              × (c.position < 505))
            (λ _ c.
              Streams append IsReady contents file a (stream append IsReady contents file a log1) c
              × (c.position < 505))
            (λ c.
              Failed append IsReady contents file a (stream append IsReady contents file a log1) c)
            (λ c. PartStreams (stream append IsReady contents file a log) bytes c)
            (flush_full append log1) (flush_full-Ends append IsReady contents file a log1 p.is_log)
            (λ _ c q. q)
            (λ c q. record { is_log = q.is_log; count = k; same = carry c q.same p.same }))
          (λ c q.
            Ends-mono
              (λ _ d.
                Streams append IsReady contents file a
                  (stream append IsReady contents file a c ++ rest) d)
              (λ _ d.
                Streams append IsReady contents file a
                  (stream append IsReady contents file a log ++ bytes) d)
              (λ d. PartStreams (stream append IsReady contents file a c) rest d)
              (λ d. PartStreams (stream append IsReady contents file a log) bytes d)
              (append_loop append fuel rest c)
              (append_loop-Ends fuel rest c q.0.is_log (
                inr
                  (omega (arith, length-drop_copied k bytes (omega arith), enough, h.place), q.1)))
              (λ _ d r. record {
                is_log = r.is_log;
                same =
                    r.same
                    ∙ ap (λ t. t ++ rest) (q.0.same ∙ p.same)
                    ∙ append_assoc (stream append IsReady contents file a log) part rest
                    ∙ ap (λ t. stream append IsReady contents file a log ++ t)
                        (take-append-drop k bytes);
              })
              (λ d r. record {
                is_log = r.is_log;
                count = k + r.count;
                same = carry d r.same (
                    ap (λ t. t ++ take r.count rest) (q.0.same ∙ p.same)
                    ∙ append_assoc (stream append IsReady contents file a log) part
                        (take r.count rest)
                    ∙ ap (λ t. stream append IsReady contents file a log ++ t)
                        (take_more k r.count bytes));
              })))

  -- Over an operation that appends to the file as Appends says, an append to a log under its
  -- invariant does not fault and its loop ends. Where it succeeds, the stream, what is in the file
  -- and behind it what waits in the buffer, is longer by exactly the bytes. Where it fails, the
  -- stream is longer by a first part of them or, when the file got the bytes of the append that
  -- failed, the file by itself is, and the buffer still holds the last of what the file then has.
  -- The log keeps its invariant.
  pub append_binary-Ends :
      (bytes : List ℕ) (can_split : Bool) (log : Log S)
      → IsLog append IsReady contents file a log
      → Ends
          (λ _ b.
            Streams append IsReady contents file a
              (stream append IsReady contents file a log ++ bytes)
              b)
          (λ b. PartStreams (stream append IsReady contents file a log) bytes b)
          (append_binary append bytes can_split log)
  unfolding append_binary
  append_binary-Ends bytes can_split log h =
      Ends-then
        (λ _ b.
          Streams append IsReady contents file a (stream append IsReady contents file a log) b)
        (λ _ b.
          Streams append IsReady contents file a
            (stream append IsReady contents file a log ++ bytes) b)
        (λ b. PartStreams (stream append IsReady contents file a log) bytes b)
        (make_whole append can_split (length bytes)) (append_loop append (suc (length bytes)) bytes)
        log
        (Ends-mono
          (λ _ b.
            Streams append IsReady contents file a (stream append IsReady contents file a log) b)
          (λ _ b.
            Streams append IsReady contents file a (stream append IsReady contents file a log) b)
          (λ b. Failed append IsReady contents file a (stream append IsReady contents file a log) b)
          (λ b. PartStreams (stream append IsReady contents file a log) bytes b)
          (make_whole append can_split (length bytes) log)
          (make_whole-Ends append IsReady contents file a can_split (length bytes) log h)
          (λ _ b q. q)
          (λ b q. record {
            is_log = q.is_log;
            count = 0;
            same = carry b q.same (sym (append-nil (stream append IsReady contents file a log)));
          }))
        (λ b q.
          Ends-mono
            (λ _ c.
              Streams append IsReady contents file a
                (stream append IsReady contents file a b ++ bytes) c)
            (λ _ c.
              Streams append IsReady contents file a
                (stream append IsReady contents file a log ++ bytes) c)
            (λ c. PartStreams (stream append IsReady contents file a b) bytes c)
            (λ c. PartStreams (stream append IsReady contents file a log) bytes c)
            (append_loop append (suc (length bytes)) bytes b)
            (append_loop-Ends (suc (length bytes)) bytes b q.is_log (inl (omega arith)))
            (λ _ c r. record { is_log = r.is_log; same = r.same ∙ ap (λ t. t ++ bytes) q.same })
            (λ c r. record {
              is_log = r.is_log;
              count = r.count;
              same = carry c r.same (ap (λ t. t ++ take r.count bytes) q.same);
            }))
