-- ===== src/Log/Whole.antt =====
-- The step of `fkfs_log_append_binary` that makes room for data that may not be split.
use fkfs.Base.{
  ℕ, ◌+◌, ◌-◌, ◌%◌, ◌≤◌, ◌<◌, ◌^◌, ◌≡◌, inl, inr, Bool, Bool-cases, true, false, refl, arith, List,
  leb, ltb,
}
use fkfs.Exec.{ok, failed}
use fkfs.Exec.Ends.{Ends, Ends-mono}
use fkfs.Log.{Log, Append, log_flush, make_whole}
use fkfs.Log.Buffered.{Appends, IsLog, Streams, Failed, log_flush-Ends, stream}

module _ {S : Type 0} (append : Append S) (IsReady : S → Type 0) (contents : S → List ℕ) (file : ℕ)
    (a : Appends append IsReady contents file) where
  make_whole_flush :
      (size : ℕ) (log : Log S)
      → log.position ≤ 505
      → 505 - log.position < size
      → size < 505
      → make_whole append false size log ≡ log_flush append log
  unfolding make_whole
  make_whole_flush size log h e small =
      let left : (505 + 2 ^ 32 - log.position) % 2 ^ 32 ≡ 505 - log.position = omega (arith, h) in
      rw (make_whole, left) (ground arith)

  make_whole_fits :
      (size : ℕ) (log : Log S)
      → log.position ≤ 505
      → size ≤ 505 - log.position
      → make_whole append false size log ≡ (ok tt, log)
  unfolding make_whole
  make_whole_fits size log h e =
      let left : (505 + 2 ^ 32 - log.position) % 2 ^ 32 ≡ 505 - log.position = omega (arith, h) in
      rw (make_whole, left) (ground arith)

  make_whole_large :
      (size : ℕ) (log : Log S)
      → log.position ≤ 505
      → 505 - log.position < size
      → 505 ≤ size
      → make_whole append false size log ≡ (failed, log)
  unfolding make_whole
  make_whole_large size log h e large =
      let left : (505 + 2 ^ 32 - log.position) % 2 ^ 32 ≡ 505 - log.position = omega (arith, h) in
      rw (make_whole, left) (ground arith)

  pub make_whole-Ends :
      (can_split : Bool) (size : ℕ) (log : Log S)
      → IsLog append IsReady contents file a log
      → Ends
          (λ _ b.
            Streams append IsReady contents file a (stream append IsReady contents file a log) b)
          (λ b. Failed append IsReady contents file a (stream append IsReady contents file a log) b)
          (make_whole append can_split size log)
  unfolding make_whole
  make_whole-Ends true size log h = record { is_log = h; same = refl }
  make_whole-Ends false size log h = elim (Bool-cases (ltb (505 - log.position) size)) [
    | inl e ↦ elim (Bool-cases (leb 505 size)) [
      | inl large ↦
          rw (make_whole_large size log h.place (ground (arith, e)) (ground (arith, large)))
            (record { is_log = h; same = inl refl })
      | inr small ↦
          rw (make_whole_flush size log h.place (ground (arith, e)) (ground (arith, small))) (
            Ends-mono
              (λ _ b.
                Streams append IsReady contents file a (stream append IsReady contents file a log) b
                × (b.position ≡ 0))
              (λ _ b.
                Streams append IsReady contents file a (stream append IsReady contents file a log)
                  b)
              (λ b.
                Failed append IsReady contents file a (stream append IsReady contents file a log) b)
              (λ b.
                Failed append IsReady contents file a (stream append IsReady contents file a log) b)
              (log_flush append log)
              (log_flush-Ends append IsReady contents file a log h
                (ground (arith, e, small, h.place)))
              (λ _ b k. k.0) (λ b k. k))
    ]
    | inr e ↦
        rw (make_whole_fits size log h.place (ground (arith, e)))
          (record { is_log = h; same = refl })
  ]
