-- ===== src/Log/Buffered.antt =====
-- The log as a stream: what has been appended to the file, and the bytes that wait in the buffer;
-- the steps that move bytes from the one to the other.
use fkfs.Base.{
  ℕ, ◌+◌, ◌%◌, ◌≤◌, ◌<◌, ◌^◌, ◌≡◌, ◌⊎◌, inl, inr, Bool-cases, true, false, refl, sym, subst, ap,
  ap₂, ◌∙◌, arith, List, ◌++◌, length, take, leb, length-set,
}
use mathlib.Core.List.{append_assoc, append-nil}
use fkfs.Base.Memory.{overwrite, length-overwrite}
use fkfs.Base.Slices.{take-overwrite_end}
use fkfs.Exec.{Result, ok, failed, fault, ◌>>=◌, ◌>>◌}
use fkfs.Exec.Ends.{Ends, Ends-mono}
use fkfs.Log.{Log, Append, reset, put, log_flush, flush_full}

-- What a log relies on: an append of 1 to 505 bytes does not fault; it adds the bytes to the file
-- where it succeeds, and all of them or nothing where it fails.
pub record Appends {S : Type 0} (append : Append S) (IsReady : S → Type 0) (contents : S → List ℕ)
    (file : ℕ) : Type 0 where
  pub append-Ends :
      (size : ℕ) (bytes : List ℕ) (s : S)
      → IsReady s
      → 0 < size
      → size ≤ 505
      → size ≤ length bytes
      → Ends
          (λ _ t. IsReady t × (contents t ≡ contents s ++ take size bytes))
          (λ t.
            IsReady t × ((contents t ≡ contents s) ⊎ (contents t ≡ contents s ++ take size bytes)))
          (append file size bytes s)

module _ {S : Type 0} (append : Append S) (IsReady : S → Type 0) (contents : S → List ℕ) (file : ℕ)
    (a : Appends append IsReady contents file) where
  abbrev pub stream : Log S → List ℕ
  stream log = contents log.fs ++ take log.position log.buffer

  pub record IsLog (log : Log S) : Type 0 where
    pub ready : IsReady log.fs
    pub same_file : log.file ≡ file
    pub full : length log.buffer ≡ 505
    pub place : log.position ≤ 505

  -- A log with the stream `bytes`.
  pub record Streams (bytes : List ℕ) (log : Log S) : Type 0 where
    pub is_log : IsLog log
    pub same : stream log ≡ bytes

  -- The file has all of the bytes, and the buffer the last of them once more.
  pub record Doubled (bytes : List ℕ) (log : Log S) : Type 0 where
    pub older : List ℕ
    pub filed : contents log.fs ≡ bytes
    pub again : older ++ take log.position log.buffer ≡ bytes

  -- A log after a failure.
  pub record Failed (bytes : List ℕ) (log : Log S) : Type 0 where
    pub is_log : IsLog log
    pub same : (stream log ≡ bytes) ⊎ Doubled bytes log

  abbrev pub placed : List ℕ → Log S → Log S
  placed bytes log = record log {
    buffer = overwrite log.position bytes log.buffer;
    position = log.position + length bytes;
  }

  pub put_lem :
      (bytes : List ℕ) (log : Log S)
      → log.position + length bytes ≤ 505
      → put bytes log ≡ (ok tt, placed bytes log)
  unfolding put ◌>>=◌ ◌>>◌
  put_lem bytes log h =
      let inside : leb (log.position + length bytes) 505 ≡ true = ground arith in rw inside refl

  pub placed-Streams :
      (bytes : List ℕ) (log : Log S)
      → IsLog log
      → log.position + length bytes ≤ 505
      → Streams (stream log ++ bytes) (placed bytes log)
  placed-Streams bytes log h room = record {
    is_log = record {
      ready = h.ready;
      same_file = h.same_file;
      full = length-overwrite log.position bytes log.buffer ∙ h.full;
      place = room;
    };
    same =
        ap (λ t. contents log.fs ++ t)
          (take-overwrite_end log.position bytes log.buffer (omega (arith, h.full)))
        ∙ sym (append_assoc (contents log.fs) (take log.position log.buffer) bytes);
  }

  reset-Ends :
      (log : Log S) (r : Result (Unit {0}) × S)
      → IsLog log
      → Ends
          (λ _ t. IsReady t × (contents t ≡ stream log))
          (λ t. IsReady t × ((contents t ≡ contents log.fs) ⊎ (contents t ≡ stream log)))
          r
      → Ends
          (λ _ b. Streams (stream log) b × (b.position ≡ 0))
          (λ b. Failed (stream log) b)
          (reset log r)
  reset-Ends log (ok tt, t) h (ready, same) = (
    record {
      is_log = record {
        ready = ready;
        same_file = h.same_file;
        full = length-set log.buffer 0 0 ∙ h.full;
        place = omega arith;
      };
      same = append-nil (contents t) ∙ same;
    },
    refl,
  )
  reset-Ends log (failed, t) h (ready, same) = record {
    is_log = record { ready = ready; same_file = h.same_file; full = h.full; place = h.place };
    same = elim same [
      | inl none ↦ inl (ap (λ c. c ++ take log.position log.buffer) none)
      | inr all ↦ inr (record { older = contents log.fs; filed = all; again = refl })
    ];
  }
  reset-Ends log (fault e, t) h k = absurd k

  -- A flush empties the buffer, and keeps the stream.
  pub log_flush-Ends :
      (log : Log S)
      → IsLog log
      → 0 < log.position
      → Ends
          (λ _ b. Streams (stream log) b × (b.position ≡ 0))
          (λ b. Failed (stream log) b)
          (log_flush append log)
  unfolding log_flush
  log_flush-Ends log h some =
      let small : log.position % 2 ^ 16 ≡ log.position = omega (arith, h.place) in
      let e : append log.file (log.position % 2 ^ 16) log.buffer log.fs
          ≡ append file log.position log.buffer log.fs =
        ap₂ (λ f n. append f n log.buffer log.fs) h.same_file small in
      reset-Ends log (append log.file (log.position % 2 ^ 16) log.buffer log.fs) h (
        subst
          (Ends (λ _ t. IsReady t × (contents t ≡ stream log))
            (λ t. IsReady t × ((contents t ≡ contents log.fs) ⊎ (contents t ≡ stream log))))
          (sym e)
          (a.append-Ends log.position log.buffer log.fs h.ready some h.place
            (omega (arith, h.place, h.full))))

  flush_full_full :
      (log : Log S) → leb 505 log.position ≡ true → flush_full append log ≡ log_flush append log
  unfolding flush_full
  flush_full_full log e = ground (arith, e)

  flush_full_room :
      (log : Log S) → leb 505 log.position ≡ false → flush_full append log ≡ (ok tt, log)
  unfolding flush_full
  flush_full_room log e = ground (arith, e)

  -- Behind the test for a full buffer there is room.
  pub flush_full-Ends :
      (log : Log S)
      → IsLog log
      → Ends
          (λ _ b. Streams (stream log) b × (b.position < 505))
          (λ b. Failed (stream log) b)
          (flush_full append log)
  flush_full-Ends log h = elim (Bool-cases (leb 505 log.position)) [
    | inl e ↦ rw (flush_full_full log e) (
        Ends-mono (λ _ b. Streams (stream log) b × (b.position ≡ 0))
          (λ _ b. Streams (stream log) b × (b.position < 505)) (λ b. Failed (stream log) b)
          (λ b. Failed (stream log) b) (log_flush append log)
          (log_flush-Ends log h (ground (arith, e))) (λ _ b k. (k.0, omega (arith, k.1)))
          (λ b k. k))
    | inr e ↦ rw (flush_full_room log e) (record { is_log = h; same = refl }, ground (arith, e))
  ]
