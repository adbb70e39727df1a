-- ===== src/Tests/Logging.antt =====
-- The theorem on the log over a file system on a card in memory.
use fkfs.Base.{ℕ, arith, true, [], List, refl, ◌++◌, replicate}
use fkfs.Exec.Ends.{Ends}
use fkfs.Log.{Log, append_binary}
use fkfs.Log.Buffered.{IsLog, Streams, stream}
use fkfs.Log.Stream.{PartStreams, append_binary-Ends}
use fkfs.Log.Traced.{traced, traced-Appends, State, IsTrace, History}
use fkfs.Tests.Card.{card, card-ReadsBlocks}
use fkfs.Tests.Core.{fresh, fresh-IsFs, three}

abbrev Ready : State card → Type 0
Ready s = IsTrace card 0 fresh s

abbrev trace : State card → List ℕ
trace s = s.1

-- A log with two bytes short of a full buffer.
abbrev log : Log (State card)
log = record { fs = (fresh, []); file = 0; position = 503; buffer = replicate 505 1 }

log-IsLog :
    IsLog
      (traced card)
      Ready
      trace
      0
      (traced-Appends card card-ReadsBlocks 0 fresh (omega arith))
      log
log-IsLog = record {
  ready = record { is_fs = fresh-IsFs; history = History.none_yet };
  same_file = refl;
  full = refl;
  place = omega arith;
}

append_binary-Ends_example :
    Ends
      (λ _ b.
        Streams
          (traced card)
          Ready
          trace
          0
          (traced-Appends card card-ReadsBlocks 0 fresh (omega arith))
          (stream
              (traced card)
              Ready
              trace
              0
              (traced-Appends card card-ReadsBlocks 0 fresh (omega arith))
              log
            ++ three)
          b)
      (λ b.
        PartStreams
          (traced card)
          Ready
          trace
          0
          (traced-Appends card card-ReadsBlocks 0 fresh (omega arith))
          (stream
            (traced card)
            Ready
            trace
            0
            (traced-Appends card card-ReadsBlocks 0 fresh (omega arith))
            log)
          three
          b)
      (append_binary (traced card) three true log)
append_binary-Ends_example =
    append_binary-Ends (traced card) Ready trace 0
      (traced-Appends card card-ReadsBlocks 0 fresh (omega arith)) three true log log-IsLog
