-- ===== src/Tests/Served.antt =====
-- The file system over the driver, on the bus with a script.
use fkfs.Base.{arith, true, false, [], ◌∷◌, refl}
use fkfs.Exec.Ends.{Ends}
use fkfs.Fs.{Fs}
use fkfs.Fs.Append.{file_append}
use fkfs.Fs.Invariant.{IsFs}
use fkfs.Fs.Invariant.Append.{NotDone}
use fkfs.Fs.Invariant.Append.InBlock.{Stored}
use fkfs.Platform.{Platform}
use fkfs.Sd.{type_sd2}
use fkfs.Sd.Serving.{sd_platform, Served}
use fkfs.Sd.Serving.Idle.{AtRest, file_append-Idle}
use fkfs.Tests.Core.{fresh, three}
use fkfs.Tests.Wire.{Wire, wire, ticks, level, wire-Clock, wire-Pins}

abbrev served : Platform (Served Wire)
served = sd_platform wire 6020000 (λ n b. (0, b)) (λ d i. 0)

-- A file system just created, over a card that is set up.
abbrev fs : Fs (Served Wire)
fs = record {
  header_index = 0;
  cached_block_dirty = false;
  cached_block_number = 0;
  number_of_blocks = 1000;
  header = fresh.header;
  sd = record {
    device = record {
      sd = record { cs = 4; status = 0; type = type_sd2; offset = 0; in_block = false; block = 0 };
      bus = record { ticks = 0; level = λ i. true; script = 255 ∷ []; job = 0 };
    };
    faulted = false;
  };
  buffer = fresh.buffer;
  files = fresh.files;
  statistics = fresh.statistics;
}

fs-IsFs : IsFs fs
fs-IsFs = omega arith

fs-AtRest : AtRest wire ticks wire-Clock level wire-Pins 4 type_sd2 fs.sd
fs-AtRest = record {
  idle = record { cs = refl; type_is = refl; closed = refl; high = refl };
  sound = refl;
}

file_append-Idle_example :
    Ends
      (λ _ b.
        Stored served 0 three fs b × AtRest wire ticks wire-Clock level wire-Pins 4 type_sd2 b.sd)
      (λ b.
        NotDone served 0 three fs b × AtRest wire ticks wire-Clock level wire-Pins 4 type_sd2 b.sd)
      (file_append served 0 3 three fs)
file_append-Idle_example =
    file_append-Idle wire ticks wire-Clock level wire-Pins 6020000 (λ n b. (0, b)) (λ d i. 0) 4
      type_sd2 (omega arith) 0 3 three fs fs-IsFs (omega arith) (omega arith) (omega arith)
      (omega arith) fs-AtRest
