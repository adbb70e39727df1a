-- ===== src/Tests/Sent.antt =====
-- What the driver sends on the bus with a script.
use fkfs.Base.{ℕ, arith, true, false, [], ◌∷◌, List}
use fkfs.Exec.Ends.{Ends}
use fkfs.Sd.{Device, type_sdhc}
use fkfs.Sd.Spi.{command}
use fkfs.Sd.Timed.Frames.{tapped}
use fkfs.Sd.Timed.Commands.{Framed, command-Framed}
use fkfs.Tests.Wire.{Wire, wire, ticks, level, wire-Clock, wire-Pins}

-- A card that is busy at first, with a block open.
abbrev noted : Device (Wire × List ℕ)
noted = record {
  sd = record { cs = 4; status = 0; type = type_sdhc; offset = 500; in_block = true; block = 7 };
  bus = (record { ticks = 90000; level = λ i. false; script = 0 ∷ 0 ∷ []; job = 0 }, []);
}

command-Framed_example :
    Ends
      (λ _ e. Framed wire ticks wire-Clock level wire-Pins 17 305419896 noted e)
      (λ _. ⊥)
      (command (tapped wire) 3020000 17 305419896 noted)
command-Framed_example =
    command-Framed wire ticks wire-Clock level wire-Pins 3020000 17 305419896 noted (omega arith)
      (omega arith)
