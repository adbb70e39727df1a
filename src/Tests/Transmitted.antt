-- ===== src/Tests/Transmitted.antt =====
-- The write of a block by DMA beside the one by bytes, on a bus with a card that answers by a script.
use fkfs.Base.{
  ℕ, zero, suc, ◌%◌, ◌<◌, ◌≡◌, refl, arith, false, some, true, List, [], ◌∷◌, replicate,
}
use fkfs.Exec.{ok, ◌>>=◌}
use fkfs.Sd.{Device, type_sdhc}
use fkfs.Sd.Spi.{transfer}
use fkfs.Sd.Write.{send_bytes, write_block}
use fkfs.Sd.Dma.{Dma, DescriptorConfig, await_job, dma_write_block}
use fkfs.Sd.Dma.Transmit.{Transmits, Alike, dma_write_block-Alike}
use fkfs.Tests.Wire.{Wire, wire, exchange, sd_dma}

-- The bytes on the bus, one after the other.
abbrev put_bytes : List ℕ → Wire → Wire
put_bytes [] b = b
put_bytes (x ∷ xs) b = put_bytes xs (exchange (x % 256) b).1

abbrev threes : List ℕ
threes = replicate 512 3

-- A controller that has finished when it is first looked at.
abbrev prompt : Dma Wire ℕ DescriptorConfig
prompt = record {
  allocate = λ trigger b. (some 1, b);
  create_descriptor = λ config. config;
  add_descriptor = λ r e b. (true, b);
  enable_callback = λ r b. b;
  start_job = λ r b. put_bytes threes b;
  is_busy = λ r b. (false, b);
  begin_transaction = λ b. b;
  end_transaction = λ b. b;
  data_register = 1107298344;
}

send_bytes-put_bytes :
    (xs : List ℕ) (d : Device Wire)
    → send_bytes wire xs d ≡ (ok tt, record d { bus = put_bytes xs d.bus })
unfolding send_bytes ◌>>=◌ transfer
send_bytes-put_bytes [] d = refl
send_bytes-put_bytes (x ∷ xs) d =
    send_bytes-put_bytes xs (record d { bus = (exchange (x % 256) d.bus).1 })

idle :
    (fuel : ℕ) (d : Device Wire)
    → 0 < fuel
    → await_job wire prompt fuel sd_dma.tx_resource d ≡ (ok tt, d)
unfolding await_job
idle zero d h = absurd (omega arith)
idle (suc fuel) d h = refl

prompt-Transmits : Transmits wire prompt sd_dma.tx_resource threes 0
prompt-Transmits = record {
  sends = λ fuel d some.
      (record d { bus = put_bytes threes d.bus }, idle fuel _ some, send_bytes-put_bytes threes d);
}

-- A card of high capacity that takes the command and accepts the data.
abbrev large_card : Device Wire
large_card = record {
  sd = record { cs = 4; status = 0; type = type_sdhc; offset = 0; in_block = false; block = 0 };
  bus = record { ticks = 5; level = λ i. true; script = 255 ∷ 0 ∷ []; job = 0 };
}

dma_write_block-Alike_example :
    Alike wire
      (dma_write_block wire prompt sd_dma 5 9 large_card)
      (write_block wire 5 9 threes large_card)
dma_write_block-Alike_example =
    dma_write_block-Alike wire prompt sd_dma threes 0 prompt-Transmits 5 9 large_card (omega arith)
      refl refl
