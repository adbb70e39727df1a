-- ===== src/Tests/Wire.antt =====
-- A bus with a card that answers by a script, and the theorems on the driver on that bus.
use fkfs.Base.{
  false, some, zero, suc, ◌<◌, ◌≤◌, ◌*◌, ltb, ltb→lt, ◌&&◌, ℕ, ◌+◌, ◌/◌, ◌%◌, ◌^◌, ◌≡◌, ◌⊎◌, arith,
  true, Bool, [], ◌∷◌, List, refl, if◌then◌else◌, ◌==◌, ==_iff, replicate, length,
}
use fkfs.Exec.Ends.{Ends}
use fkfs.Sd.{Bus, Device, type_sd1, type_sd2, type_sdhc}
use fkfs.Sd.Read.{read_block}
use fkfs.Sd.Write.{write_block}
use fkfs.Sd.Csd.{erase, size_of_csd}
use fkfs.Sd.Csd.Register.{field, capacity}
use fkfs.Sd.Csd.Capacity.{size_of_csd-Ends}
use fkfs.Sd.Error
use fkfs.Sd.Dma.{Dma, SdDma, DescriptorConfig, beat_byte, dma_write_block, dma_read_block}
use fkfs.Sd.Timed.Jobs.{Jobs, Released, dma_write_block-Ends, dma_read_block-Ends}
use fkfs.Layout.{byte}
use fkfs.Sd.Init.{initialize}
use fkfs.Sd.Timed.{Clock, Pins}
use fkfs.Sd.Timed.Talk.{Rested}
use fkfs.Sd.Timed.Reads.{ReadRefused, read_block-Ends}
use fkfs.Sd.Timed.Writes.{WriteRefused, write_block-Ends}
use fkfs.Sd.Timed.Erases.{EraseRefused, erase-Ends}
use fkfs.Sd.Timed.Retries.{Settled}
use fkfs.Sd.Timed.Setup.{SetupRefused, initialize-Ends}

pub record Wire : Type 0 where
  pub ticks : ℕ
  pub level : ℕ → Bool
  pub script : List ℕ
  pub job : ℕ

abbrev pub ticks : Wire → ℕ
ticks b = b.ticks

abbrev pub level : Wire → ℕ → Bool
level b = b.level

-- A byte of the script, and 0xff behind its end.
abbrev pub exchange : ℕ → Wire → ℕ × Wire
exchange value b = elim b.script [
  | [] ↦ (255, record b { ticks = b.ticks + 1 })
  | x ∷ xs ↦ (x, record b { ticks = b.ticks + 1; script = xs })
]

abbrev pub wire : Bus Wire
wire = record {
  transfer = exchange;
  millis = λ b. (b.ticks / 10000 % 2 ^ 32, b);
  digital_write = λ pin v b. record b { level = λ i. if i == pin then v else b.level i };
  pin_mode_output = λ pin b. b;
  spi_begin = λ b. b;
  set_clock_divider = λ n b. b;
}

exchange_time : (v : ℕ) (b : Wire) → ticks (exchange v b).1 ≡ ticks b + 1
exchange_time v b = by_script b.ticks b.level b.script b.job v
  where
    by_script :
        (t : ℕ) (l : ℕ → Bool) (s : List ℕ) (j v : ℕ)
        → ticks (exchange v (record { ticks = t; level = l; script = s; job = j })).1 ≡ t + 1
    by_script t l [] j v = refl
    by_script t l (x ∷ xs) j v = refl

pub wire-Clock : Clock wire ticks
wire-Clock = record {
  reads = λ b. refl;
  millis_after = λ b. omega arith;
  millis_before = λ b. omega arith;
  transfer_after = λ v b. omega (arith, exchange_time v b);
  transfer_before = λ v b. omega (arith, exchange_time v b);
  write_after = λ pin v b. omega arith;
  write_before = λ pin v b. omega arith;
}

pub wire-Pins : Pins wire level
wire-Pins = record {
  write_self = λ pin v b. rw ((==_iff pin pin).1 refl) refl;
  millis_keeps = λ pin b. refl;
}

-- A card that has sent the first bytes of a block, and takes the next command.
abbrev device : Device Wire
device = record {
  sd = record { cs = 4; status = 0; type = type_sd2; offset = 100; in_block = true; block = 7 };
  bus = record { ticks = 5; level = λ i. true; script = 255 ∷ 0 ∷ 0 ∷ []; job = 0 };
}

read_block-Ends_example :
    Ends
      (λ bytes e.
        Rested wire ticks wire-Clock level wire-Pins 0 24000000000 device e × (length bytes ≡ 512))
      (λ e. ReadRefused wire ticks wire-Clock level wire-Pins 8000000000 device e)
      (read_block wire 3020000 9 device)
read_block-Ends_example =
    read_block-Ends wire ticks wire-Clock level wire-Pins 3020000 9 device (omega arith)

write_block-Ends_example :
    Ends
      (λ _ e.
        Rested wire ticks wire-Clock level wire-Pins 0 24000000000 device e × (e.sd.status ≡ 0))
      (λ e. WriteRefused wire ticks wire-Clock level wire-Pins 24000000000 device e)
      (write_block wire 6020000 9 (replicate 512 3) device)
write_block-Ends_example =
    write_block-Ends wire ticks wire-Clock level wire-Pins 6020000 9 (replicate 512 3) device
      (omega arith) (omega arith)

erase-Ends_example :
    Ends
      (λ _ e. Rested wire ticks wire-Clock level wire-Pins 0 40000000000 device e)
      (λ e. EraseRefused wire ticks wire-Clock level wire-Pins 40000000000 device e)
      (erase wire 100020000 9 12 device)
erase-Ends_example =
    erase-Ends wire ticks wire-Clock level wire-Pins 100020000 9 12 device (omega arith)

initialize-Ends_example :
    Ends
      (λ _ e.
        Settled wire ticks wire-Clock level wire-Pins 10 e
        × ((e.sd.type ≡ type_sd1) ⊎ (e.sd.type ≡ type_sd2) ⊎ (e.sd.type ≡ type_sdhc)))
      (λ e. SetupRefused wire ticks wire-Clock level wire-Pins 10 e)
      (initialize wire 20020000 10 device)
initialize-Ends_example =
    initialize-Ends wire ticks wire-Clock level wire-Pins 20020000 10 device (omega arith)

-- The register of a card of 1 GB: blocks of 1024 bytes, in 3752 groups of 256.
abbrev csd : List ℕ
csd = 0 ∷ 38 ∷ 0 ∷ 50 ∷ 95 ∷ 90 ∷ 131 ∷ 169 ∷ 255 ∷ 251 ∷ 129 ∷ 128 ∷ 10 ∷ 64 ∷ 0 ∷ 1 ∷ []

abbrev bytes_only : List ℕ → Bool
bytes_only [] = true
bytes_only (x ∷ xs) = ltb x 256 && bytes_only xs

byte_bound : (xs : List ℕ) → bytes_only xs ≡ true → (i : ℕ) → byte xs i < 256
unfolding byte
byte_bound [] h i = omega arith
byte_bound (x ∷ xs) h zero = ltb→lt x 256 (ground (arith, h))
byte_bound (x ∷ xs) h (suc i) = byte_bound xs (ground (arith, h)) i

large : 7 ≤ field csd 47 3 + field csd 80 4
unfolding byte
large = omega arith

is_first : field csd 126 2 ≡ 0
unfolding byte
is_first = refl

size_of_csd-Ends_example :
    Ends
      (λ blocks e.
        ((field csd 126 2 ≤ 1) × (blocks * 512 ≡ capacity csd) × (e ≡ device))
        ⊎ ((2 ≤ field csd 126 2) × (blocks ≡ 0) × (e.sd.status ≡ Error.bad_csd)))
      (λ _. ⊥)
      (size_of_csd wire csd device)
size_of_csd-Ends_example =
    size_of_csd-Ends wire csd device (byte_bound csd refl) (λ _. large)
      (λ h. absurd (omega (arith, h, is_first)))

-- A controller whose jobs take three looks.
abbrev look : Wire → Bool × Wire
look b = elim b.job [ zero ↦ (false, b) | suc n ↦ (true, record b { job = n }) ]

abbrev controller : Dma Wire ℕ DescriptorConfig
controller = record {
  allocate = λ trigger b. (some 1, b);
  create_descriptor = λ config. config;
  add_descriptor = λ r e b. (true, b);
  enable_callback = λ r b. b;
  start_job = λ r b. record b { job = 3 };
  is_busy = λ r b. look b;
  begin_transaction = λ b. b;
  end_transaction = λ b. b;
  data_register = 1107298344;
}

abbrev left : ℕ → Wire → ℕ
left r b = b.job

less :
    (t : ℕ) (l : ℕ → Bool) (s : List ℕ) (j : ℕ)
    → (look (record { ticks = t; level = l; script = s; job = j })).0 ≡ true
    → (look (record { ticks = t; level = l; script = s; job = j })).1.job < j
less t l s zero h = absurd (ground (arith, h))
less t l s (suc j) h = omega arith

controller-Jobs : Jobs controller left 3
controller-Jobs = record {
  started = λ r b. omega arith;
  goes_on = λ r b h. less b.ticks b.level b.script b.job h;
}

abbrev config : DescriptorConfig
config = record {
  beat_size = beat_byte;
  dst_increment = false;
  src_increment = true;
  count = 512;
  source = 536871424;
  destination = 1107298344;
}

abbrev pub sd_dma : SdDma ℕ DescriptorConfig
sd_dma = record { rx_resource = 1; tx_resource = 2; tx_descriptor = config; rx_descriptor = config }

dma_write_block-Ends_example :
    Ends
      (λ _ e.
        Released wire ticks wire-Clock level wire-Pins controller left 3 controller-Jobs device e
        × (e.sd.status ≡ 0))
      (λ e.
        Released wire ticks wire-Clock level wire-Pins controller left 3 controller-Jobs device e
        × ((e.sd.status ≡ Error.cmd24)
            ⊎ (e.sd.status ≡ Error.write)
            ⊎ (e.sd.status ≡ Error.write_timeout)
            ⊎ (e.sd.status ≡ Error.write_programming)))
      (dma_write_block wire controller sd_dma 6020000 9 device)
dma_write_block-Ends_example =
    dma_write_block-Ends wire ticks wire-Clock level wire-Pins controller left 3 controller-Jobs
      sd_dma 6020000 9 device (omega arith) (omega arith)

dma_read_block-Ends_example :
    Ends
      (λ _ e.
        Released wire ticks wire-Clock level wire-Pins controller left 3 controller-Jobs device e)
      (λ e.
        Released wire ticks wire-Clock level wire-Pins controller left 3 controller-Jobs device e
        × ((e.sd.status ≡ Error.cmd17) ⊎ (e.sd.status ≡ Error.general)))
      (dma_read_block wire controller sd_dma 3020000 9 device)
dma_read_block-Ends_example =
    dma_read_block-Ends wire ticks wire-Clock level wire-Pins controller left 3 controller-Jobs
      sd_dma 3020000 9 device (omega arith) (omega arith)
