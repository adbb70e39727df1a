-- ===== src/Sd/Serving.antt =====
-- sd_raw.cpp under fkfs.cpp: the driver as the platform of the file system.
pub mod Idle
use fkfs.Base.{ℕ, Bool, true, false, List}
use fkfs.Base.Memory.{overwrite}
use fkfs.Exec.{Result, ok, failed, fault}
use fkfs.Platform.{Platform}
use fkfs.Sd.{Sd, Bus, Device}
use fkfs.Sd.Read.{read_block}
use fkfs.Sd.Write.{write_block}
use fkfs.Sd.Csd.{card_size}

-- The struct after `memset`.
abbrev zero_sd : Sd
zero_sd = record { cs = 0; status = 0; type = 0; offset = 0; in_block = false; block = 0 }

-- The struct `sd_raw_t` with the bus, and whether a call of the driver has faulted, that is, done what
-- is undefined or not returned.
pub record Served (B : Type 0) : Type 0 where
  pub device : Device B
  pub faulted : Bool

abbrev pub noted : {A : Type 0} → Result A → Bool → Bool
noted (ok a) before = before
noted failed before = before
noted (fault e) before = true

-- The status that the file system sees. A fault is noted beside it.
abbrev pub succeeds : {A : Type 0} → Result A → Bool
succeeds (ok a) = true
succeeds failed = false
succeeds (fault e) = false

-- A read that fails has not touched the destination.
abbrev pub received : Result (List ℕ) → List ℕ → List ℕ
received (ok bytes) dest = overwrite 0 bytes dest
received failed dest = dest
received (fault e) dest = dest

abbrev pub sized : Result ℕ → ℕ
sized (ok blocks) = blocks
sized failed = 0
sized (fault e) = 0

module _ {B : Type 0} (p : Bus B) (fuel : ℕ) (random : ℕ → B → ℕ × B)
    (past : Device B → ℕ → ℕ) where
  -- `random` is Arduino's, and `past` what is behind the block buffer.
  abbrev pub sd_platform : Platform (Served B)
  sd_platform = record {
    sd_read = λ block dest s.
        let (r, d) = read_block p fuel block s.device in
        (succeeds r, received r dest, record { device = d; faulted = noted r s.faulted });
    sd_write = λ block source s.
        let (r, d) = write_block p fuel block source s.device in
        (succeeds r, record { device = d; faulted = noted r s.faulted });
    card_size = λ s.
        let (r, d) = card_size p fuel s.device in
        (sized r, record { device = d; faulted = noted r s.faulted });
    millis = λ s.
        let (now, bus) = p.millis s.device.bus in
        (now, record s { device = record s.device { bus = bus } });
    random = λ n s.
        let (r, bus) = random n s.device.bus in
        (r, record s { device = record s.device { bus = bus } });
    sd_zero = λ s. record s { device = record s.device { sd = zero_sd } };
    past = λ s. past s.device;
  }
