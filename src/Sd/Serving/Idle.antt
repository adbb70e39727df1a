-- ===== src/Sd/Serving/Idle.antt =====
-- sd_raw.cpp under fkfs.cpp: the state of the bus and the pin between the calls of the file system.
use fkfs.Base.{◌<◌, take, ℕ, ◌≤◌, ◌≡◌, Bool, true, false, List, length, ◌∙◌, refl, arith}
use fkfs.Base.Memory.{length-overwrite}
use fkfs.Exec.{Result, ok, failed, fault}
use fkfs.Exec.Ends.{Ends, Ends-also, Ends-mono}
use fkfs.Fs.{Fs}
use fkfs.Fs.Append.{file_append}
use fkfs.Fs.Invariant.{IsFs}
use fkfs.Fs.Invariant.Append.{NotDone, file_append-Ends}
use fkfs.Fs.Invariant.Append.InBlock.{Stored}
use fkfs.Fs.Invariant.Frame.{Preserves, file_append-Keeps}
use fkfs.Sd.{Bus, Device}
use fkfs.Sd.Read.{read_block}
use fkfs.Sd.Write.{write_block}
use fkfs.Sd.Serving.{sd_platform, received, Served, noted}
use fkfs.Sd.Timed.{Clock, Pins}
use fkfs.Sd.Timed.Talk.{Rested}
use fkfs.Sd.Timed.Reads.{read_block-Ends}
use fkfs.Sd.Timed.Writes.{write_block-Ends}

module _ {B : Type 0} (p : Bus B) (time : B → ℕ) (c : Clock p time) (level : B → ℕ → Bool)
    (pins : Pins p level) where
  -- No block is open, and the pin of the card is high; pin and type are the given ones.
  pub record Idle (pin type : ℕ) (d : Device B) : Type 0 where
    pub cs : d.sd.cs ≡ pin
    pub type_is : d.sd.type ≡ type
    pub closed : d.sd.in_block ≡ false
    pub high : level d.bus d.sd.cs ≡ true

  Rested-Idle :
      {most pin type : ℕ} {d e : Device B}
      → Idle pin type d
      → Rested p time c level pins 0 most d e
      → Idle pin type e
  Rested-Idle i r = record {
    cs = r.talked.pin ∙ i.cs;
    type_is = r.talked.type ∙ i.type_is;
    closed = r.talked.closed;
    high = r.high;
  }

  length-received : (r : Result (List ℕ)) (dest : List ℕ) → length (received r dest) ≡ length dest
  length-received (ok bytes) dest = length-overwrite 0 bytes dest
  length-received failed dest = refl
  length-received (fault e) dest = refl

  -- No call of the driver has faulted, and the device is idle.
  pub record AtRest (pin type : ℕ) (s : Served B) : Type 0 where
    pub idle : Idle pin type s.device
    pub sound : s.faulted ≡ false

  -- Either end of an action, which then has not faulted.
  from_Ends :
      {A : Type 0} (pin type : ℕ) (r : Result A × Device B) (s : Served B)
      → s.faulted ≡ false
      → Ends (λ _ e. Idle pin type e) (λ e. Idle pin type e) r
      → AtRest pin type (record { device = r.1; faulted = noted r.0 s.faulted })
  from_Ends pin type (ok a, e) s sound h = record { idle = h; sound = sound }
  from_Ends pin type (failed, e) s sound h = record { idle = h; sound = sound }
  from_Ends pin type (fault x, e) s sound h = absurd h

  sd_platform-Preserves :
      (fuel : ℕ) (random : ℕ → B → ℕ × B) (past : Device B → ℕ → ℕ) (pin type : ℕ)
      → 6020000 ≤ fuel
      → Preserves (sd_platform p fuel random past) (AtRest pin type)
  sd_platform-Preserves fuel random past pin type enough = record {
    read_length = λ b dest s. length-received (read_block p fuel b s.device).0 dest;
    sd_read = λ b dest s i. from_Ends pin type (read_block p fuel b s.device) s i.sound (
        Ends-mono _ _ _ _ (read_block p fuel b s.device)
          (read_block-Ends p time c level pins fuel b s.device (omega arith))
          (λ _ e (r, _). Rested-Idle i.idle r) (λ e r. Rested-Idle i.idle r.rested));
    sd_write = λ b source s w i.
        from_Ends pin type (write_block p fuel b source s.device) s i.sound (
          Ends-mono _ _ _ _ (write_block p fuel b source s.device)
            (write_block-Ends p time c level pins fuel b source s.device enough (omega (arith, w)))
            (λ _ e (r, _). Rested-Idle i.idle r) (λ e r. Rested-Idle i.idle r.rested));
    millis = λ s i. record {
      idle = record {
        cs = i.idle.cs;
        type_is = i.idle.type_is;
        closed = i.idle.closed;
        high = pins.millis_keeps s.device.sd.cs s.device.bus ∙ i.idle.high;
      };
      sound = i.sound;
    };
  }

  -- Over the driver, on a bus with a clock that goes on and pins that keep their levels, with fuel
  -- for 602 ms, and from a state under the invariant in which no block is open, the card is not
  -- selected and no call of the driver has faulted, an append of 1 to 505 bytes to one of the four
  -- files does not fault, and neither does a call of the driver that it makes. Where it succeeds the
  -- entry stands in the block buffer, as for any platform; where it fails the invariant still holds,
  -- and either the files are as they were or the entry is stored all the same. In both cases no
  -- block is open and the card is not selected, with the same pin and type.
  pub file_append-Idle :
      (fuel : ℕ) (random : ℕ → B → ℕ × B) (past : Device B → ℕ → ℕ) (pin type : ℕ)
      (enough : 6020000 ≤ fuel) (number size : ℕ) (bytes : List ℕ) (fs : Fs (Served B))
      → IsFs fs
      → number < 4
      → 0 < size
      → size ≤ 505
      → size ≤ length bytes
      → AtRest pin type fs.sd
      → Ends
          (λ _ b.
            Stored (sd_platform p fuel random past) number (take size bytes) fs b
            × AtRest pin type b.sd)
          (λ b.
            NotDone (sd_platform p fuel random past) number (take size bytes) fs b
            × AtRest pin type b.sd)
          (file_append (sd_platform p fuel random past) number size bytes fs)
  file_append-Idle fuel random past pin type enough number size bytes fs h lt some small given i =
      let keeps : Preserves (sd_platform p fuel random past) (AtRest pin type) =
        sd_platform-Preserves fuel random past pin type enough in
      Ends-also _ _ (λ (b : Fs (Served B)). AtRest pin type b.sd)
        (file_append (sd_platform p fuel random past) number size bytes fs)
        (file_append-Ends (sd_platform p fuel random past) keeps.read_length number size bytes fs h
          lt some small given)
        (file_append-Keeps (sd_platform p fuel random past) (AtRest pin type) keeps number size
          bytes fs (record { whole = h.bytes; state = i })).state
