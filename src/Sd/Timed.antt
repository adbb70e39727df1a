-- ===== src/Sd/Timed.antt =====
-- The driver on a bus with a clock that goes on: the laws of the bus, and the driver's single steps.
pub mod Talk
pub mod Faults
pub mod Reads
pub mod Programming
pub mod Writes
pub mod Jobs
pub mod Frames
pub mod Commands
pub mod Rest
pub mod Retries
pub mod Version
pub mod Setup
pub mod Erases
use fkfs.Base.{
  ℕ, zero, suc, ◌+◌, ◌-◌, ◌*◌, ◌/◌, ◌%◌, ◌^◌, ◌≤◌, ◌<◌, ◌≡◌, Bool, refl, sym, subst, ap, ◌∙◌, arith,
  ltb, ltb→lt, ◌==◌,
}
use fkfs.Exec.Ends.{Ends, Ends-cases, Ends-bind_sure, Ends-mono}
use fkfs.Fs.{sub32}
use fkfs.Sd.{Bus, Device}
use fkfs.Sd.Spi.{transfer, clock, write_cs, skip, flush_loop, flush}

-- Time goes on in ticks, of which ten thousand are a millisecond. An exchange of a byte takes a tick
-- at least, since the bus has at most 50 MHz; nothing takes longer than a second.
pub record Clock {B : Type 0} (p : Bus B) (time : B → ℕ) : Type 0 where
  pub reads : (b : B) → (p.millis b).0 ≡ time b / 10000 % 2 ^ 32
  pub millis_after : (b : B) → time b ≤ time (p.millis b).1
  pub millis_before : (b : B) → time (p.millis b).1 ≤ time b + 10000000
  pub transfer_after : (v : ℕ) (b : B) → time b + 1 ≤ time (p.transfer v b).1
  pub transfer_before : (v : ℕ) (b : B) → time (p.transfer v b).1 ≤ time b + 10000000
  pub write_after : (pin : ℕ) (v : Bool) (b : B) → time b ≤ time (p.digital_write pin v b)
  pub write_before :
      (pin : ℕ) (v : Bool) (b : B) → time (p.digital_write pin v b) ≤ time b + 10000000

-- The levels of the pins: a pin has the level that was written last, also when the clock is read.
pub record Pins {B : Type 0} (p : Bus B) (level : B → ℕ → Bool) : Type 0 where
  pub write_self : (pin : ℕ) (v : Bool) (b : B) → level (p.digital_write pin v b) pin ≡ v
  pub millis_keeps : (pin : ℕ) (b : B) → level (p.millis b).1 pin ≡ level b pin

module _ {B : Type 0} (time : B → ℕ) where
  -- The time between two states.
  pub record Took (least most : ℕ) (d e : Device B) : Type 0 where
    pub after : time d.bus + least ≤ time e.bus
    pub before : time e.bus ≤ time d.bus + most

-- The difference of two readings of the clock, which wraps, is the time that has passed.
pub elapsed :
    (start t : ℕ)
    → start ≤ t
    → t ≤ start + 40000000000000
    → sub32 (t / 10000 % 2 ^ 32) (start / 10000 % 2 ^ 32) ≡ t / 10000 - start / 10000
elapsed start t le near = omega arith

module _ {B : Type 0} (p : Bus B) (time : B → ℕ) (c : Clock p time) where
  pub transfer-Ends :
      (v : ℕ) (d : Device B)
      → Ends (λ _ e. Took time 1 10000000 d e × (e.sd ≡ d.sd)) (λ _. ⊥) (transfer p v d)
  unfolding transfer
  transfer-Ends v d =
      (record { after = c.transfer_after v d.bus; before = c.transfer_before v d.bus }, refl)

  pub skip-Ends :
      (n : ℕ) (d : Device B)
      → Ends (λ _ e. Took time n (n * 10000000) d e × (e.sd ≡ d.sd)) (λ _. ⊥) (skip p n d)
  unfolding skip
  skip-Ends zero d = (record { after = omega arith; before = omega arith }, refl)
  skip-Ends (suc n) d =
      Ends-bind_sure _ _ _ (transfer p 255) _ d (transfer-Ends 255 d) λ byte e (k, same).
        Ends-mono _ _ _ _ (skip p n e) (skip-Ends n e)
          (λ _ f (j, is). (record { after = omega arith; before = omega arith }, is ∙ same))
          (λ f no_failure. no_failure)

  pub clock-Ends :
      (d : Device B)
      → Ends
          (λ now e. Took time 0 10000000 d e × (e.sd ≡ d.sd) × (now ≡ time d.bus / 10000 % 2 ^ 32))
          (λ _. ⊥)
          (clock p d)
  unfolding clock
  clock-Ends d = (
    record { after = omega (arith, c.millis_after d.bus); before = c.millis_before d.bus },
    refl,
    c.reads d.bus,
  )

  pub write_cs-Ends :
      (v : Bool) (d : Device B)
      → Ends (λ _ e. Took time 0 10000000 d e × (e.sd ≡ d.sd)) (λ _. ⊥) (write_cs p v d)
  unfolding write_cs
  write_cs-Ends v d = (
    record {
      after = omega (arith, c.write_after d.sd.cs v d.bus);
      before = c.write_before d.sd.cs v d.bus;
    },
    refl,
  )

  -- A wait that started at the time `start` goes on for `timeout` milliseconds and one more at most.
  flush_loop-Ends :
      (fuel start timeout : ℕ) (d : Device B)
      → start ≤ time d.bus
      → time d.bus ≤ start + timeout * 10000 + 30000000
      → timeout ≤ 10000
      → 0 < fuel
      → start + (timeout + 1) * 10000 < time d.bus + fuel
      → Ends
          (λ _ e.
            (time d.bus < time e.bus)
            × (time e.bus ≤ start + timeout * 10000 + 60000000)
            × (e.sd ≡ d.sd))
          (λ e.
            (time d.bus < time e.bus)
            × (time e.bus ≤ start + timeout * 10000 + 60000000)
            × (e.sd ≡ d.sd))
          (flush_loop p fuel (start / 10000 % 2 ^ 32) timeout d)
  unfolding flush_loop
  flush_loop-Ends zero start timeout d le near small some enough = absurd (omega arith)
  flush_loop-Ends (suc fuel) start timeout d le near small some enough =
      Ends-bind_sure _ _ _ (transfer p 255) _ d (transfer-Ends 255 d) λ byte e (k, same).
        Ends-cases _ _ (byte == 0xff) _ _ e (λ idle. (omega arith, omega arith, same))
          λ busy. Ends-bind_sure _ _ _ (clock p) _ e (clock-Ends e) λ now f (j, still, is_now).
            let difference : sub32 now (start / 10000 % 2 ^ 32)
                ≡ time e.bus / 10000 - start / 10000 =
              ap (λ (t : ℕ). sub32 t (start / 10000 % 2 ^ 32)) is_now
              ∙ elapsed start (time e.bus) (omega arith) (omega arith) in
            Ends-cases _ _ (ltb (sub32 now (start / 10000 % 2 ^ 32)) timeout) _ _ f
              (λ early.
                let soon : sub32 now (start / 10000 % 2 ^ 32) < timeout = ltb→lt _ _ early in
                Ends-mono _ _ _ _ (flush_loop p fuel (start / 10000 % 2 ^ 32) timeout f)
                  (flush_loop-Ends fuel start timeout f (omega arith) (omega arith) small
                    (omega arith) (omega arith))
                  (λ _ g (lo, hi, is). (omega arith, hi, is ∙ still ∙ same))
                  (λ g (lo, hi, is). (omega arith, hi, is ∙ still ∙ same)))
              (λ late. (omega arith, omega arith, still ∙ same))

  -- A flush ends, within its limit and a few seconds for the calls.
  pub flush-Ends :
      (fuel timeout : ℕ) (d : Device B)
      → timeout ≤ 10000
      → (timeout + 2) * 10000 ≤ fuel
      → Ends
          (λ _ e. Took time 1 (timeout * 10000 + 60000000) d e × (e.sd ≡ d.sd))
          (λ e. Took time 1 (timeout * 10000 + 60000000) d e × (e.sd ≡ d.sd))
          (flush p fuel timeout d)
  unfolding flush
  flush-Ends fuel timeout d small enough =
      Ends-bind_sure _ _ _ (clock p) _ d (clock-Ends d) λ now e (k, same, is_now).
        subst
          (λ (t : ℕ).
            Ends (λ _ e. Took time 1 (timeout * 10000 + 60000000) d e × (e.sd ≡ d.sd))
              (λ e. Took time 1 (timeout * 10000 + 60000000) d e × (e.sd ≡ d.sd))
              (flush_loop p fuel t timeout e))
          (sym is_now)
          (Ends-mono _ _ _ _ (flush_loop p fuel (time d.bus / 10000 % 2 ^ 32) timeout e)
            (flush_loop-Ends fuel (time d.bus) timeout e (omega arith) (omega arith) small
              (omega arith) (omega arith))
            (λ _ g (lo, hi, is). (record { after = omega arith; before = omega arith }, is ∙ same))
            (λ g (lo, hi, is). (record { after = omega arith; before = omega arith }, is ∙ same)))
