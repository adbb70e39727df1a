-- ===== src/Sd/Timed/Rest.antt =====
-- The steps that an operation ends with, on a bus with a clock that goes on.
use fkfs.Base.{Bool, ℕ, ◌+◌, ◌*◌, ◌%◌, ◌≤◌, ◌≡◌, ap, ◌∙◌, true, arith}
use fkfs.Exec.Ends.{Ends, Ends-mono}
use fkfs.Sd.{Sd, Bus, Device}
use fkfs.Sd.Spi.{flush, write_cs, or_error}
use fkfs.Sd.Timed.{Clock, Pins, flush-Ends}
use fkfs.Sd.Timed.Talk.{Talked, Rested, cs_high-Ends}
use fkfs.Sd.Timed.Faults.{unchanged, or_error-Ends, Talked-on, Rested-on}

module _ {B : Type 0} (p : Bus B) (time : B → ℕ) (c : Clock p time) (level : B → ℕ → Bool)
    (pins : Pins p level) where
  -- The last of two commands that are sent one behind the other.
  pub Talked-twice :
      {most most' hi : ℕ} {d e f : Device B}
      → Talked p time c level pins 0 most d e
      → Talked p time c level pins 1 most' e f
      → most + most' ≤ hi
      → Talked p time c level pins 0 hi d f
  Talked-twice t u h = record {
    took = record { after = omega (arith, t.took, u.took); before = omega (arith, t.took, u.took) };
    pin = u.pin ∙ t.pin;
    type = u.type ∙ t.type;
    closed = u.closed;
  }

  pub Talked-within :
      {most hi : ℕ} {d e : Device B}
      → Talked p time c level pins 0 most d e
      → most ≤ hi
      → Talked p time c level pins 0 hi d e
  Talked-within t h = record {
    took = record { after = t.took.after; before = omega (arith, t.took) };
    pin = t.pin;
    type = t.type;
    closed = t.closed;
  }

  pub Rested-within :
      {most hi : ℕ} {d e : Device B}
      → Rested p time c level pins 0 most d e
      → most ≤ hi
      → Rested p time c level pins 0 hi d e
  Rested-within r h = record { talked = Talked-within r.talked h; high = r.high }

  -- The wait for an idle bus, whose end is an error of the operation.
  pub flush_or-Ends :
      (fuel timeout code most hi : ℕ) (d e : Device B)
      → timeout ≤ 10000
      → (timeout + 2) * 10000 ≤ fuel
      → most + timeout * 10000 + 70000000 ≤ hi
      → Talked p time c level pins 0 most d e
      → Ends
          (λ _ f. Talked p time c level pins 0 hi d f)
          (λ f. Rested p time c level pins 0 hi d f × (f.sd.status ≡ code % 256))
          (or_error p (flush p fuel timeout) code e)
  flush_or-Ends fuel timeout code most hi d e small enough within t =
      Ends-mono _ _ _ _ (or_error p (flush p fuel timeout) code e)
        (or_error-Ends p time c level pins (timeout * 10000 + 60000000) code (flush p fuel timeout)
          e
          (Ends-mono _ _ _ _ (flush p fuel timeout e)
            (flush-Ends p time c fuel timeout e small enough)
            (λ _ f (k, same).
              unchanged p time c level pins 0 (timeout * 10000 + 60000000)
                (record { after = omega arith; before = omega arith }) same)
            (λ f (k, same).
              unchanged p time c level pins 0 (timeout * 10000 + 60000000)
                (record { after = omega arith; before = omega arith }) same)))
        (λ _ f q. Talked-on p time c level pins t q (omega arith) (omega arith))
        (λ f r. (Rested-on p time c level pins t r (omega arith) (omega arith), r.status))

  -- The card is let go.
  pub rest-Ends :
      (most hi : ℕ) (d e : Device B)
      → most + 10000000 ≤ hi
      → Talked p time c level pins 0 most d e
      → Ends
          (λ _ f. Rested p time c level pins 0 hi d f × (f.sd.status ≡ e.sd.status))
          (λ _. ⊥)
          (write_cs p true e)
  rest-Ends most hi d e within t =
      Ends-mono _ _ _ _ (write_cs p true e) (cs_high-Ends p time c level pins e)
        (λ _ f (k, same, high). (
          record {
            talked =
                Talked-on p time c level pins t (unchanged p time c level pins 0 10000000 k same)
                  (omega arith) (omega arith);
            high = high;
          },
          ap (λ (x : Sd). x.status) same,
        ))
        (λ _ none. none)
