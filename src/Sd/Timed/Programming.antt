-- ===== src/Sd/Timed/Programming.antt =====
-- The end of a write, in which the card programs the block, on a bus with a clock that goes on.
use fkfs.Base.{Bool, ℕ, ◌≤◌, ◌≡◌, ◌⊎◌, inl, inr, ap, ◌∙◌, arith, false, true, ◌==◌, ==_iff}
use fkfs.Exec.{◌>>=◌, ◌>>◌}
use fkfs.Exec.Ends.{Ends, Ends-mono, Ends-cases, Ends-then, Ends-bind_sure}
use fkfs.Sd.{Sd, Bus, Device}
use fkfs.Sd.Spi.{transfer, command, flush, write_cs, error_if, or_error}
use fkfs.Sd.Write.{status_error}
use fkfs.Sd.Command
use fkfs.Sd.Error
use fkfs.Sd.Timed.{Clock, Pins, transfer-Ends}
use fkfs.Sd.Timed.Talk.{Talked, Rested, command-Ends}
use fkfs.Sd.Timed.Rest.{Talked-twice, Rested-within, flush_or-Ends, rest-Ends}
use fkfs.Sd.Timed.Faults.{unchanged, error_if-Ends, Talked-on, Rested-on}

module _ {B : Type 0} (p : Bus B) (time : B → ℕ) (c : Clock p time) (level : B → ℕ → Bool)
    (pins : Pins p level) where
  -- Whether the card has an error. If it has none, the status is zero.
  status_error-Ends :
      (fuel : ℕ) (d : Device B)
      → 3020000 ≤ fuel
      → Ends
          (λ bad e. Talked p time c level pins 1 8000000000 d e × (bad ≡ false → e.sd.status ≡ 0))
          (λ _. ⊥)
          (status_error p fuel d)
  unfolding status_error
  status_error-Ends fuel d enough =
      Ends-bind_sure _ _ _ (command p fuel Command.cmd13 0) _ d
        (command-Ends p time c level pins fuel Command.cmd13 0 d enough)
        λ answer e (t, is).
          Ends-cases _ _ (answer == 0) _ _ e
            (λ zero_answer.
              Ends-bind_sure _ _ _ (transfer p 255) _ e (transfer-Ends p time c 255 e)
                λ byte f (k, same). (
                  Talked-on p time c level pins t (unchanged p time c level pins 1 10000000 k same)
                      (omega arith) (omega arith),
                  λ _. ap (λ (x : Sd). x.status) same ∙ is ∙ (==_iff answer 0).0 zero_answer,
                ))
            (λ refused. (
              record {
                took = record { after = omega arith; before = omega arith };
                pin = t.pin;
                type = t.type;
                closed = t.closed;
              },
              λ h. absurd (ground (arith, h)),
            ))

  -- A block that the card has not programmed, with one of two errors.
  pub record Unprogrammed (most : ℕ) (d e : Device B) : Type 0 where
    pub rested : Rested p time c level pins 0 most d e
    pub status : (e.sd.status ≡ Error.write_timeout) ⊎ (e.sd.status ≡ Error.write_programming)

  -- The wait for the card to program the block, and what it says then.
  pub programmed-Ends :
      (Q E : Device B → Type 0) (fuel : ℕ) (d e : Device B)
      → 6020000 ≤ fuel
      → Talked p time c level pins 0 13900000000 d e
      → ((f : Device B) → Rested p time c level pins 0 24000000000 d f → f.sd.status ≡ 0 → Q f)
      → ((f : Device B) → Unprogrammed 24000000000 d f → E f)
      → Ends
          (λ _ f. Q f)
          E
          ((or_error p (flush p fuel Command.write_timeout) Error.write_timeout
              >> (status_error p fuel >>= λ bad.
                  error_if p bad Error.write_programming >> write_cs p true))
            e)
  programmed-Ends Q E fuel d e enough t finish report =
      Ends-then (λ _ f. Talked p time c level pins 0 14000000000 d f) _ _
        (or_error p (flush p fuel Command.write_timeout) Error.write_timeout) _ e
        (Ends-mono _ _ _ _ (or_error p (flush p fuel Command.write_timeout) Error.write_timeout e)
          (flush_or-Ends p time c level pins fuel 600 Error.write_timeout 13900000000 14000000000 d
            e (omega arith) (omega arith) (omega arith) t)
          (λ _ _ u. u)
          (λ f (r, is). report f (record {
            rested = Rested-within p time c level pins r (omega arith);
            status = inl is;
          })))
        λ f u.
          Ends-bind_sure _ _ _ (status_error p fuel) _ f (status_error-Ends fuel f (omega arith))
            λ bad g (v, clean).
              let w : Talked p time c level pins 0 22000000000 d g =
                Talked-twice p time c level pins u v (omega arith) in
              error_if-Ends p time c level pins _ _ bad Error.write_programming _ g
                (λ none.
                  Ends-mono _ _ _ _ (write_cs p true g)
                    (rest-Ends p time c level pins 22000000000 24000000000 d g (omega arith) w)
                    (λ _ h (r, is). finish h r (is ∙ clean none))
                    (λ _ no_failure. absurd no_failure))
                (λ h r. report h (record {
                  rested = Rested-on p time c level pins w r (omega arith) (omega arith);
                  status = inr r.status;
                }))
