-- ===== src/Sd/Timed/Erases.antt =====
-- Registers that are looked at, and blocks that are erased, on a bus with a clock that goes on.
use fkfs.Base.{Bool, ℕ, ◌+◌, ◌≤◌, ◌≡◌, ◌⊎◌, inl, inr, arith, true, ◌==◌, List, length}
use fkfs.Exec.{Result, ok, failed, fault}
use fkfs.Exec.Ends.{Ends, Ends-gets, Ends-mono, Ends-cases, Ends-then, Ends-bind_sure}
use fkfs.Sd.{Bus, Device}
use fkfs.Sd.Spi.{command, flush, write_cs, or_error}
use fkfs.Sd.Read.{address, read_register}
use fkfs.Sd.Csd.{with_csd, erase_single_block_enabled, erase_refused, erase, erase_blk_en}
use fkfs.Sd.Command
use fkfs.Sd.Error
use fkfs.Sd.Timed.{Clock, Pins}
use fkfs.Sd.Timed.Talk.{Talked, Rested, command-Ends}
use fkfs.Sd.Timed.Faults.{error_if-Ends, Rested-on}
use fkfs.Sd.Timed.Rest.{Talked-twice, Talked-within, Rested-within, flush_or-Ends, rest-Ends}
use fkfs.Sd.Timed.Reads.{read_register-Ends}

module _ {B : Type 0} (p : Bus B) (time : B → ℕ) (c : Clock p time) (level : B → ℕ → Bool)
    (pins : Pins p level) where
  -- What a register that cannot be read leaves is at rest, too.
  with_csd-Ends :
      (fuel : ℕ) (d : Device B)
      → 3020000 ≤ fuel
      → Ends
          (λ (_ : ℕ) e. Talked p time c level pins 0 9000000000 d e)
          (λ _. ⊥)
          (with_csd p fuel 0 (λ csd s. (ok (erase_blk_en csd), s)) d)
  unfolding with_csd
  with_csd-Ends fuel d enough =
      from_result d (read_register p fuel Command.cmd9 d)
        (read_register-Ends p time c level pins fuel Command.cmd9 d enough)
    where
      from_result :
          (d : Device B) (r : Result (List ℕ) × Device B)
          → Ends
              (λ bytes e. Rested p time c level pins 0 9000000000 d e × (length bytes ≡ 16))
              (λ e. Rested p time c level pins 0 8000000000 d e)
              r
          → Ends
              (λ (_ : ℕ) e. Talked p time c level pins 0 9000000000 d e)
              (λ _. ⊥)
              (let (x, d') = r in
                elim x [
                  | ok csd ↦ (ok (erase_blk_en csd), d')
                  | failed ↦ (ok 0, d')
                  | fault e ↦ (fault e, d')
                ])
      from_result d (ok bytes, e) (h, _) = h.talked
      from_result d (failed, e) h = Talked-within p time c level pins h.talked (omega arith)
      from_result d (fault x, e) h = absurd h

  -- One more command, after others.
  next-Ends :
      (fuel number argument most hi : ℕ) (d e : Device B)
      → 3020000 ≤ fuel
      → most + 7900000000 ≤ hi
      → Talked p time c level pins 0 most d e
      → Ends
          (λ _ f. Talked p time c level pins 0 hi d f)
          (λ _. ⊥)
          (command p fuel number argument e)
  next-Ends fuel number argument most hi d e enough h t =
      Ends-mono _ _ _ _ (command p fuel number argument e)
        (command-Ends p time c level pins fuel number argument e enough)
        (λ _ f (u, _). Talked-twice p time c level pins t u h) (λ _ none. none)

  erase_refused-Ends :
      (fuel first last : ℕ) (d e : Device B)
      → 3020000 ≤ fuel
      → Talked p time c level pins 0 9000000000 d e
      → Ends
          (λ _ f. Talked p time c level pins 0 33000000000 d f)
          (λ _. ⊥)
          (erase_refused p fuel first last e)
  unfolding erase_refused
  erase_refused-Ends fuel first last d e enough t =
      Ends-bind_sure _ _ _ (command p fuel Command.cmd32 first) _ e
        (next-Ends fuel Command.cmd32 first 9000000000 17000000000 d e enough (omega arith) t)
        λ start f u.
          Ends-cases _ _ (start == 0) _ _ f
            (λ started.
              Ends-bind_sure _ _ _ (command p fuel Command.cmd33 last) _ f
                (next-Ends fuel Command.cmd33 last 17000000000 25000000000 d f enough (omega arith)
                  u)
                λ end g v.
                  Ends-cases _ _ (end == 0) _ _ g
                    (λ ended.
                      Ends-bind_sure _ _ _ (command p fuel Command.cmd38 0) _ g
                        (next-Ends fuel Command.cmd38 0 25000000000 33000000000 d g enough
                          (omega arith) v)
                        λ answer h w. w)
                    (λ no_end. Talked-within p time c level pins v (omega arith)))
            (λ no_start. Talked-within p time c level pins u (omega arith))

  -- An erasure that the driver has given up, with one of its three errors.
  pub record EraseRefused (most : ℕ) (d e : Device B) : Type 0 where
    pub rested : Rested p time c level pins 0 most d e
    pub status :
        (e.sd.status ≡ Error.erase_single_block)
        ⊎ (e.sd.status ≡ Error.erase)
        ⊎ (e.sd.status ≡ Error.erase_timeout)

  -- On a bus with a clock that goes on and pins that keep their levels, with fuel for 10002 ms, an
  -- erasure does not fault and its waits end, from any state and whatever the card answers. Where it
  -- fails the status is one of three errors. In both cases no block is open, the card is not
  -- selected, and the pin, the card's type and a limit for the time are as stated.
  pub erase-Ends :
      (fuel first_block last_block : ℕ) (d : Device B)
      → 100020000 ≤ fuel
      → Ends
          (λ _ e. Rested p time c level pins 0 40000000000 d e)
          (λ e. EraseRefused 40000000000 d e)
          (erase p fuel first_block last_block d)
  unfolding erase erase_single_block_enabled
  erase-Ends fuel first_block last_block d enough =
      Ends-bind_sure _ _ _ (erase_single_block_enabled p fuel) _ d
        (with_csd-Ends fuel d (omega arith))
        λ enabled e t.
          error_if-Ends p time c level pins _ _ (enabled == 0) Error.erase_single_block _ e
            (λ may. Ends-gets _ _ _ _ e (
              Ends-bind_sure _ _ _
                (erase_refused p fuel (address e.sd first_block) (address e.sd last_block)) _ e
                (erase_refused-Ends fuel _ _ d e (omega arith) t)
                λ refused f u.
                  error_if-Ends p time c level pins _ _ refused Error.erase _ f
                    (λ taken.
                      Ends-then (λ _ g. Talked p time c level pins 0 34000000000 d g) _ _
                        (or_error p (flush p fuel Command.erase_timeout) Error.erase_timeout) _ f
                        (Ends-mono _ _ _ _
                          (or_error p (flush p fuel Command.erase_timeout) Error.erase_timeout f)
                          (flush_or-Ends p time c level pins fuel 10000 Error.erase_timeout
                            33000000000 34000000000 d f (omega arith) (omega arith) (omega arith) u)
                          (λ _ _ v. v)
                          (λ g (r, is). record {
                            rested = Rested-within p time c level pins r (omega arith);
                            status = inr (inr is);
                          }))
                        λ g v.
                          Ends-mono _ _ _ _ (write_cs p true g)
                            (rest-Ends p time c level pins 34000000000 40000000000 d g (omega arith)
                              v)
                            (λ _ _ (r, _). r) (λ _ none. absurd none))
                    (λ g r. record {
                      rested = Rested-on p time c level pins u r (omega arith) (omega arith);
                      status = inr (inl r.status);
                    })))
            (λ f r. record {
              rested = Rested-on p time c level pins t r (omega arith) (omega arith);
              status = inl r.status;
            })
