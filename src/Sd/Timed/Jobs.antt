-- ===== src/Sd/Timed/Jobs.antt =====
-- Blocks that are moved by DMA, on a bus with a clock that goes on and a controller whose jobs end.
use fkfs.Base.{
  Bool, ℕ, zero, suc, ◌≤◌, ◌<◌, ◌≡◌, ◌⊎◌, inl, inr, refl, ap, ◌∙◌, arith, false, true, not, ◌==◌,
  bit_and,
}
use fkfs.Exec.{◌>>=◌, ◌>>◌}
use fkfs.Exec.Ends.{
  Ends, Ends-modify, Ends-mono, Ends-choose, Ends-then, Ends-bind_sure, Ends-then_sure,
}
use fkfs.Sd.{Sd, Bus, Device}
use fkfs.Sd.Spi.{transfer, skip, command, write_cs, error_if, or_error, flush}
use fkfs.Sd.Read.{wait_start_block}
use fkfs.Sd.Write.{status_error}
use fkfs.Sd.Dma.{Dma, SdDma, await_job, dma_write_block, dma_read_block}
use fkfs.Sd.Command
use fkfs.Sd.Error
use fkfs.Sd.Timed.{Clock, Pins, transfer-Ends, skip-Ends}
use fkfs.Sd.Timed.Talk.{Talked, Rested, command-Ends}
use fkfs.Sd.Timed.Rest.{rest-Ends}
use fkfs.Sd.Timed.Faults.{error_if-Ends, Rested-on}
use fkfs.Sd.Timed.Reads.{token-Ends}
use fkfs.Sd.Timed.Programming.{programmed-Ends}

-- What is left of a job, of which there are at most `limit` looks: it gets less as long as the
-- controller is busy.
pub record Jobs {B R E : Type 0} (dma : Dma B R E) (left : R → B → ℕ) (limit : ℕ) : Type 0 where
  pub started : (r : R) (b : B) → left r (dma.start_job r b) ≤ limit
  pub goes_on : (r : R) (b : B) → (dma.is_busy r b).0 ≡ true → left r (dma.is_busy r b).1 < left r b

module _ {B R E : Type 0} (p : Bus B) (dma : Dma B R E) (left : R → B → ℕ) (limit : ℕ)
    (jobs : Jobs dma left limit) where
  await_job-Ends :
      (fuel : ℕ) (r : R) (d : Device B)
      → left r d.bus < fuel
      → Ends (λ _ e. e.sd ≡ d.sd) (λ _. ⊥) (await_job p dma fuel r d)
  unfolding await_job
  await_job-Ends zero r d enough = absurd (omega arith)
  await_job-Ends (suc fuel) r d enough =
      Ends-choose _ _ (dma.is_busy r d.bus).0 _ _
        (λ busy.
          await_job-Ends fuel r (record d { bus = (dma.is_busy r d.bus).1 })
            (omega (arith, jobs.goes_on r d.bus busy)))
        (λ idle. refl)

module _ {B R E : Type 0} (p : Bus B) (time : B → ℕ) (c : Clock p time) (level : B → ℕ → Bool)
    (pins : Pins p level) (dma : Dma B R E) (left : R → B → ℕ) (limit : ℕ)
    (jobs : Jobs dma left limit) where
  -- Behind an operation: no block is open, and the card is not selected.
  pub record Released (d e : Device B) : Type 0 where
    pub pin : e.sd.cs ≡ d.sd.cs
    pub type : e.sd.type ≡ d.sd.type
    pub closed : e.sd.in_block ≡ false
    pub high : level e.bus e.sd.cs ≡ true

  from_Rested : {most : ℕ} {d e : Device B} → Rested p time c level pins 0 most d e → Released d e
  from_Rested r = record {
    pin = r.talked.pin;
    type = r.talked.type;
    closed = r.talked.closed;
    high = r.high;
  }

  -- A state that differs from one behind a command by the status at most, and what rests from there on.
  released :
      {most most' : ℕ} {d e f g : Device B} (status : ℕ)
      → Talked p time c level pins 1 most d e
      → f.sd ≡ record e.sd { status = status }
      → Rested p time c level pins 0 most' f g
      → Released d g
  released status t is r = record {
    pin = r.talked.pin ∙ ap (λ (x : Sd). x.cs) is ∙ t.pin;
    type = r.talked.type ∙ ap (λ (x : Sd). x.type) is ∙ t.type;
    closed = r.talked.closed;
    high = r.high;
  }

  still : (d : Device B) (most : ℕ) → d.sd.in_block ≡ false → Talked p time c level pins 0 most d d
  still d most shut = record {
    took = record { after = omega arith; before = omega arith };
    pin = refl;
    type = refl;
    closed = shut;
  }

  -- What follows the answer to the data.
  answered-Ends :
      (fuel byte : ℕ) (d e i : Device B)
      → 6020000 ≤ fuel
      → Talked p time c level pins 1 7900000000 d e
      → i.sd ≡ record e.sd { status = byte }
      → Ends
          (λ _ e. Released d e × (e.sd.status ≡ 0))
          (λ e.
            Released d e
            × ((e.sd.status ≡ Error.cmd24)
                ⊎ (e.sd.status ≡ Error.write)
                ⊎ (e.sd.status ≡ Error.write_timeout)
                ⊎ (e.sd.status ≡ Error.write_programming)))
          ((error_if p
                (not (bit_and byte Command.data_res_mask == Command.data_res_accepted))
                Error.write
              >> (or_error p (flush p fuel Command.write_timeout) Error.write_timeout
                  >> (status_error p fuel >>= λ bad.
                      error_if p bad Error.write_programming >> write_cs p true)))
            i)
  answered-Ends fuel byte d e i enough t is =
      error_if-Ends p time c level pins _ _
        (not (bit_and byte Command.data_res_mask == Command.data_res_accepted)) Error.write _ i
        (λ accepted.
          programmed-Ends p time c level pins _ _ fuel i i enough
            (still i 13900000000 (ap (λ (x : Sd). x.in_block) is ∙ t.closed))
            (λ f r zero_status. (released byte t is r, zero_status))
            (λ f u. (released byte t is u.rested, inr (inr u.status))))
        (λ f r. (
          released byte t is (
              Rested-on p time c level pins {lo = 0} {hi = 10000000}
                (still i 0 (ap (λ (x : Sd). x.in_block) is ∙ t.closed)) r (omega arith)
                (omega arith)),
          inr (inl r.status),
        ))

  -- On a bus with a clock that goes on and pins that keep their levels, with fuel for 602 ms and for a
  -- job of the controller, the write of a block by DMA does not fault and its waits end, whatever the
  -- card answers. Where it succeeds the status is zero; where it fails it is one of four errors. In
  -- both cases no block is open, the card is not selected, and the pin and the type are as before.
  pub dma_write_block-Ends :
      (sd_dma : SdDma R E) (fuel block : ℕ) (d : Device B)
      → 6020000 ≤ fuel
      → limit < fuel
      → Ends
          (λ _ e. Released d e × (e.sd.status ≡ 0))
          (λ e.
            Released d e
            × ((e.sd.status ≡ Error.cmd24)
                ⊎ (e.sd.status ≡ Error.write)
                ⊎ (e.sd.status ≡ Error.write_timeout)
                ⊎ (e.sd.status ≡ Error.write_programming)))
          (dma_write_block p dma sd_dma fuel block d)
  unfolding dma_write_block
  dma_write_block-Ends sd_dma fuel block d enough more =
      Ends-bind_sure _ _ _ (command p fuel Command.cmd24 block) _ d
        (command-Ends p time c level pins fuel Command.cmd24 block d (omega arith))
        λ answer e (t, _).
          error_if-Ends p time c level pins _ _ (not (answer == 0)) Error.cmd24 _ e
            (λ accepted.
              Ends-bind_sure _ _ _ (transfer p 0xfe) _ e (transfer-Ends p time c 0xfe e)
                λ _ f (_, is_f). Ends-modify _ _ _ _ f (
                  Ends-modify _ _ _ _ _ (
                    Ends-then_sure _ _ _ (await_job p dma fuel sd_dma.tx_resource) _ _
                      (await_job-Ends p dma left limit jobs fuel sd_dma.tx_resource _ (
                        omega
                          (arith, jobs.started sd_dma.tx_resource (dma.begin_transaction f.bus))))
                      λ g is_g. Ends-modify _ _ _ _ g (
                        Ends-then_sure _ _ _ (skip p 2) _ _ (skip-Ends p time c 2 _) λ h (_, is_h).
                          Ends-bind_sure _ _ _ (transfer p 255) _ h (transfer-Ends p time c 255 h)
                            λ byte i (_, is_i). Ends-modify _ _ _ _ i (
                              answered-Ends fuel byte d e
                                (record i { sd = record i.sd { status = byte } }) enough t
                                (ap (λ (x : Sd). record x { status = byte })
                                  (is_i ∙ is_h ∙ is_g ∙ is_f)))))))
            (λ f r. (
              from_Rested (
                  Rested-on p time c level pins {lo = 0} {hi = 8000000000} t r (omega arith)
                    (omega arith)),
              inl r.status,
            ))

  -- On a bus with a clock that goes on and pins that keep their levels, with fuel for 302 ms and for a
  -- job of the controller, the read of a block by DMA does not fault and its waits end, whatever the
  -- card answers. Where it fails the status is one of two errors. In both cases no block is open, the
  -- card is not selected, and the pin and the type are as before.
  pub dma_read_block-Ends :
      (sd_dma : SdDma R E) (fuel block : ℕ) (d : Device B)
      → 3020000 ≤ fuel
      → limit < fuel
      → Ends
          (λ _ e. Released d e)
          (λ e. Released d e × ((e.sd.status ≡ Error.cmd17) ⊎ (e.sd.status ≡ Error.general)))
          (dma_read_block p dma sd_dma fuel block d)
  unfolding dma_read_block
  dma_read_block-Ends sd_dma fuel block d enough more =
      Ends-bind_sure _ _ _ (command p fuel Command.cmd17 block) _ d
        (command-Ends p time c level pins fuel Command.cmd17 block d enough)
        λ answer e (t, _).
          error_if-Ends p time c level pins _ _ (not (answer == 0)) Error.cmd17 _ e
            (λ accepted.
              Ends-then (λ _ f. Talked p time c level pins 1 7990000000 d f) _ _
                (or_error p (wait_start_block p fuel) Error.general) _ e
                (Ends-mono _ _ _ _ (or_error p (wait_start_block p fuel) Error.general e)
                  (token-Ends p time c level pins fuel d e enough t) (λ _ _ u. u)
                  (λ f (r, is). (from_Rested r, inr is)))
                λ f u. Ends-modify _ _ _ _ f (
                  Ends-modify _ _ _ _ _ (
                    Ends-modify _ _ _ _ _ (
                      Ends-then_sure _ _ _ (await_job p dma fuel sd_dma.tx_resource) _ _
                        (await_job-Ends p dma left limit jobs fuel sd_dma.tx_resource _ (
                          omega (
                            arith,
                            jobs.started sd_dma.tx_resource
                                (dma.start_job sd_dma.rx_resource (dma.begin_transaction f.bus)),
                          )))
                        λ g is_g. Ends-modify _ _ _ _ g (
                          Ends-mono _ _ _ _
                            (write_cs p true (record g { bus = dma.end_transaction g.bus }))
                            (rest-Ends p time c level pins 0 10000000 _ _ (omega arith)
                              (still _ 0 (ap (λ (x : Sd). x.in_block) is_g ∙ u.closed)))
                            (λ _ h (r, _). released f.sd.status u is_g r)
                            (λ _ none. absurd none))))))
            (λ f r. (
              from_Rested (
                  Rested-on p time c level pins {lo = 0} {hi = 8000000000} t r (omega arith)
                    (omega arith)),
              inl r.status,
            ))
