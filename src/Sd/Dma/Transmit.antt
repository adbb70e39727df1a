-- ===== src/Sd/Dma/Transmit.antt =====
-- `sd_raw_dma_write_block` beside `sd_raw_write_block`.
use fkfs.Base.{
  ℕ, ◌<◌, ◌≡◌, ◌⊎◌, inl, inr, refl, subst, sym, ap, arith, Bool, true, false, not, ◌==◌, List,
  length, take_all, bit_and, leb,
}
use fkfs.Exec.{Exec, Result, ok, failed, fault, continue, ◌>>=◌, ◌>>◌}
use fkfs.Sd.{Bus, Device, type_sdhc}
use fkfs.Sd.Spi.{
  transfer, spi_write, spi_read, skip, set_status, command, error, error_if, or_error, flush,
  write_cs,
}
use fkfs.Sd.Read.{address}
use fkfs.Sd.Write.{write_block, send_bytes, write_data, status_error}
use fkfs.Sd.Dma.{Dma, SdDma, on_bus, await_job, dma_write_block}
use fkfs.Sd.Command
use fkfs.Sd.Error

-- A job of the channel has ended after at most `looks` looks. It has put on the bus the bytes that stand
-- in the memory of the channel, and the controller is behind the transaction as before.
pub record Transmits {B R E : Type 0} (p : Bus B) (dma : Dma B R E) (resource : R) (source : List ℕ)
    (looks : ℕ) : Type 0 where
  pub sends :
      (fuel : ℕ) (d : Device B)
      → looks < fuel
      → (e : Device B) × (await_job p dma fuel resource
            (record d { bus = dma.start_job resource (dma.begin_transaction d.bus) })
          ≡ (ok tt, e))
        × (send_bytes p source d ≡ (ok tt, record e { bus = dma.end_transaction e.bus }))

module _ {B : Type 0} (p : Bus B) where
  -- Two outcomes that are the same, or of which the second reports the general error over the first's,
  -- which is that the data was not accepted.
  abbrev pub Alike : Result (Unit {0}) × Device B → Result (Unit {0}) × Device B → Type 0
  Alike r r' =
      (r ≡ r')
      ⊎ ((e : Device B) × (r ≡ (failed, e))
          × (e.sd.status ≡ Error.write)
          × (r' ≡ error p Error.general e))

  continue-Alike :
      {A : Type 0} (r : Result A × Device B) (f g : A → Exec (Device B) (Unit {0}))
      → ((a : A) (s : Device B) → Alike (f a s) (g a s))
      → Alike (continue r.0 r.1 f) (continue r.0 r.1 g)
  continue-Alike (ok a, s) f g h = h a s
  continue-Alike (failed, s) f g h = inl refl
  continue-Alike (fault e, s) f g h = inl refl

  or_error-cong :
      (m m' : Exec (Device B) (Unit {0})) (code : ℕ) (rest : Exec (Device B) (Unit {0}))
      (s s' : Device B)
      → m s ≡ m' s'
      → (or_error p m code >> rest) s ≡ (or_error p m' code >> rest) s'
  unfolding or_error ◌>>=◌ ◌>>◌
  or_error-cong m m' code rest s s' e =
      ap
        (λ (r : Result (Unit {0}) × Device B).
          let x : Result (Unit {0}) × Device B =
            elim r.0 as (λ (y : Result (Unit {0})). Result (Unit {0}) × Device B) [
              | ok a ↦ (ok tt, r.1)
              | failed ↦ error p code r.1
              | fault b ↦ (fault b, r.1)
            ] in
          continue x.0 x.1 (λ _. rest))
        e

  -- The same rest behind a test of the answer, and behind one with the general error over it.
  judged-Alike :
      (refused : Bool) (rest : Exec (Device B) (Unit {0})) (s : Device B)
      → Alike
          ((error_if p refused Error.write >> rest) s)
          ((or_error p (error_if p refused Error.write) Error.general >> rest) s)
  unfolding error_if or_error ◌>>=◌ ◌>>◌ error write_cs
  judged-Alike true rest s = inr (_, refl, refl, refl)
  judged-Alike false rest s = inl refl

module _ {B R E : Type 0} (p : Bus B) (dma : Dma B R E) (sd_dma : SdDma R E) (source : List ℕ)
    (looks : ℕ) (law : Transmits p dma sd_dma.tx_resource source looks) where
  -- What both functions do with a card that has accepted the data.
  abbrev programmed : ℕ → Exec (Device B) (Unit {0})
  programmed fuel =
      or_error p (flush p fuel Command.write_timeout) Error.write_timeout
      >> (status_error p fuel >>= λ bad. error_if p bad Error.write_programming >> write_cs p true)

  abbrev by_job : ℕ → Exec (Device B) (Unit {0})
  by_job fuel = do
    _ ← spi_write p Command.data_start_block
    on_bus p dma dma.begin_transaction
    on_bus p dma (dma.start_job sd_dma.tx_resource)
    await_job p dma fuel sd_dma.tx_resource
    on_bus p dma dma.end_transaction
    skip p 2
    accepted ← spi_read p
    set_status accepted
    error_if p (not (bit_and accepted Command.data_res_mask == Command.data_res_accepted))
        Error.write
    programmed fuel

  abbrev by_bytes : ℕ → Exec (Device B) (Unit {0})
  by_bytes fuel = do
    or_error p (write_data p Command.data_start_block source) Error.general
    programmed fuel

  abbrev answer_of : Device B → Bool
  answer_of d = not (bit_and d.sd.status Command.data_res_mask == Command.data_res_accepted)

  abbrev token : Device B → Device B
  token s = record s { bus = (p.transfer Command.data_start_block s.bus).1 }

  -- The state behind the answer to the data.
  abbrev answered : Device B → Device B
  answered f =
      let b = (p.transfer 0xff (p.transfer 0xff f.bus).1).1 in
      record { sd = record f.sd { status = (p.transfer 0xff b).0 }; bus = (p.transfer 0xff b).1 }

  write_data-answered :
      (s f : Device B)
      → length source ≡ 512
      → send_bytes p source (token s) ≡ (ok tt, f)
      → write_data p Command.data_start_block source s
        ≡ error_if p (answer_of (answered f)) Error.write (answered f)
  unfolding write_data ◌>>=◌ ◌>>◌ transfer
  write_data-answered s f whole bytes =
      let fits : leb 512 (length source) ≡ true = ground (arith, whole) in
      rw (fits, take_all 512 source whole, bytes) refl

  by_job-answered :
      (fuel : ℕ) (s e : Device B)
      → await_job p dma fuel sd_dma.tx_resource (record (token s) {
        bus = dma.start_job sd_dma.tx_resource (dma.begin_transaction (token s).bus);
      })
        ≡ (ok tt, e)
      → by_job fuel s
        ≡ (error_if p
                (answer_of (answered (record e { bus = dma.end_transaction e.bus })))
                Error.write
              >> programmed fuel)
            (answered (record e { bus = dma.end_transaction e.bus }))
  unfolding ◌>>=◌ ◌>>◌ transfer skip
  by_job-answered fuel s e job = rw job refl

  data-Alike :
      (fuel : ℕ) (s : Device B)
      → looks < fuel
      → length source ≡ 512
      → Alike p (by_job fuel s) (by_bytes fuel s)
  data-Alike fuel s enough whole =
      let (e, job, bytes) = law.sends fuel (token s) enough in
      let f : Device B = record e { bus = dma.end_transaction e.bus } in
      subst (λ r. Alike p r (by_bytes fuel s)) (sym (by_job-answered fuel s e job))
        (subst
          (λ r.
            Alike p
              ((error_if p (answer_of (answered f)) Error.write >> programmed fuel) (answered f)) r)
          (sym (
            or_error-cong p _ _ Error.general (programmed fuel) s (answered f)
              (write_data-answered s f whole bytes)))
          (judged-Alike p (answer_of (answered f)) (programmed fuel) (answered f)))

  -- On a card of high capacity, where a job puts the block's bytes on the bus, the write of the block by
  -- DMA has the outcome of the write by bytes, but for data that the card does not accept: of these the
  -- first reports the write error, and the second the general error over it.
  pub dma_write_block-Alike :
      (fuel block : ℕ) (d : Device B)
      → looks < fuel
      → length source ≡ 512
      → d.sd.type ≡ type_sdhc
      → Alike p (dma_write_block p dma sd_dma fuel block d) (write_block p fuel block source d)
  unfolding dma_write_block write_block address ◌>>=◌ ◌>>◌
  dma_write_block-Alike fuel block d enough whole high_capacity =
      let place : address d.sd block ≡ block = ground (arith, high_capacity) in
      rw place (
        continue-Alike p (command p fuel Command.cmd24 block d) _ _ λ answer s.
          continue-Alike p (error_if p (not (answer == 0)) Error.cmd24 s) _ _
            λ _ s'. data-Alike fuel s' enough whole)
