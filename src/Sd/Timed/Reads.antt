-- ===== src/Sd/Timed/Reads.antt =====
-- Blocks and registers that are read, on a bus with a clock that goes on.
use fkfs.Base.{
  Bool, ℕ, zero, suc, ◌+◌, ◌-◌, ◌*◌, ◌%◌, ◌^◌, ◌≤◌, ◌≡◌, ◌⊎◌, inl, inr, true, false, refl, ap, ◌∙◌,
  arith, max, not, ltb, ◌==◌, ◌||◌, length,
}
use fkfs.Exec.{ok, gets, modify, ◌>>=◌, ◌>>◌}
use fkfs.Exec.Ends.{
  Ends, Ends-skip, Ends-gets, Ends-modify, Ends-mono, Ends-choose, Ends-then, Ends-bind_sure,
  Ends-then_sure,
}
use fkfs.Sd.{Sd, Bus, Device}
use fkfs.Sd.Spi.{write_cs, transfer, skip, command, read_end, error_if, or_error}
use fkfs.Sd.Read.{
  read_register, address, wait_start_block, read_bytes, open_block, read_data, read_block,
}
use fkfs.Sd.Command
use fkfs.Sd.Error
use fkfs.Sd.Timed.{Clock, Pins, Took, transfer-Ends, skip-Ends}
use fkfs.Sd.Timed.Talk.{cs_high-Ends, Talked, Rested, read_end_open-Ends, command-Ends}
use fkfs.Sd.Timed.Faults.{
  error_if-Ends, or_error-Ends, wait_start_block-Ends, unchanged, Talked-on, Rested-on,
}

module _ {B : Type 0} (p : Bus B) (time : B → ℕ) (c : Clock p time) (level : B → ℕ → Bool)
    (pins : Pins p level) where
  read_bytes-Ends :
      (n : ℕ) (d : Device B)
      → Ends
          (λ bytes e. Took time 0 (n * 10000000) d e × (e.sd ≡ d.sd) × (length bytes ≡ n))
          (λ _. ⊥)
          (read_bytes p n d)
  unfolding read_bytes
  read_bytes-Ends zero d = (record { after = omega arith; before = omega arith }, refl, refl)
  read_bytes-Ends (suc n) d =
      Ends-bind_sure _ _ _ (transfer p 255) _ d (transfer-Ends p time c 255 d) λ byte e (k, same).
        Ends-bind_sure _ _ _ (read_bytes p n) _ e (read_bytes-Ends n e) λ bytes f (j, is, len).
          (record { after = omega arith; before = omega arith }, is ∙ same, omega (arith, len))

  -- The card delivers a block.
  record Opened (most : ℕ) (d e : Device B) : Type 0 where
    took : Took time 0 most d e
    pin : e.sd.cs ≡ d.sd.cs
    type : e.sd.type ≡ d.sd.type
    is_open : e.sd.in_block ≡ true

  -- A read that the driver has given up, with one of its two errors.
  pub record ReadRefused (most : ℕ) (d e : Device B) : Type 0 where
    pub rested : Rested p time c level pins 0 most d e
    pub status : (e.sd.status ≡ Error.cmd17) ⊎ (e.sd.status ≡ Error.general)

  -- The wait for the first byte, after the answer to a command.
  pub token-Ends :
      (fuel : ℕ) (d e : Device B)
      → 3020000 ≤ fuel
      → Talked p time c level pins 1 7900000000 d e
      → Ends
          (λ _ f. Talked p time c level pins 1 7990000000 d f)
          (λ f. Rested p time c level pins 0 8000000000 d f × (f.sd.status ≡ Error.general))
          (or_error p (wait_start_block p fuel) Error.general e)
  token-Ends fuel d e enough t =
      Ends-mono _ _ _ _ (or_error p (wait_start_block p fuel) Error.general e)
        (or_error-Ends p time c level pins 90000000 Error.general (wait_start_block p fuel) e
          (wait_start_block-Ends p time c level pins fuel e enough))
        (λ _ f q. Talked-on p time c level pins t q (omega arith) (omega arith))
        (λ f r. (Rested-on p time c level pins t r (omega arith) (omega arith), r.status))

  ask_block-Ends :
      (fuel argument block : ℕ) (d : Device B)
      → 3020000 ≤ fuel
      → Ends
          (λ _ e. Opened 8000000000 d e)
          (λ e. ReadRefused 8000000000 d e)
          ((command p fuel Command.cmd17 argument >>= λ answer.
              error_if p (not (answer == 0)) Error.cmd17
              >> (or_error p (wait_start_block p fuel) Error.general >> (λ (d' : Device B).
                  (ok tt, record d' { sd = record d'.sd { offset = 0; in_block = true } }))))
            (record d { sd = record d.sd { block = block } }))
  ask_block-Ends fuel argument block d enough =
      Ends-bind_sure _ _ _ (command p fuel Command.cmd17 argument) _
        (record d { sd = record d.sd { block = block } })
        (command-Ends p time c level pins fuel Command.cmd17 argument _ enough)
        λ answer e (u, _).
          let t : Talked p time c level pins 1 7900000000 d e = record {
            took = record { after = u.took.after; before = u.took.before };
            pin = u.pin;
            type = u.type;
            closed = u.closed;
          } in
          error_if-Ends p time c level pins _ _ (not (answer == 0)) Error.cmd17 _ e
            (λ accepted.
              Ends-then (λ _ f. Talked p time c level pins 1 7990000000 d f) _ _
                (or_error p (wait_start_block p fuel) Error.general) _ e
                (Ends-mono _ _ _ _ (or_error p (wait_start_block p fuel) Error.general e)
                  (token-Ends fuel d e enough t) (λ _ f u. u)
                  (λ f (r, is). record { rested = r; status = inr is }))
                λ f t'. record {
                  took = record { after = omega arith; before = omega arith };
                  pin = t'.pin;
                  type = t'.type;
                  is_open = refl;
                })
            (λ f r. record {
              rested = Rested-on p time c level pins t r (omega arith) (omega arith);
              status = inl r.status;
            })

  already : (b r s : Bool) → (not b || r || s) ≡ false → b ≡ true
  already b r s h = ground (arith, h)

  open_block-Ends :
      (fuel block offset : ℕ) (d : Device B)
      → 3020000 ≤ fuel
      → Ends
          (λ _ e. Opened 8000000000 d e)
          (λ e. ReadRefused 8000000000 d e)
          (open_block p fuel block offset d)
  unfolding open_block
  open_block-Ends fuel block offset d enough =
      Ends-choose _ _ (not d.sd.in_block || not (block == d.sd.block) || ltb offset d.sd.offset) _ _
        (λ anew. Ends-modify _ _ _ _ d (
          Ends-gets _ _ _ _ (record d { sd = record d.sd { block = block } })
            (ask_block-Ends fuel (address (record d.sd { block = block }) block) block d enough)))
        (λ again. record {
          took = record { after = omega arith; before = omega arith };
          pin = refl;
          type = refl;
          is_open =
              already d.sd.in_block (not (block == d.sd.block)) (ltb offset d.sd.offset) again;
        })

  -- What follows when the card delivers the block.
  deliver-Ends :
      (E : Device B → Type 0) (size offset : ℕ) (d e : Device B)
      → size + offset ≤ 512
      → Opened 8000000000 d e
      → Ends
          (λ bytes f. Rested p time c level pins 0 24000000000 d f × (length bytes ≡ size))
          E
          ((gets (λ (d : Device B). d.sd.offset) >>= λ at.
              skip p (offset - at)
              >> (read_bytes p size >>= λ bytes.
                  modify (λ (d : Device B). record d {
                    sd = record d.sd { offset = (max offset at + size) % 2 ^ 16 };
                  })
                  >> (read_end p >> (λ (f : Device B). (ok bytes, f)))))
            e)
  deliver-Ends E size offset d e some o = Ends-gets _ _ _ _ e (
      Ends-then_sure _ _ _ (skip p (offset - e.sd.offset)) _ e
        (skip-Ends p time c (offset - e.sd.offset) e)
        λ f (j, is_f).
          Ends-bind_sure _ _ _ (read_bytes p size) _ f (read_bytes-Ends size f)
            λ bytes g (k, is_g, len). Ends-modify _ _ _ _ g (
              Ends-then_sure _ _ _ (read_end p) _ _
                (read_end_open-Ends p time c level pins _
                  (ap (λ (x : Sd). x.in_block) (is_g ∙ is_f) ∙ o.is_open))
                λ h r. (
                  record {
                    talked = record {
                      took = record {
                        after = omega (arith, r.talked.took);
                        before = omega (arith, r.talked.took);
                      };
                      pin = r.talked.pin ∙ ap (λ (x : Sd). x.cs) (is_g ∙ is_f) ∙ o.pin;
                      type = r.talked.type ∙ ap (λ (x : Sd). x.type) (is_g ∙ is_f) ∙ o.type;
                      closed = r.talked.closed;
                    };
                    high = r.high;
                  },
                  len,
                )))

  -- On a bus with a clock that goes on and pins that keep their levels, with fuel for 302 ms, the read
  -- of a block does not fault and its waits end, from any state and whatever the card answers. Where
  -- it succeeds it delivers 512 bytes; where it fails the status is one of two errors. In both cases
  -- no block is open, the card is not selected, and the pin, the card's type and a limit for the time
  -- are as stated.
  pub read_block-Ends :
      (fuel block : ℕ) (d : Device B)
      → 3020000 ≤ fuel
      → Ends
          (λ bytes e. Rested p time c level pins 0 24000000000 d e × (length bytes ≡ 512))
          (λ e. ReadRefused 8000000000 d e)
          (read_block p fuel block d)
  unfolding read_block read_data error_if
  read_block-Ends fuel block d enough = Ends-skip _ _ _ d (
      Ends-then (λ _ e. Opened 8000000000 d e) _ _ (open_block p fuel block 0) _ d
        (open_block-Ends fuel block 0 d enough) λ e o. deliver-Ends _ 512 0 d e (omega arith) o)

  -- A register is read, or refused.
  pub read_register-Ends :
      (fuel number : ℕ) (d : Device B)
      → 3020000 ≤ fuel
      → Ends
          (λ bytes e. Rested p time c level pins 0 9000000000 d e × (length bytes ≡ 16))
          (λ e. Rested p time c level pins 0 8000000000 d e)
          (read_register p fuel number d)
  unfolding read_register
  read_register-Ends fuel number d enough =
      Ends-bind_sure _ _ _ (command p fuel number 0) _ d
        (command-Ends p time c level pins fuel number 0 d enough)
        λ answer e (t, _).
          error_if-Ends p time c level pins _ _ (not (answer == 0)) Error.read_reg _ e
            (λ accepted.
              Ends-then (λ _ f. Talked p time c level pins 1 7990000000 d f) _ _
                (or_error p (wait_start_block p fuel) Error.general) _ e
                (Ends-mono _ _ _ _ (or_error p (wait_start_block p fuel) Error.general e)
                  (token-Ends fuel d e enough t) (λ _ f u. u) (λ f (r, _). r))
                λ f u.
                  Ends-bind_sure _ _ _ (read_bytes p 16) _ f (read_bytes-Ends 16 f)
                    λ bytes g (k, is_g, len).
                      Ends-then_sure _ _ _ (skip p 2) _ g (skip-Ends p time c 2 g) λ h (l, is_h).
                        Ends-then_sure _ _ _ (write_cs p true) _ h
                          (cs_high-Ends p time c level pins h)
                          λ i (m, is_i, high). (
                            record {
                              talked =
                                  Talked-on p time c level pins u
                                    (unchanged p time c level pins 0 190000000
                                      (record { after = omega arith; before = omega arith })
                                      (is_i ∙ is_h ∙ is_g))
                                    (omega arith) (omega arith);
                              high = high;
                            },
                            len,
                          ))
            (λ f r. Rested-on p time c level pins t r (omega arith) (omega arith))
