-- ===== src/Sd/Timed/Writes.antt =====
-- Blocks that are written, on a bus with a clock that goes on.
use fkfs.Base.{
  Bool, ℕ, ◌*◌, ◌%◌, ◌≤◌, ◌≡◌, ◌⊎◌, inl, inr, refl, ap, ◌∙◌, arith, true, length-take, not, ◌==◌,
  List, length, [], ◌∷◌, take, leb, bit_and,
}
use fkfs.Exec.Ends.{
  Ends, Ends-skip, Ends-gets, Ends-modify, Ends-mono, Ends-then, Ends-bind_sure, Ends-then_sure,
}
use fkfs.Sd.{Sd, Bus, Device}
use fkfs.Sd.Spi.{transfer, command, or_error}
use fkfs.Sd.Read.{address}
use fkfs.Sd.Write.{send_bytes, write_data, write_block}
use fkfs.Sd.Command
use fkfs.Sd.Error
use fkfs.Sd.Timed.{Clock, Pins, Took, transfer-Ends}
use fkfs.Sd.Timed.Talk.{Talked, Rested, command-Ends}
use fkfs.Sd.Timed.Faults.{
  Quiet, restatus, error_if-Ends, error_if_last-Ends, or_error-Ends, Talked-on, Rested-on,
}
use fkfs.Sd.Timed.Programming.{programmed-Ends}

module _ {B : Type 0} (p : Bus B) (time : B → ℕ) (c : Clock p time) (level : B → ℕ → Bool)
    (pins : Pins p level) where
  send_bytes-Ends :
      (bytes : List ℕ) (d : Device B)
      → Ends
          (λ _ e. Took time 0 (length bytes * 10000000) d e × (e.sd ≡ d.sd))
          (λ _. ⊥)
          (send_bytes p bytes d)
  unfolding send_bytes
  send_bytes-Ends [] d = (record { after = omega arith; before = omega arith }, refl)
  send_bytes-Ends (byte ∷ bytes) d =
      Ends-bind_sure _ _ _ (transfer p (byte % 256)) _ d (transfer-Ends p time c (byte % 256) d)
        λ _ e (k, same).
          Ends-mono _ _ _ _ (send_bytes p bytes e) (send_bytes-Ends bytes e)
            (λ _ f (j, is). (record { after = omega arith; before = omega arith }, is ∙ same))
            (λ f none. none)

  whole : (n : ℕ) → 512 ≤ n → leb 512 n ≡ true
  whole n h = ground arith

  write_data-Ends :
      (token : ℕ) (source : List ℕ) (d : Device B)
      → 512 ≤ length source
      → Ends
          (λ _ e. Quiet p time c level pins 0 6000000000 d e)
          (λ e. Quiet p time c level pins 0 6000000000 d e)
          (write_data p token source d)
  unfolding write_data
  write_data-Ends token source d enough =
      Ends-bind_sure _ _ _ (transfer p (token % 256)) _ d (transfer-Ends p time c (token % 256) d)
        λ _ e (k, is_e). rw (whole (length source) enough) (
          Ends-skip _ _ _ e (
            Ends-then_sure _ _ _ (send_bytes p (take 512 source)) _ e
              (send_bytes-Ends (take 512 source) e)
              λ f (l, is_f).
                Ends-bind_sure _ _ _ (transfer p 255) _ f (transfer-Ends p time c 255 f)
                  λ _ g (m, is_g).
                    Ends-bind_sure _ _ _ (transfer p 255) _ g (transfer-Ends p time c 255 g)
                      λ _ h (n, is_h).
                        Ends-bind_sure _ _ _ (transfer p 255) _ h (transfer-Ends p time c 255 h)
                          λ answer i (o, is_i). Ends-modify _ _ _ _ i (
                            let k' : Took time 0 5990000000 d i = record {
                              after = omega arith;
                              before = omega (arith, length-take 512 source);
                            } in
                            let q : Quiet p time c level pins 0 5990000000 d
                                (record i { sd = record i.sd { status = answer } }) =
                              record {
                                took = record { after = k'.after; before = k'.before };
                                same =
                                    ap (λ (x : Sd). record x { status = answer })
                                      (is_i ∙ is_h ∙ is_g ∙ is_f ∙ is_e);
                              } in
                            error_if_last-Ends p time c level pins _ _
                              (not
                                (bit_and answer Command.data_res_mask == Command.data_res_accepted))
                              Error.write (record i { sd = record i.sd { status = answer } })
                              (λ _. record {
                                took = record {
                                  after = omega (arith, q.took);
                                  before = omega (arith, q.took);
                                };
                                same = q.same;
                              })
                              (λ j r. record {
                                took = record {
                                  after = omega (arith, q.took, r.quiet.took);
                                  before = omega (arith, q.took, r.quiet.took);
                                };
                                same = restatus d.sd _ j.sd _ q.same r.quiet.same;
                              }))))

  -- A write that the driver has given up, with one of its four errors.
  pub record WriteRefused (most : ℕ) (d e : Device B) : Type 0 where
    pub rested : Rested p time c level pins 0 most d e
    pub status :
        (e.sd.status ≡ Error.cmd24)
        ⊎ (e.sd.status ≡ Error.general)
        ⊎ (e.sd.status ≡ Error.write_timeout)
        ⊎ (e.sd.status ≡ Error.write_programming)

  -- On a bus with a clock that goes on and pins that keep their levels, with fuel for 602 ms, the
  -- write of at least 512 bytes does not fault and its waits end, from any state and whatever the card
  -- answers. Where it succeeds the status is zero; where it fails it is one of four errors. In both
  -- cases no block is open, the card is not selected, and the pin, the card's type and a limit for the
  -- time are as stated.
  pub write_block-Ends :
      (fuel block : ℕ) (source : List ℕ) (d : Device B)
      → 6020000 ≤ fuel
      → 512 ≤ length source
      → Ends
          (λ _ e. Rested p time c level pins 0 24000000000 d e × (e.sd.status ≡ 0))
          (λ e. WriteRefused 24000000000 d e)
          (write_block p fuel block source d)
  unfolding write_block
  write_block-Ends fuel block source d enough long = Ends-gets _ _ _ _ d (
      Ends-bind_sure _ _ _ (command p fuel Command.cmd24 (address d.sd block)) _ d
        (command-Ends p time c level pins fuel Command.cmd24 _ d (omega arith))
        λ answer e (t, _).
          error_if-Ends p time c level pins _ _ (not (answer == 0)) Error.cmd24 _ e
            (λ accepted.
              Ends-then (λ _ f. Talked p time c level pins 0 13900000000 d f) _ _
                (or_error p (write_data p Command.data_start_block source) Error.general) _ e
                (Ends-mono _ _ _ _
                  (or_error p (write_data p Command.data_start_block source) Error.general e)
                  (or_error-Ends p time c level pins 6000000000 Error.general
                    (write_data p Command.data_start_block source) e
                    (write_data-Ends Command.data_start_block source e long))
                  (λ _ f q. Talked-on p time c level pins t q (omega arith) (omega arith))
                  (λ f r. record {
                    rested = Rested-on p time c level pins t r (omega arith) (omega arith);
                    status = inr (inl r.status);
                  }))
                λ f u.
                  programmed-Ends p time c level pins _ _ fuel d f (omega arith) u
                    (λ _ r is. (r, is))
                    (λ _ h. record { rested = h.rested; status = inr (inr h.status) }))
            (λ f r. record {
              rested = Rested-on p time c level pins t r (omega arith) (omega arith);
              status = inl r.status;
            }))
