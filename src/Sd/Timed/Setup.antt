-- ===== src/Sd/Timed/Setup.antt =====
-- The set-up of a card, on a bus with a clock that goes on.
use fkfs.Base.{
  Bool, ℕ, ◌+◌, ◌/◌, ◌%◌, ◌^◌, ◌≤◌, ◌≡◌, ◌⊎◌, inl, inr, sym, subst, ap, ◌∙◌, arith, false, true,
  ◌==◌, if◌then◌else◌,
}
use fkfs.Exec.{gets, ◌>>=◌, ◌>>◌}
use fkfs.Exec.Ends.{
  Ends, Ends-gets, Ends-modify, Ends-mono, Ends-then, Ends-bind_sure, Ends-then_sure,
}
use fkfs.Sd.{Sd, Bus, Device, type_sd1, type_sd2, type_sdhc}
use fkfs.Sd.Spi.{clock, skip, command, acommand, write_cs}
use fkfs.Sd.Init.{spi_configure, until_status, check_version, read_ocr, initialize}
use fkfs.Sd.Command
use fkfs.Sd.Error
use fkfs.Sd.Timed.{write_cs-Ends, Clock, Pins, clock-Ends, skip-Ends}
use fkfs.Sd.Timed.Talk.{cs_high-Ends, command-Ends, acommand-Ends}
use fkfs.Sd.Timed.Retries.{Going, Settled, until_status-Ends}
use fkfs.Sd.Timed.Version.{Known, check_version-Ends, read_ocr-Ends}

module _ {B : Type 0} (p : Bus B) (time : B → ℕ) (c : Clock p time) (level : B → ℕ → Bool)
    (pins : Pins p level) where
  -- A set-up that the driver has given up, with one of its four errors.
  pub record SetupRefused (pin : ℕ) (d : Device B) : Type 0 where
    pub settled : Settled p time c level pins pin d
    pub status :
        (d.sd.status ≡ Error.cmd0)
        ⊎ (d.sd.status ≡ Error.cmd8)
        ⊎ (d.sd.status ≡ Error.acmd41)
        ⊎ (d.sd.status ≡ Error.cmd58)

  abbrev Found : ℕ → Device B → Type 0
  Found pin d =
      Settled p time c level pins pin d
      × ((d.sd.type ≡ type_sd1) ⊎ (d.sd.type ≡ type_sd2) ⊎ (d.sd.type ≡ type_sdhc))

  -- The last two steps, for a card whose version is known.
  wake-Ends :
      (fuel start pin argument : ℕ) (d : Device B)
      → 20020000 ≤ fuel
      → Going p time c level pins start 50000000000 pin d
      → (d.sd.type ≡ type_sd1) ⊎ (d.sd.type ≡ type_sd2)
      → Ends
          (λ _ e. Found pin e)
          (λ e. SetupRefused pin e)
          ((until_status p
                (acommand p fuel Command.acmd41 argument)
                Command.r1_ready_state
                Error.acmd41
                (start / 10000 % 2 ^ 32)
                fuel
              >> (read_ocr p fuel >> write_cs p true))
            d)
  wake-Ends fuel start pin argument d enough g either =
      Ends-then
        (λ _ e. Going p time c level pins start 100000000000 pin e × (e.sd.type ≡ d.sd.type)) _ _
        (until_status p (acommand p fuel Command.acmd41 argument) Command.r1_ready_state
          Error.acmd41 (start / 10000 % 2 ^ 32) fuel)
        _ d
        (Ends-mono _ _ _ _
          (until_status p (acommand p fuel Command.acmd41 argument) Command.r1_ready_state
            Error.acmd41 (start / 10000 % 2 ^ 32) fuel d)
          (until_status-Ends p time c level pins _ Command.r1_ready_state Error.acmd41 start pin
            80000000000 100000000000 fuel d
            (λ e. acommand-Ends p time c level pins fuel Command.acmd41 argument e (omega arith))
            g.since (omega (arith, g.near)) (omega arith) (omega arith) (omega arith) g.cs
            (omega arith) (omega (arith, g.since)))
          (λ _ _ h. h) (λ e (s, is). record { settled = s; status = inr (inr (inl is)) }))
        λ e (h, same).
          Ends-then (λ _ f. Known p time c level pins start 110000000000 pin f) _ _
            (read_ocr p fuel) _ e
            (Ends-mono _ _ _ _ (read_ocr p fuel e)
              (read_ocr-Ends p time c level pins fuel start pin e (omega arith) h
                (subst (λ (n : ℕ). (n ≡ type_sd1) ⊎ (n ≡ type_sd2)) (sym same) either))
              (λ _ _ k. k) (λ f (s, is). record { settled = s; status = inr (inr (inr is)) }))
            λ f k.
              Ends-mono _ _ _ _ (write_cs p true f) (cs_high-Ends p time c level pins f)
                (λ _ z (j, is, high).
                  let at : z.sd.cs ≡ pin = ap (λ (x : Sd). x.cs) is ∙ k.going.cs in
                  (
                    record {
                      cs = at;
                      closed = ap (λ (x : Sd). x.in_block) is ∙ k.going.closed;
                      high = subst (λ (n : ℕ). level z.bus n ≡ true) at high;
                    },
                    subst (λ (n : ℕ). (n ≡ type_sd1) ⊎ (n ≡ type_sd2) ⊎ (n ≡ type_sdhc))
                        (sym (ap (λ (x : Sd). x.type) is)) k.type,
                  ))
                (λ _ none. absurd none)

  -- The set-up, from the first command on.
  wait-Ends :
      (fuel start pin : ℕ) (d : Device B)
      → 20020000 ≤ fuel
      → start ≤ time d.bus
      → time d.bus ≤ start + 10000000
      → d.sd.cs ≡ pin
      → Ends
          (λ _ e. Found pin e)
          (λ e. SetupRefused pin e)
          ((until_status p
                (command p fuel Command.cmd0 0)
                Command.r1_idle_state
                Error.cmd0
                (start / 10000 % 2 ^ 32)
                fuel
              >> (check_version p fuel
                  >> (gets (λ (d : Device B). d.sd.type) >>= λ type.
                      until_status p
                        (acommand p fuel Command.acmd41
                          (if type == type_sd2 then 0x40000000 else 0))
                        Command.r1_ready_state
                        Error.acmd41
                        (start / 10000 % 2 ^ 32)
                        fuel
                      >> (read_ocr p fuel >> write_cs p true))))
            d)
  wait-Ends fuel start pin d enough le near at =
      Ends-then (λ _ e. Going p time c level pins start 30000000000 pin e) _ _
        (until_status p (command p fuel Command.cmd0 0) Command.r1_idle_state Error.cmd0
          (start / 10000 % 2 ^ 32) fuel)
        _ d
        (Ends-mono _ _ _ _
          (until_status p (command p fuel Command.cmd0 0) Command.r1_idle_state Error.cmd0
            (start / 10000 % 2 ^ 32) fuel d)
          (until_status-Ends p time c level pins _ Command.r1_idle_state Error.cmd0 start pin
            100000000 30000000000 fuel d
            (λ e.
              Ends-mono _ _ _ _ (command p fuel Command.cmd0 0 e)
                (command-Ends p time c level pins fuel Command.cmd0 0 e (omega arith))
                (λ _ f (t, _). record {
                  took = record { after = t.took.after; before = omega (arith, t.took) };
                  pin = t.pin;
                  type = t.type;
                  closed = t.closed;
                })
                (λ _ none. none))
            le (omega arith) (omega arith) (omega arith) (omega arith) at (omega arith)
            (omega arith))
          (λ _ e (g, _). g) (λ e (s, is). record { settled = s; status = inl is }))
        λ e g.
          Ends-then
            (λ _ f.
              Going p time c level pins start 50000000000 pin f
              × ((f.sd.type ≡ type_sd1) ⊎ (f.sd.type ≡ type_sd2)))
            _ _ (check_version p fuel) _ e
            (Ends-mono _ _ _ _ (check_version p fuel e)
              (check_version-Ends p time c level pins fuel start pin e (omega arith) g) (λ _ _ h. h)
              (λ f (s, is). record { settled = s; status = inr (inl is) }))
            λ f (h, either). Ends-gets _ _ _ _ f (wake-Ends fuel start pin _ f enough h either)

  spi_configure-Ends : (d : Device B) → Ends (λ _ e. e.sd ≡ d.sd) (λ _. ⊥) (spi_configure p d)
  unfolding spi_configure
  spi_configure-Ends d = Ends-modify _ _ _ _ d (
      Ends-modify _ _ _ _ _
        (Ends-then_sure _ _ _ (skip p 10) _ _ (skip-Ends p time c 10 _) λ e (_, is). is))

  -- On a bus with a clock that goes on and pins that keep their levels, with fuel for 2002 ms, the
  -- set-up of a card does not fault and its waits end, from any state and whatever the card answers.
  -- Where it succeeds the card has one of the three types; where it fails the status is one of four
  -- errors. In both cases the pin is the one given, no block is open, and the card is not selected.
  pub initialize-Ends :
      (fuel pin : ℕ) (d : Device B)
      → 20020000 ≤ fuel
      → Ends
          (λ _ e.
            Settled p time c level pins pin e
            × ((e.sd.type ≡ type_sd1) ⊎ (e.sd.type ≡ type_sd2) ⊎ (e.sd.type ≡ type_sdhc)))
          (λ e. SetupRefused pin e)
          (initialize p fuel pin d)
  unfolding initialize
  initialize-Ends fuel pin d enough = Ends-modify _ _ _ _ d (
      Ends-then_sure _ _ _ (write_cs p true) _ _ (cs_high-Ends p time c level pins _)
        λ e (_, is_e, _).
          Ends-then_sure _ _ _ (spi_configure p) _ e (spi_configure-Ends e) λ f is_f.
            Ends-then_sure _ _ _ (write_cs p false) _ f (write_cs-Ends p time c false f)
              λ g (_, is_g).
                Ends-bind_sure _ _ _ (clock p) _ g (clock-Ends p time c g)
                  λ now h (k, is_h, is_now).
                    subst
                      (λ (t : ℕ).
                        Ends (λ _ e. Found pin e) (λ e. SetupRefused pin e)
                          ((until_status p (command p fuel Command.cmd0 0) Command.r1_idle_state
                                Error.cmd0 t fuel
                              >> (check_version p fuel
                                  >> (gets (λ (d : Device B). d.sd.type) >>= λ type.
                                      until_status p
                                        (acommand p fuel Command.acmd41
                                          (if type == type_sd2 then 0x40000000 else 0))
                                        Command.r1_ready_state Error.acmd41 t fuel
                                      >> (read_ocr p fuel >> write_cs p true))))
                            h))
                      (sym is_now)
                      (wait-Ends fuel (time g.bus) pin h enough (omega arith) (omega arith)
                        (ap (λ (x : Sd). x.cs) (is_h ∙ is_g ∙ is_f ∙ is_e))))
