-- ===== src/Sd/Timed/Retries.antt =====
-- Commands that are repeated till a card is ready, on a bus with a clock that goes on.
use fkfs.Base.{
  Bool, ℕ, zero, suc, ◌+◌, ◌-◌, ◌/◌, ◌%◌, ◌^◌, ◌≤◌, ◌<◌, ◌≡◌, subst, ap, ◌∙◌, arith, false, true,
  ◌==◌, ltb, ltb→le,
}
use fkfs.Exec.{Exec}
use fkfs.Exec.Ends.{Ends, Ends-modify, Ends-mono, Ends-cases, Ends-bind_sure}
use fkfs.Fs.{sub32}
use fkfs.Sd.{Sd, Bus, Device}
use fkfs.Sd.Spi.{clock, error}
use fkfs.Sd.Init.{until_status}
use fkfs.Sd.Command
use fkfs.Sd.Timed.{Clock, Pins, Took, elapsed, clock-Ends}
use fkfs.Sd.Timed.Talk.{Talked}
use fkfs.Sd.Timed.Faults.{Reported, error-Ends}

module _ {B : Type 0} (p : Bus B) (time : B → ℕ) (c : Clock p time) (level : B → ℕ → Bool)
    (pins : Pins p level) where
  -- A set-up that started at the time `start` goes on; no block is open.
  pub record Going (start limit pin : ℕ) (d : Device B) : Type 0 where
    pub since : start ≤ time d.bus
    pub near : time d.bus ≤ start + limit
    pub cs : d.sd.cs ≡ pin
    pub closed : d.sd.in_block ≡ false

  -- A set-up that has ended: the card is not selected.
  pub record Settled (pin : ℕ) (d : Device B) : Type 0 where
    pub cs : d.sd.cs ≡ pin
    pub closed : d.sd.in_block ≡ false
    pub high : level d.bus pin ≡ true

  pub halted :
      {start limit pin code most : ℕ} {d e : Device B}
      → Going start limit pin d
      → Reported p time c level pins code most d e
      → Settled pin e
  halted {pin = pin} {e = e} g r =
      let at : e.sd.cs ≡ pin = ap (λ (x : Sd). x.cs) r.quiet.same ∙ g.cs in
      record {
        cs = at;
        closed = ap (λ (x : Sd). x.in_block) r.quiet.same ∙ g.closed;
        high = subst (λ (n : ℕ). level e.bus n ≡ true) at r.high;
      }

  pub until_status-Ends :
      (attempt : Exec (Device B) ℕ) (wanted code start pin most limit fuel : ℕ) (d : Device B)
      → ((e : Device B)
          → Ends (λ _ f. Talked p time c level pins 1 15800000000 e f) (λ _. ⊥) (attempt e))
      → start ≤ time d.bus
      → time d.bus ≤ start + most
      → 100000000 ≤ most
      → most + 15800000000 ≤ limit
      → limit ≤ 100000000000
      → d.sd.cs ≡ pin
      → 0 < fuel
      → start + 20010000 < time d.bus + fuel
      → Ends
          (λ _ e. Going start limit pin e × (e.sd.type ≡ d.sd.type))
          (λ e. Settled pin e × (e.sd.status ≡ code % 256))
          (until_status p attempt wanted code (start / 10000 % 2 ^ 32) fuel d)
  unfolding until_status
  until_status-Ends attempt wanted code start pin most limit zero d goes le near lo mid hi at some
        enough =
      absurd (omega arith)
  until_status-Ends attempt wanted code start pin most limit (suc fuel) d goes le near lo mid hi at
        some enough =
      Ends-bind_sure _ _ _ attempt _ d (goes d) λ status e t. Ends-modify _ _ _ _ e (
        let g : Going start limit pin (record e { sd = record e.sd { status = status } }) = record {
          since = omega (arith, t.took);
          near = omega (arith, t.took);
          cs = t.pin ∙ at;
          closed = t.closed;
        } in
        Ends-cases _ _ (status == wanted) _ _ (record e { sd = record e.sd { status = status } })
          (λ done. (g, t.type))
          (λ more.
            Ends-bind_sure _ _ _ (clock p) _ (record e { sd = record e.sd { status = status } })
              (clock-Ends p time c _)
              λ now f (j, still, is_now).
                let difference : sub32 now (start / 10000 % 2 ^ 32)
                    ≡ time e.bus / 10000 - start / 10000 =
                  ap (λ (t : ℕ). sub32 t (start / 10000 % 2 ^ 32)) is_now
                  ∙ elapsed start (time e.bus) (omega (arith, t.took)) (omega (arith, t.took)) in
                let g' : Going start 110000000000 pin f = record {
                  since = omega (arith, g.since, j);
                  near = omega (arith, g.near, j);
                  cs = ap (λ (x : Sd). x.cs) still ∙ g.cs;
                  closed = ap (λ (x : Sd). x.in_block) still ∙ g.closed;
                } in
                Ends-cases _ _ (ltb Command.init_timeout (sub32 now (start / 10000 % 2 ^ 32))) _ _ f
                  (λ late.
                    Ends-mono _ _ _ _ (error p code f)
                      (error-Ends p time c level pins (λ (_ : Unit {0}) _. ⊥) code f)
                      (λ _ _ none. absurd none) (λ h r. (halted g' r, r.status)))
                  (λ early.
                    let soon : sub32 now (start / 10000 % 2 ^ 32) ≤ 2000 = ltb→le _ _ early in
                    Ends-mono _ _ _ _
                      (until_status p attempt wanted code (start / 10000 % 2 ^ 32) fuel f)
                      (until_status-Ends attempt wanted code start pin most limit fuel f goes
                        g'.since (omega (arith, j)) lo mid hi g'.cs (omega (arith, t.took))
                        (omega (arith, t.took, j)))
                      (λ _ h (k, is). (k, is ∙ ap (λ (x : Sd). x.type) still ∙ t.type))
                      (λ h k. k))))

  -- What a step of the set-up adds to the time, when it leaves the pin and the block as they are.
  pub go_on :
      {start limit least most limit' pin : ℕ} {d e : Device B}
      → Going start limit pin d
      → Talked p time c level pins least most d e
      → limit + most ≤ limit'
      → Going start limit' pin e
  go_on g t h = record {
    since = omega (arith, g.since, t.took);
    near = omega (arith, g.near, t.took);
    cs = t.pin ∙ g.cs;
    closed = t.closed;
  }

  pub keep_on :
      {start limit least most limit' pin : ℕ} {d e : Device B}
      → Going start limit pin d
      → Took time least most d e
      → (e.sd.cs ≡ d.sd.cs)
      → (e.sd.in_block ≡ d.sd.in_block)
      → limit + most ≤ limit'
      → Going start limit' pin e
  keep_on g k cs closed h = record {
    since = omega (arith, g.since, k);
    near = omega (arith, g.near, k);
    cs = cs ∙ g.cs;
    closed = closed ∙ g.closed;
  }
