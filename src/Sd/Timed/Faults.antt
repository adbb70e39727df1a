-- ===== src/Sd/Timed/Faults.antt =====
-- Errors that the driver reports, and the wait for a block's first byte.
use fkfs.Base.{
  ltb→le, Bool, ℕ, zero, suc, ◌+◌, ◌-◌, ◌/◌, ◌%◌, ◌^◌, ◌≤◌, ◌<◌, ◌≡◌, true, false, refl, sym, subst,
  ap, ◌∙◌, arith, not, ltb, ◌==◌,
}
use fkfs.Exec.{Exec, Result, ok, failed, fault, ◌>>=◌, ◌>>◌}
use fkfs.Exec.Ends.{Ends, Ends-modify, Ends-mono, Ends-cases, Ends-bind_sure, Ends-then_sure}
use fkfs.Fs.{sub32}
use fkfs.Sd.{Sd, Bus, Device}
use fkfs.Sd.Spi.{transfer, clock, write_cs, error, error_if, or_error}
use fkfs.Sd.Read.{await_token, wait_start_block}
use fkfs.Sd.Error
use fkfs.Sd.Timed.{Clock, Pins, Took, elapsed, transfer-Ends, clock-Ends}
use fkfs.Sd.Timed.Talk.{Talked, Rested, cs_high-Ends}

-- A struct with another status, after one with another status.
pub restatus :
    (x y z : Sd) (s : ℕ)
    → y ≡ record x { status = y.status }
    → z ≡ record y { status = s }
    → z ≡ record x { status = z.status }
restatus x y z s h k =
    k
    ∙ ap (λ (t : Sd). record t { status = s }) h
    ∙ ap (λ (t : ℕ). record x { status = t }) (sym (ap (λ (t : Sd). t.status) k))

module _ {B : Type 0} (p : Bus B) (time : B → ℕ) (c : Clock p time) (level : B → ℕ → Bool)
    (pins : Pins p level) where
  -- Of the driver's struct, at most the status is another.
  pub record Quiet (least most : ℕ) (d e : Device B) : Type 0 where
    pub took : Took time least most d e
    pub same : e.sd ≡ record d.sd { status = e.sd.status }

  pub unchanged :
      (least most : ℕ) {d e : Device B}
      → Took time least most d e
      → e.sd ≡ d.sd
      → Quiet least most d e
  unchanged least most {d = d} {e = e} k is = record {
    took = k;
    same = restatus d.sd d.sd e.sd d.sd.status refl is;
  }

  -- The card is not selected, and the status tells the error.
  pub record Reported (code most : ℕ) (d e : Device B) : Type 0 where
    pub quiet : Quiet 0 most d e
    pub high : level e.bus e.sd.cs ≡ true
    pub status : e.sd.status ≡ code % 256

  pub error-Ends :
      {A : Type 0} (Q : A → Device B → Type 0) (code : ℕ) (d : Device B)
      → Ends Q (λ e. Reported code 10000000 d e) (error p code d)
  unfolding error
  error-Ends Q code d =
      Ends-then_sure _ _ _ (write_cs p true) _ d (cs_high-Ends p time c level pins d)
        λ e (k, same, high). Ends-modify _ _ _ _ e (record {
          quiet = record {
            took = record { after = omega arith; before = omega arith };
            same = ap (λ (x : Sd). record x { status = code % 256 }) same;
          };
          high = high;
          status = refl;
        })

  -- A test that may report an error, in front of the rest.
  pub error_if-Ends :
      {A : Type 0} (Q : A → Device B → Type 0) (E : Device B → Type 0) (b : Bool) (code : ℕ)
      (k : Exec (Device B) A) (d : Device B)
      → (b ≡ false → Ends Q E (k d))
      → ((e : Device B) → Reported code 10000000 d e → E e)
      → Ends Q E ((error_if p b code >> k) d)
  unfolding error_if ◌>>◌ ◌>>=◌ write_cs
  error_if-Ends Q E true code k d h report =
      report _ (error-Ends (λ (_ : Unit {0}) _. Unit {0}) code d)
  error_if-Ends Q E false code k d h report = h refl

  -- An error of the whole, in the place of the one that the part has reported.
  pub or_error-Ends :
      (most code : ℕ) (m : Exec (Device B) (Unit {0})) (d : Device B)
      → Ends (λ _ e. Quiet 0 most d e) (λ e. Quiet 0 most d e) (m d)
      → Ends
          (λ _ e. Quiet 0 most d e)
          (λ e. Reported code (most + 10000000) d e)
          (or_error p m code d)
  unfolding or_error
  or_error-Ends most code m d h = from_result (m d) h
    where
      from_result :
          (r : Result (Unit {0}) × Device B)
          → Ends (λ _ e. Quiet 0 most d e) (λ e. Quiet 0 most d e) r
          → Ends
              (λ (_ : Unit {0}) e. Quiet 0 most d e)
              (λ e. Reported code (most + 10000000) d e)
              (or_error p (λ _. r) code d)
      from_result (ok a, e) h = h
      from_result (failed, e) h =
          Ends-mono _ _ _ _ (error p code e)
            (error-Ends (λ (_ : Unit {0}) e. Quiet 0 most d e) code e) (λ _ _ q. q)
            (λ f r. record {
              quiet = record {
                took = record { after = omega (arith, h.took.after); before = omega arith };
                same = r.quiet.same ∙ ap (λ (x : Sd). record x { status = f.sd.status }) h.same;
              };
              high = r.high;
              status = r.status;
            })
      from_result (fault x, e) h = h

  -- The rest of an operation that has talked to the card, within a limit for all of it.
  pub Talked-on :
      {least most least' most' lo hi : ℕ} {d e f : Device B}
      → Talked p time c level pins least most d e
      → Quiet least' most' e f
      → lo ≤ least + least'
      → most + most' ≤ hi
      → Talked p time c level pins lo hi d f
  Talked-on t q l h = record {
    took = record { after = omega (arith, t.took, q.took); before = omega (arith, t.took, q.took) };
    pin = ap (λ (x : Sd). x.cs) q.same ∙ t.pin;
    type = ap (λ (x : Sd). x.type) q.same ∙ t.type;
    closed = ap (λ (x : Sd). x.in_block) q.same ∙ t.closed;
  }

  pub Rested-on :
      {least most most' code lo hi : ℕ} {d e f : Device B}
      → Talked p time c level pins least most d e
      → Reported code most' e f
      → lo ≤ least
      → most + most' ≤ hi
      → Rested p time c level pins lo hi d f
  Rested-on t r l h = record { talked = Talked-on t r.quiet (omega arith) h; high = r.high }

  pub error_if_last-Ends :
      (Q : Unit {0} → Device B → Type 0) (E : Device B → Type 0) (b : Bool) (code : ℕ)
      (d : Device B)
      → (b ≡ false → Q tt d)
      → ((e : Device B) → Reported code 10000000 d e → E e)
      → Ends Q E (error_if p b code d)
  unfolding error_if write_cs ◌>>◌ ◌>>=◌
  error_if_last-Ends Q E true code d h report =
      report _ (error-Ends (λ (_ : Unit {0}) _. Unit {0}) code d)
  error_if_last-Ends Q E false code d h report = h refl

  -- A wait that started at the time `start`.
  record Waited (start : ℕ) (d e : Device B) : Type 0 where
    later : time d.bus < time e.bus
    near : time e.bus ≤ start + 90000000
    same : e.sd ≡ record d.sd { status = e.sd.status }

  await_token-Ends :
      (fuel start : ℕ) (d : Device B)
      → start ≤ time d.bus
      → time d.bus ≤ start + 60000000
      → 0 < fuel
      → start + 3010000 < time d.bus + fuel
      → Ends
          (λ _ e. Waited start d e)
          (λ e. Waited start d e)
          (await_token p fuel (start / 10000 % 2 ^ 32) d)
  unfolding await_token
  await_token-Ends zero start d le near some enough = absurd (omega arith)
  await_token-Ends (suc fuel) start d le near some enough =
      Ends-bind_sure _ _ _ (transfer p 255) _ d (transfer-Ends p time c 255 d) λ byte e (k, same).
        Ends-modify _ _ _ _ e (
          Ends-cases _ _ (byte == 0xff) _ _ (record e { sd = record e.sd { status = byte } })
            (λ busy.
              Ends-bind_sure _ _ _ (clock p) _ (record e { sd = record e.sd { status = byte } })
                (clock-Ends p time c _)
                λ now f (j, still, is_now).
                  let difference : sub32 now (start / 10000 % 2 ^ 32)
                      ≡ time e.bus / 10000 - start / 10000 =
                    ap (λ (t : ℕ). sub32 t (start / 10000 % 2 ^ 32)) is_now
                    ∙ elapsed start (time e.bus) (omega arith) (omega arith) in
                  let here : f.sd ≡ record d.sd { status = f.sd.status } =
                    restatus d.sd (record e.sd { status = byte }) f.sd byte
                      (ap (λ (x : Sd). record x { status = byte }) same) still in
                  Ends-cases _ _ (ltb 300 (sub32 now (start / 10000 % 2 ^ 32))) _ _ f
                    (λ late.
                      Ends-mono _ _ _ _ (error p Error.read_timeout f)
                        (error-Ends (λ (_ : Unit {0}) _. ⊥) Error.read_timeout f)
                        (λ _ _ none. absurd none)
                        (λ g r. record {
                          later = omega (arith, r.quiet.took.after);
                          near = omega (arith, r.quiet.took.before);
                          same = restatus d.sd f.sd g.sd _ here r.quiet.same;
                        }))
                    (λ early.
                      let soon : sub32 now (start / 10000 % 2 ^ 32) ≤ 300 = ltb→le _ _ early in
                      Ends-mono _ _ _ _ (await_token p fuel (start / 10000 % 2 ^ 32) f)
                        (await_token-Ends fuel start f (omega arith) (omega arith) (omega arith)
                          (omega arith))
                        (λ _ g w. record {
                          later = omega (arith, w.later);
                          near = w.near;
                          same = restatus d.sd f.sd g.sd _ here w.same;
                        })
                        (λ g w. record {
                          later = omega (arith, w.later);
                          near = w.near;
                          same = restatus d.sd f.sd g.sd _ here w.same;
                        })))
            (λ token.
              error_if_last-Ends _ _ (not (byte == 0xFE)) Error.read
                (record e { sd = record e.sd { status = byte } })
                (λ _. record {
                  later = omega arith;
                  near = omega arith;
                  same = ap (λ (x : Sd). record x { status = byte }) same;
                })
                (λ g r. record {
                  later = omega (arith, r.quiet.took.after);
                  near = omega (arith, r.quiet.took.before);
                  same =
                      restatus d.sd (record e.sd { status = byte }) g.sd _
                        (ap (λ (x : Sd). record x { status = byte }) same) r.quiet.same;
                })))

  -- The wait for the first byte of a block ends, whether the byte comes or not.
  pub wait_start_block-Ends :
      (fuel : ℕ) (d : Device B)
      → 3020000 ≤ fuel
      → Ends (λ _ e. Quiet 0 90000000 d e) (λ e. Quiet 0 90000000 d e) (wait_start_block p fuel d)
  unfolding wait_start_block
  wait_start_block-Ends fuel d enough =
      Ends-bind_sure _ _ _ (clock p) _ d (clock-Ends p time c d) λ now e (k, same, is_now).
        subst
          (λ (t : ℕ).
            Ends (λ _ f. Quiet 0 90000000 d f) (λ f. Quiet 0 90000000 d f) (await_token p fuel t e))
          (sym is_now)
          (Ends-mono _ _ _ _ (await_token p fuel (time d.bus / 10000 % 2 ^ 32) e)
            (await_token-Ends fuel (time d.bus) e (omega arith) (omega arith) (omega arith)
              (omega arith))
            (λ _ f w. waited e f same k w) (λ f w. waited e f same k w))
    where
      waited :
          (e f : Device B)
          → e.sd ≡ d.sd
          → Took time 0 10000000 d e
          → Waited (time d.bus) e f
          → Quiet 0 90000000 d f
      waited e f same k w = record {
        took = record { after = omega (arith, w.later); before = omega (arith, w.near) };
        same = w.same ∙ ap (λ (x : Sd). record x { status = f.sd.status }) same;
      }
