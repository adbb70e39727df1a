-- ===== src/Sd/Timed/Talk.antt =====
-- Commands to a card, on a bus with a clock that goes on.
use fkfs.Base.{
  Bool, ℕ, zero, suc, ◌+◌, ◌-◌, ◌*◌, ◌/◌, ◌%◌, ◌^◌, ◌≤◌, ◌≡◌, Bool-cases, inl, inr, true, false,
  refl, ap, ◌∙◌, arith, max, bit_or,
}
use fkfs.Exec.{Exec, Result, ok, failed, fault, modify, ◌>>=◌, ◌>>◌}
use fkfs.Exec.Ends.{Ends, Ends-modify, Ends-mono, Ends-cases, Ends-bind_sure, Ends-then_sure}
use fkfs.Sd.{Sd, Bus, Device, ignore, has_bits}
use fkfs.Sd.Spi.{
  transfer, write_cs, skip, flush, read_end, send_argument, await_answer, command, acommand,
  command_crc, cs_high,
}
use fkfs.Sd.Timed.{Clock, Pins, Took, transfer-Ends, skip-Ends, write_cs-Ends, flush-Ends}

module _ {B : Type 0} (p : Bus B) (time : B → ℕ) (c : Clock p time) (level : B → ℕ → Bool)
    (pins : Pins p level) where
  -- Behind an exchange with the card: the pin and the type are as before, and no block is open.
  pub record Talked (least most : ℕ) (d e : Device B) : Type 0 where
    pub took : Took time least most d e
    pub pin : e.sd.cs ≡ d.sd.cs
    pub type : e.sd.type ≡ d.sd.type
    pub closed : e.sd.in_block ≡ false

  read_end_open :
      (d : Device B)
      → d.sd.in_block ≡ true
      → read_end p d
        ≡ (skip p (514 - d.sd.offset)
              >> (modify (λ (d' : Device B). record d' {
                sd = record d'.sd { offset = (max d.sd.offset 514 + 1) % 2 ^ 16 };
              })
                  >> (cs_high p
                      >> modify
                          (λ (d : Device B). record d { sd = record d.sd { in_block = false } }))))
            d
  unfolding read_end ◌>>=◌
  read_end_open d e = ground (arith, e)

  read_end_closed : (d : Device B) → d.sd.in_block ≡ false → read_end p d ≡ (ok tt, d)
  unfolding read_end
  read_end_closed d e = ground (arith, e)

  -- Behind an operation the card is not selected, either.
  pub record Rested (least most : ℕ) (d e : Device B) : Type 0 where
    pub talked : Talked least most d e
    pub high : level e.bus e.sd.cs ≡ true

  pub cs_high-Ends :
      (d : Device B)
      → Ends
          (λ _ e. Took time 0 10000000 d e × (e.sd ≡ d.sd) × (level e.bus e.sd.cs ≡ true))
          (λ _. ⊥)
          (write_cs p true d)
  unfolding write_cs
  cs_high-Ends d = (
    record {
      after = omega (arith, c.write_after d.sd.cs true d.bus);
      before = c.write_before d.sd.cs true d.bus;
    },
    refl,
    pins.write_self d.sd.cs true d.bus,
  )

  pub read_end_open-Ends :
      (d : Device B)
      → d.sd.in_block ≡ true
      → Ends (λ _ e. Rested 0 5150000000 d e) (λ _. ⊥) (read_end p d)
  read_end_open-Ends d is_open = rw (read_end_open d is_open) (
      Ends-then_sure _ _ _ (skip p (514 - d.sd.offset)) _ d
        (skip-Ends p time c (514 - d.sd.offset) d)
        λ e (k, same). Ends-modify _ _ _ _ e (
          Ends-then_sure _ _ _ (write_cs p true) _ _ (cs_high-Ends _) λ f (j, is, high). record {
            talked = record {
              took = record { after = omega arith; before = omega arith };
              pin = ap (λ (x : Sd). x.cs) (is) ∙ ap (λ (x : Sd). x.cs) same;
              type = ap (λ (x : Sd). x.type) (is) ∙ ap (λ (x : Sd). x.type) same;
              closed = refl;
            };
            high = high;
          }))

  pub read_end-Ends : (d : Device B) → Ends (λ _ e. Talked 0 5150000000 d e) (λ _. ⊥) (read_end p d)
  read_end-Ends d = elim (Bool-cases d.sd.in_block) [
    | inr shut ↦ rw (read_end_closed d shut) (record {
      took = record { after = omega arith; before = omega arith };
      pin = refl;
      type = refl;
      closed = shut;
    })
    | inl is_open ↦
        Ends-mono _ _ _ _ (read_end p d) (read_end_open-Ends d is_open) (λ _ e r. r.talked)
          (λ e no_failure. no_failure)
  ]

  pub await_answer-Ends :
      (n : ℕ) (d : Device B)
      → Ends
          (λ a e.
            Took time 1 ((n + 1) * 10000000) d e
            × (e.sd ≡ record d.sd { status = e.sd.status })
            × (e.sd.status ≡ a))
          (λ _. ⊥)
          (await_answer p n d)
  unfolding await_answer
  await_answer-Ends zero d =
      Ends-bind_sure _ _ _ (transfer p 255) _ d (transfer-Ends p time c 255 d) λ byte e (k, same).
        Ends-modify
          (λ a e.
            Took time 1 10000000 d e
            × (e.sd ≡ record d.sd { status = e.sd.status })
            × (e.sd.status ≡ a))
          (λ _. ⊥) _ _ e
          (
            record { after = omega arith; before = omega arith },
            ap (λ (x : Sd). record x { status = byte }) same,
            refl,
          )
  await_answer-Ends (suc n) d =
      Ends-bind_sure _ _ _ (transfer p 255) _ d (transfer-Ends p time c 255 d) λ byte e (k, same).
        Ends-modify _ _ _ _ e (
          Ends-cases _ _ (has_bits byte 0x80) _ _ (record e { sd = record e.sd { status = byte } })
            (λ busy.
              Ends-mono _ _ _ _ (await_answer p n (record e { sd = record e.sd { status = byte } }))
                (await_answer-Ends n (record e { sd = record e.sd { status = byte } }))
                (λ _ f (j, is, answer). (
                  record { after = omega arith; before = omega arith },
                  is ∙ ap (λ (x : Sd). record x { status = f.sd.status }) same,
                  answer,
                ))
                (λ f no_failure. no_failure))
            (λ done. (
              record { after = omega arith; before = omega arith },
              ap (λ (x : Sd). record x { status = byte }) same,
              refl,
            )))

  send_argument-Ends :
      (argument : ℕ) (d : Device B)
      → Ends (λ _ e. Took time 4 40000000 d e × (e.sd ≡ d.sd)) (λ _. ⊥) (send_argument p argument d)
  unfolding send_argument
  send_argument-Ends argument d =
      Ends-bind_sure _ _ _ (transfer p (argument / 2 ^ 24 % 256)) _ d (transfer-Ends p time c _ d)
        λ _ e (j, is_e).
          Ends-bind_sure _ _ _ (transfer p (argument / 2 ^ 16 % 256)) _ e
            (transfer-Ends p time c _ e)
            λ _ f (k, is_f).
              Ends-bind_sure _ _ _ (transfer p (argument / 2 ^ 8 % 256)) _ f
                (transfer-Ends p time c _ f)
                λ _ g (l, is_g).
                  Ends-bind_sure _ _ _ (transfer p (argument % 256)) _ g
                    (transfer-Ends p time c _ g)
                    λ _ h (m, is_h). (
                      record { after = omega arith; before = omega arith },
                      is_h ∙ is_g ∙ is_f ∙ is_e,
                    )

  pub ignore-Ends :
      {A : Type 0} (Q : Device B → Type 0) (m : Exec (Device B) A) (d : Device B)
      → Ends (λ _ e. Q e) (λ e. Q e) (m d)
      → Ends (λ _ e. Q e) (λ _. ⊥) (ignore m d)
  unfolding ignore
  ignore-Ends Q m d h = from_result (m d) h
    where
      from_result :
          {A : Type 0} (r : Result A × Device B)
          → Ends (λ _ e. Q e) (λ e. Q e) r
          → Ends (λ (_ : Unit {0}) e. Q e) (λ _. ⊥) (ignore (λ _. r) d)
      from_result (ok a, e) h = h
      from_result (failed, e) h = h
      from_result (fault x, e) h = h

  -- A command always gets an answer, be it an error: it ends in a second for each byte.
  pub command-Ends :
      (fuel number argument : ℕ) (d : Device B)
      → 3020000 ≤ fuel
      → Ends
          (λ a e. Talked 1 7900000000 d e × (e.sd.status ≡ a))
          (λ _. ⊥)
          (command p fuel number argument d)
  unfolding command
  command-Ends fuel number argument d enough =
      Ends-then_sure _ _ _ (read_end p) _ d (read_end-Ends d) λ e t.
        Ends-then_sure _ _ _ (write_cs p false) _ e (write_cs-Ends p time c false e) λ f (j, is_f).
          Ends-then_sure _ _ _ (ignore (flush p fuel 300)) _ f
            (ignore-Ends (λ g. Took time 1 63000000 f g × (g.sd ≡ f.sd)) (flush p fuel 300) f
              (flush-Ends p time c fuel 300 f (omega arith) (omega arith)))
            λ g (k, is_g).
              Ends-bind_sure _ _ _ (transfer p (bit_or number 0x40 % 256)) _ g
                (transfer-Ends p time c _ g)
                λ _ h (l, is_h).
                  Ends-then_sure _ _ _ (send_argument p argument) _ h
                    (send_argument-Ends argument h)
                    λ i (m, is_i).
                      Ends-bind_sure _ _ _ (transfer p (command_crc p number % 256)) _ i
                        (transfer-Ends p time c _ i)
                        λ _ y (n, is_y).
                          Ends-mono _ _ _ _ (await_answer p 255 y) (await_answer-Ends 255 y)
                            (λ _ z (o, is_z, answer).
                              let same : z.sd ≡ record e.sd { status = z.sd.status } =
                                is_z
                                ∙ ap (λ (x : Sd). record x { status = z.sd.status })
                                    (is_y ∙ is_i ∙ is_h ∙ is_g ∙ is_f) in
                              (
                                record {
                                  took = record { after = omega arith; before = omega arith };
                                  pin = ap (λ (x : Sd). x.cs) same ∙ t.pin;
                                  type = ap (λ (x : Sd). x.type) same ∙ t.type;
                                  closed = ap (λ (x : Sd). x.in_block) same ∙ t.closed;
                                },
                                answer,
                              ))
                            (λ f no_failure. no_failure)

  pub acommand-Ends :
      (fuel number argument : ℕ) (d : Device B)
      → 3020000 ≤ fuel
      → Ends (λ _ e. Talked 1 15800000000 d e) (λ _. ⊥) (acommand p fuel number argument d)
  unfolding acommand
  acommand-Ends fuel number argument d enough =
      Ends-bind_sure _ _ _ (command p fuel 55 0) _ d (command-Ends fuel 55 0 d enough) λ _ e (t, _).
        Ends-mono _ _ _ _ (command p fuel number argument e)
          (command-Ends fuel number argument e enough)
          (λ _ f (u, _). record {
            took = record { after = omega arith; before = omega arith };
            pin = u.pin ∙ t.pin;
            type = u.type ∙ t.type;
            closed = u.closed;
          })
          (λ f no_failure. no_failure)
