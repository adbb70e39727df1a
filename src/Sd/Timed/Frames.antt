-- ===== src/Sd/Timed/Frames.antt =====
-- The bytes that a command sends, on a bus that notes them.
use fkfs.Base.{
  Bool, ℕ, zero, suc, ◌-◌, ◌≡◌, true, refl, ap, ◌∙◌, ◌==◌, ltb, List, ◌∷◌, ◌++◌, replicate,
}
use fkfs.Exec.{Exec, Result, ok, failed, fault, modify, gets}
use fkfs.Exec.Keeps.{Keeps, Keeps-bind, Keeps-then, Keeps-cases, Keeps-choose}
use fkfs.Fs.{sub32}
use fkfs.Sd.{Bus, Device, ignore, has_bits}
use fkfs.Sd.Spi.{transfer, clock, write_cs, skip, flush_loop, flush, read_end, await_answer}

-- The bus, with the bytes that were sent, the last one first.
abbrev pub tapped : {B : Type 0} → Bus B → Bus (B × List ℕ)
tapped p = record {
  transfer = λ v x. ((p.transfer v x.0).0, ((p.transfer v x.0).1, v ∷ x.1));
  millis = λ x. ((p.millis x.0).0, ((p.millis x.0).1, x.1));
  digital_write = λ pin v x. (p.digital_write pin v x.0, x.1);
  pin_mode_output = λ pin x. (p.pin_mode_output pin x.0, x.1);
  spi_begin = λ x. (p.spi_begin x.0, x.1);
  set_clock_divider = λ n x. (p.set_clock_divider n x.0, x.1);
}

module _ {B : Type 0} (p : Bus B) where
  abbrev pub sent : Device (B × List ℕ) → List ℕ
  sent d = d.bus.1

  -- Since the bytes `base` nothing but 0xff was sent.
  pub record Padded (base : List ℕ) (d : Device (B × List ℕ)) : Type 0 where
    pub count : ℕ
    pub bytes : sent d ≡ replicate count 255 ++ base

  transfer-Keeps : (base : List ℕ) → Keeps (Padded base) (transfer (tapped p) 255)
  unfolding transfer
  transfer-Keeps base d h = record { count = suc h.count; bytes = ap (λ t. 255 ∷ t) h.bytes }

  clock-Keeps : (base : List ℕ) → Keeps (Padded base) (clock (tapped p))
  unfolding clock
  clock-Keeps base d h = record { count = h.count; bytes = h.bytes }

  pub write_cs-Keeps : (base : List ℕ) (v : Bool) → Keeps (Padded base) (write_cs (tapped p) v)
  unfolding write_cs
  write_cs-Keeps base v d h = record { count = h.count; bytes = h.bytes }

  settle :
      (base : List ℕ) (d e : Device (B × List ℕ)) → Padded base d → e.bus ≡ d.bus → Padded base e
  settle base d e h is = record {
    count = h.count;
    bytes = ap (λ (x : B × List ℕ). x.1) is ∙ h.bytes;
  }

  skip-Keeps : (base : List ℕ) (n : ℕ) → Keeps (Padded base) (skip (tapped p) n)
  unfolding skip
  skip-Keeps base zero = λ d h. h
  skip-Keeps base (suc n) =
      Keeps-bind (Padded base) (transfer (tapped p) 255) _ (transfer-Keeps base)
        λ _. skip-Keeps base n

  flush_loop-Keeps :
      (base : List ℕ) (fuel started timeout : ℕ)
      → Keeps (Padded base) (flush_loop (tapped p) fuel started timeout)
  unfolding flush_loop
  flush_loop-Keeps base zero started timeout = λ d h. h
  flush_loop-Keeps base (suc fuel) started timeout =
      Keeps-bind (Padded base) (transfer (tapped p) 255) _ (transfer-Keeps base) λ byte.
        Keeps-cases (Padded base) (byte == 0xff) _ _ (λ d h. h)
          (Keeps-bind (Padded base) (clock (tapped p)) _ (clock-Keeps base) λ now.
            Keeps-cases (Padded base) (ltb (sub32 now started) timeout) _ _
              (flush_loop-Keeps base fuel started timeout) (λ d h. h))

  pub flush-Keeps :
      (base : List ℕ) (fuel timeout : ℕ) → Keeps (Padded base) (flush (tapped p) fuel timeout)
  unfolding flush
  flush-Keeps base fuel timeout =
      Keeps-bind (Padded base) (clock (tapped p)) _ (clock-Keeps base)
        λ started. flush_loop-Keeps base fuel started timeout

  pub ignore-Keeps :
      {A : Type 0} (J : Device (B × List ℕ) → Type 0) (m : Exec (Device (B × List ℕ)) A)
      → Keeps J m
      → Keeps J (ignore m)
  unfolding ignore
  ignore-Keeps J m h d j = from_result (m d) (h d j)
    where
      from_result :
          {A : Type 0} (r : Result A × Device (B × List ℕ)) → J r.1 → J (ignore (λ _. r) d).1
      from_result (ok a, e) h = h
      from_result (failed, e) h = h
      from_result (fault x, e) h = h

  pub read_end-Keeps : (base : List ℕ) → Keeps (Padded base) (read_end (tapped p))
  unfolding read_end
  read_end-Keeps base d h =
      Keeps-choose (Padded base) d.sd.in_block _ _
        (Keeps-bind (Padded base) (gets _) _ (λ d h. h)
          (λ offset.
            Keeps-then (Padded base) (skip (tapped p) (514 - offset)) _
              (skip-Keeps base (514 - offset))
              (Keeps-then (Padded base) (modify _) _ (λ d h. settle base d _ h refl)
                (Keeps-then (Padded base) (write_cs (tapped p) true) _ (write_cs-Keeps base true)
                  (λ d h. settle base d _ h refl))))
          d h)
        h

  pub await_answer-Keeps : (base : List ℕ) (n : ℕ) → Keeps (Padded base) (await_answer (tapped p) n)
  unfolding await_answer
  await_answer-Keeps base zero =
      Keeps-bind (Padded base) (transfer (tapped p) 255) _ (transfer-Keeps base)
        λ byte. Keeps-then (Padded base) (modify _) _ (λ d h. settle base d _ h refl) (λ d h. h)
  await_answer-Keeps base (suc n) =
      Keeps-bind (Padded base) (transfer (tapped p) 255) _ (transfer-Keeps base) λ byte.
        Keeps-then (Padded base) (modify _) _ (λ d h. settle base d _ h refl)
          (Keeps-cases (Padded base) (has_bits byte 0x80) _ _ (await_answer-Keeps base n)
            (λ d h. h))
