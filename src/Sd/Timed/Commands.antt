-- ===== src/Sd/Timed/Commands.antt =====
-- What a command sends: six bytes, between bytes without meaning.
use fkfs.Base.{
  subst, Bool, ℕ, ◌+◌, ◌*◌, ◌/◌, ◌%◌, ◌^◌, ◌≤◌, ◌<◌, ◌≡◌, false, refl, ap, ◌∙◌, arith, List, ◌∷◌,
  ◌++◌, replicate, bit_or,
}
use fkfs.Exec.{Result, ok, failed, fault, ◌>>=◌}
use fkfs.Exec.Ends.{Ends, Ends-also, Ends-mono, Ends-bind_sure, Ends-then_sure}
use fkfs.Sd.{Bus, Device, ignore}
use fkfs.Sd.Spi.{
  transfer, write_cs, flush, read_end, send_argument, await_answer, command, command_crc,
}
use fkfs.Sd.Timed.{Clock, Pins, write_cs-Ends, flush-Ends}
use fkfs.Sd.Timed.Talk.{read_end-Ends, ignore-Ends, await_answer-Ends}
use fkfs.Sd.Timed.Frames.{
  tapped, sent, Padded, write_cs-Keeps, flush-Keeps, ignore-Keeps, read_end-Keeps,
  await_answer-Keeps,
}

-- The four bytes of an argument, the lowest first, in front of what was sent before.
pub record Argument (argument : ℕ) (before after : List ℕ) : Type 0 where
  pub b0 : ℕ
  pub b1 : ℕ
  pub b2 : ℕ
  pub b3 : ℕ
  pub bytes : (b0 < 256) × (b1 < 256) × (b2 < 256) × (b3 < 256)
  pub value : b0 + b1 * 256 + b2 * 65536 + b3 * 16777216 ≡ argument
  pub order : after ≡ b0 ∷ b1 ∷ b2 ∷ b3 ∷ before

module _ {B : Type 0} (p : Bus B) (time : B → ℕ) (c : Clock p time) (level : B → ℕ → Bool)
    (pins : Pins p level) where
  tapped-Clock : Clock (tapped p) (λ x. time x.0)
  tapped-Clock = record {
    reads = λ x. c.reads x.0;
    millis_after = λ x. c.millis_after x.0;
    millis_before = λ x. c.millis_before x.0;
    transfer_after = λ v x. c.transfer_after v x.0;
    transfer_before = λ v x. c.transfer_before v x.0;
    write_after = λ pin v x. c.write_after pin v x.0;
    write_before = λ pin v x. c.write_before pin v x.0;
  }

  tapped-Pins : Pins (tapped p) (λ x. level x.0)
  tapped-Pins = record {
    write_self = λ pin v x. pins.write_self pin v x.0;
    millis_keeps = λ pin x. pins.millis_keeps pin x.0;
  }

  -- The bytes of a command, the last one first: the checksum, the argument, and the number.
  pub record Framed (number argument : ℕ) (d e : Device (B × List ℕ)) : Type 0 where
    pub before : ℕ
    pub after : ℕ
    pub tail : List ℕ
    pub argument_is :
        Argument argument (bit_or number 0x40 % 256 ∷ (replicate before 255 ++ sent p d)) tail
    pub all : sent p e ≡ replicate after 255 ++ (command_crc p number % 256 ∷ tail)

  sent_byte :
      (v : ℕ) (d : Device (B × List ℕ))
      → Ends (λ _ e. sent p e ≡ v ∷ sent p d) (λ _. ⊥) (transfer (tapped p) v d)
  unfolding transfer
  sent_byte v d = refl

  send_argument-Sends :
      (argument : ℕ) (d : Device (B × List ℕ))
      → argument < 2 ^ 32
      → Ends
          (λ _ e. Argument argument (sent p d) (sent p e))
          (λ _. ⊥)
          (send_argument (tapped p) argument d)
  unfolding send_argument transfer ◌>>=◌
  send_argument-Sends argument d small = record {
    b0 = argument % 256;
    b1 = argument / 2 ^ 8 % 256;
    b2 = argument / 2 ^ 16 % 256;
    b3 = argument / 2 ^ 24 % 256;
    bytes = (omega arith, omega arith, omega arith, omega arith);
    value = omega arith;
    order = refl;
  }

  -- An action that does not fail, and what it keeps.
  quiet :
      {A : Type 0} (Q : A → Device (B × List ℕ) → Type 0) (K : Device (B × List ℕ) → Type 0)
      (r : Result A × Device (B × List ℕ))
      → Ends Q (λ _. ⊥) r
      → K r.1
      → Ends (λ _ e. K e) (λ _. ⊥) r
  quiet Q K (ok a, e) h j = j
  quiet Q K (failed, e) h j = h
  quiet Q K (fault x, e) h j = h

  -- On a bus with a clock that goes on and pins that keep their levels, with fuel for 302 ms, a command
  -- with a 32-bit argument, from any state and whatever the card answers, does not fail or fault, and
  -- sends between bytes of 0xff exactly its frame: its number with the bit for the host, the four
  -- bytes of its argument with the highest first, and its checksum.
  pub command-Framed :
      (fuel number argument : ℕ) (d : Device (B × List ℕ))
      → 3020000 ≤ fuel
      → argument < 2 ^ 32
      → Ends
          (λ _ e. Framed number argument d e)
          (λ _. ⊥)
          (command (tapped p) fuel number argument d)
  unfolding command
  command-Framed fuel number argument d enough small =
      Ends-then_sure (λ _ e. Padded p (sent p d) e) _ _ (read_end (tapped p)) _ d
        (quiet _ (Padded p (sent p d)) (read_end (tapped p) d)
          (read_end-Ends (tapped p) (λ x. time x.0) tapped-Clock (λ x. level x.0) tapped-Pins d)
          (read_end-Keeps p (sent p d) d (record { count = 0; bytes = refl })))
        λ e h.
          Ends-then_sure (λ _ f. Padded p (sent p d) f) _ _ (write_cs (tapped p) false) _ e
            (quiet _ (Padded p (sent p d)) (write_cs (tapped p) false e)
              (write_cs-Ends (tapped p) (λ x. time x.0) tapped-Clock false e)
              (write_cs-Keeps p (sent p d) false e h))
            λ f i.
              Ends-then_sure (λ _ g. Padded p (sent p d) g) _ _ (ignore (flush (tapped p) fuel 300))
                _ f
                (quiet _ (Padded p (sent p d)) (ignore (flush (tapped p) fuel 300) f)
                  (ignore-Ends (tapped p) (λ x. time x.0) tapped-Clock (λ x. level x.0) tapped-Pins
                    (λ _. Unit {0}) (flush (tapped p) fuel 300) f
                    (Ends-mono _ _ _ _ (flush (tapped p) fuel 300 f)
                      (flush-Ends (tapped p) (λ x. time x.0) tapped-Clock fuel 300 f (omega arith)
                        (omega arith))
                      (λ _ _ _. tt) (λ _ _. tt)))
                  (ignore-Keeps p (Padded p (sent p d)) (flush (tapped p) fuel 300)
                    (flush-Keeps p (sent p d) fuel 300) f i))
                λ g j.
                  Ends-bind_sure _ _ _ (transfer (tapped p) (bit_or number 0x40 % 256)) _ g
                    (sent_byte _ g)
                    λ _ x k.
                      Ends-then_sure _ _ _ (send_argument (tapped p) argument) _ x
                        (send_argument-Sends argument x small)
                        λ y l.
                          Ends-bind_sure _ _ _ (transfer (tapped p) (command_crc p number % 256)) _
                            y (sent_byte _ y)
                            λ _ z m.
                              Ends-mono _ _ _ _ (await_answer (tapped p) 255 z)
                                (Ends-also _ _ (Padded p (sent p z)) (await_answer (tapped p) 255 z)
                                  (await_answer-Ends (tapped p) (λ x. time x.0) tapped-Clock
                                    (λ x. level x.0) tapped-Pins 255 z)
                                  (await_answer-Keeps p (sent p z) 255 z
                                    (record { count = 0; bytes = refl })))
                                (λ _ w (_, n). record {
                                  before = j.count;
                                  after = n.count;
                                  tail = sent p y;
                                  argument_is =
                                      subst (λ (t : List ℕ). Argument argument t (sent p y))
                                        (k ∙ ap (λ t. bit_or number 0x40 % 256 ∷ t) j.bytes) l;
                                  all = n.bytes ∙ ap (λ t. replicate n.count 255 ++ t) m;
                                })
                                (λ _ none. absurd none.0)
