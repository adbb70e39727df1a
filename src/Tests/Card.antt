-- ===== src/Tests/Card.antt =====
-- A platform that runs: a card that keeps its blocks and never fails, a clock that moves by one at
-- each reading, and a generator that returns the clock.
use fkfs.Base.{
  ℕ, ◌+◌, ◌%◌, ◌^◌, ◌≡◌, ◌≢◌, true, false, refl, Bool-cases, inl, inr, List, length, ◌==◌, ==_iff,
  if◌then◌else◌, replicate, arith,
}
use fkfs.Base.Memory.{read_from, length-read_from, read_from-all}
use fkfs.Platform.{Platform, IsDisk, Reliable}
use fkfs.Fs.Invariant.{ReadsBlocks}

pub record Card : Type 0 where
  pub blocks : ℕ → List ℕ
  pub clock : ℕ

abbrev pub write : ℕ → List ℕ → Card → Card
write b source d = record d { blocks = λ i. if i == b then source else d.blocks i }

-- A block of the card, which is 512 bytes whatever has been put there.
abbrev pub content : Card → ℕ → List ℕ
content d b = read_from (λ _. 0) (d.blocks b) 0 512

-- A transfer of any other number of bytes is refused.
abbrev pub card : Platform Card
card = record {
  sd_read = λ b dest d. if length dest == 512 then (true, content d b, d) else (false, dest, d);
  sd_write = λ b source d. if length source == 512 then (true, write b source d) else (false, d);
  card_size = λ d. (10000, d);
  millis = λ d. (d.clock % 2 ^ 32, record d { clock = d.clock + 1 });
  random = λ n d. (d.clock % n, record d { clock = d.clock + 1 });
  sd_zero = λ d. d;
  past = λ d i. 0;
}

pub card-ReadsBlocks : ReadsBlocks card
card-ReadsBlocks block dest d = ground (arith, length-read_from (λ _. 0) (d.blocks block) 0 512)

other : (b j : ℕ) → b ≢ j → (j == b) ≡ false
other b j ne = ground arith

pub card-IsDisk : IsDisk card content
card-IsDisk = record {
  read_status = λ b dest d done. ground (arith, done);
  read_length = card-ReadsBlocks;
  read_keeps = λ b j dest d. elim (Bool-cases (length dest == 512)) [
    | inl e ↦ rw e refl
    | inr e ↦ rw e refl
  ];
  write_self = λ b source d done. elim (Bool-cases (length source == 512)) [
    | inl e ↦ rw e (
        rw ((==_iff b b).1 refl)
          (read_from-all (λ _. 0) source 512 ((==_iff (length source) 512).0 e)))
    | inr e ↦ absurd (ground (arith, done, e))
  ];
  write_ne = λ b j source d ne. elim (Bool-cases (length source == 512)) [
    | inl e ↦ rw e (rw (other b j ne) refl)
    | inr e ↦ rw e refl
  ];
  millis_keeps = λ j d. refl;
  size_keeps = λ j d. refl;
  random_keeps = λ n j d. refl;
}

abbrev pub blank : Card
blank = record { blocks = λ _. replicate 512 0; clock = 7 }

pub card-Reliable : Reliable card
card-Reliable = record {
  reads = λ b dest d full. ground (arith, full);
  writes = λ b source d full. ground (arith, full);
}
