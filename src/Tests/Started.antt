-- ===== src/Tests/Started.antt =====
-- An initialisation of a card that delivers bytes, whatever has been put there.
use fkfs.Base.{
  ℕ, zero, suc, ◌%◌, ◌≡◌, ◌==◌, if◌then◌else◌, Bool-cases, inl, inr, true, false, refl, ap, arith,
  List, [], ◌∷◌, length, map,
}
use fkfs.Base.Memory.{length-read_from}
use fkfs.Exec.Ends.{Ends}
use fkfs.Layout.{byte}
use fkfs.Layout.Fits.{IsBytes}
use fkfs.Platform.{Platform}
use fkfs.Fs.Init.{initialize}
use fkfs.Fs.Invariant.{IsFs}
use fkfs.Fs.Invariant.Start.{ReadsBytes, initialize-IsFs}
use fkfs.Tests.Card.{Card, card, content}
use fkfs.Tests.Core.{fresh, fresh-IsFs}

abbrev low_bytes : List ℕ → List ℕ
low_bytes xs = map (λ x. x % 256) xs

length-low_bytes : (xs : List ℕ) → length (low_bytes xs) ≡ length xs
length-low_bytes [] = refl
length-low_bytes (x ∷ xs) = ap suc (length-low_bytes xs)

low_bytes-IsBytes : (xs : List ℕ) → IsBytes (low_bytes xs)
unfolding byte
low_bytes-IsBytes [] i = omega arith
low_bytes-IsBytes (x ∷ xs) zero = omega arith
low_bytes-IsBytes (x ∷ xs) (suc i) = low_bytes-IsBytes xs i

abbrev byte_card : Platform Card
byte_card = record card {
  sd_read = λ b dest d.
      if length dest == 512 then (true, low_bytes (content d b), d) else (false, dest, d);
}

byte_card-ReadsBytes : ReadsBytes byte_card
byte_card-ReadsBytes = record {
  size = λ b dest d.
      ground (arith, length-low_bytes (content d b), length-read_from (λ _. 0) (d.blocks b) 0 512);
  bytes = λ b dest d done. elim (Bool-cases (length dest == 512)) [
    | inl e ↦ rw e (low_bytes-IsBytes (content d b))
    | inr e ↦ absurd (ground (arith, done, e))
  ];
}

initialize-IsFs_example : Ends (λ _ b. IsFs b) (λ b. IsFs b) (initialize byte_card false fresh)
initialize-IsFs_example = initialize-IsFs byte_card byte_card-ReadsBytes false fresh fresh-IsFs
