-- ===== src/Log/Traced.antt =====
-- `fkfs_file_append` as the operation that a log relies on. The state carries, beside the file
-- system, the bytes of the entries that the appends have stored; `History` says which entries these are.
use fkfs.Base.{
  ℕ, ◌<◌, ◌≡◌, ◌⊎◌, inl, inr, ◌++◌, ◌==◌, if◌then◌else◌, List, [], take, refl, arith, Bool, true,
  false, length, length-take, ap, get_or, ==_iff, ◌^◌, ◌∙◌,
}
use fkfs.Exec.{Result, ok, failed, fault}
use fkfs.Exec.Ends.{Ends}
use fkfs.Layout.{File}
use fkfs.Layout.RoundTrip.{FilesFit-at}
use fkfs.Platform.{Platform}
use fkfs.Fs.{Fs, blank_file, add32}
use fkfs.Fs.Append.{file_append}
use fkfs.Fs.Invariant.{IsFs, ReadsBlocks}
use fkfs.Fs.Invariant.Allocate.{Kept}
use fkfs.Fs.Invariant.Append.{NotDone, file_append-Ends}
use fkfs.Fs.Invariant.Append.InBlock.{Stored, file_of}
use fkfs.Log.{Append}
use fkfs.Log.Buffered.{Appends}

module _ {D : Type 0} (p : Platform D) where
  abbrev pub State : Type 0
  State = Fs D × List ℕ

  -- The bytes of the entries of the file that were stored from the state `first` on, in their order, and
  -- the state behind the last.
  pub data History (file : ℕ) (first : Fs D) : List ℕ → Fs D → Type 0 where
    none_yet : History file first [] first
    not_stored :
        {xs : List ℕ} {b c : Fs D} → History file first xs b → Kept b c → History file first xs c
    one_more :
        {xs bytes : List ℕ} {b c : Fs D}
        → History file first xs b
        → Stored p file bytes b c
        → History file first (xs ++ bytes) c

  -- An append that fails has stored its bytes if the file has another size than before.
  abbrev pub same_size : ℕ → Fs D → Fs D → Bool
  same_size file fs b = (file_of p file b).size == (file_of p file fs).size

  abbrev pub note :
      ℕ → Fs D → List ℕ → List ℕ → Result (Unit {0}) × Fs D → Result (Unit {0}) × State
  note file fs bytes trace (ok a, b) = (ok tt, (b, trace ++ bytes))
  note file fs bytes trace (failed, b) =
      (failed, (b, if same_size file fs b then trace else trace ++ bytes))
  note file fs bytes trace (fault e, b) = (fault e, (b, trace))

  abbrev pub traced : Append State
  traced file size bytes (fs, trace) =
      note file fs (take size bytes) trace (file_append p file size bytes fs)

  -- The invariant, and the trace is that of the entries stored since `first`.
  pub record IsTrace (file : ℕ) (first : Fs D) (s : State) : Type 0 where
    pub is_fs : IsFs s.0
    pub history : History file first s.1 s.0

  differs : (a n : ℕ) → a < 2 ^ 32 → 0 < n → n < 2 ^ 32 → (add32 a n == a) ≡ false
  differs a n h some small = ground arith

  note-Ends :
      (file : ℕ) (first : Fs D) (bytes trace : List ℕ) (fs : Fs D) (r : Result (Unit {0}) × Fs D)
      → IsTrace file first (fs, trace)
      → file < 4
      → 0 < length bytes
      → length bytes < 2 ^ 32
      → Ends (λ _ b. Stored p file bytes fs b) (λ b. NotDone p file bytes fs b) r
      → Ends
          (λ _ (t : State). IsTrace file first t × (t.1 ≡ trace ++ bytes))
          (λ (t : State). IsTrace file first t × ((t.1 ≡ trace) ⊎ (t.1 ≡ trace ++ bytes)))
          (note file fs bytes trace r)
  note-Ends file first bytes trace fs (ok tt, b) h lt some small s =
      (record { is_fs = s.is_fs; history = History.one_more h.history s }, refl)
  note-Ends file first bytes trace fs (failed, b) h lt some small (inl k) =
      rw unchanged (record { is_fs = k.is_fs; history = History.not_stored h.history k }, inl refl)
    where
      unchanged : same_size file fs b ≡ true
      unchanged = (==_iff _ _).1 (ap (λ xs. (get_or xs file blank_file).size) k.files.entries)
  note-Ends file first bytes trace fs (failed, b) h lt some small (inr s) =
      rw changed (record { is_fs = s.is_fs; history = History.one_more h.history s }, inr refl)
    where
      size_fits : (file_of p file fs).size < 2 ^ 32
      size_fits =
          (FilesFit-at fs.header.files file blank_file h.is_fs.fits.files
            (omega (arith, lt, h.is_fs.fits.count))).size

      changed : same_size file fs b ≡ false
      changed =
          ap (λ (f : File). f.size == (file_of p file fs).size) s.file
          ∙ differs (file_of p file fs).size (length bytes) size_fits some small
  note-Ends file first bytes trace fs (fault e, b) h lt some small k = absurd k

  -- The appends to one of the four files are what a log relies on.
  pub traced-Appends :
      (reads : ReadsBlocks p) (file : ℕ) (first : Fs D)
      → file < 4
      → Appends traced (IsTrace file first) (λ (s : State). s.1) file
  traced-Appends reads file first lt = record {
    append-Ends = λ size bytes s h some small given.
        note-Ends file first (take size bytes) s.1 s.0 (file_append p file size bytes s.0) h lt
          (omega (arith, length-take size bytes)) (omega (arith, length-take size bytes))
          (file_append-Ends p reads file size bytes s.0 h.is_fs lt some small given);
  }
