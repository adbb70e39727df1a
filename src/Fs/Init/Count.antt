-- ===== src/Fs/Init/Count.antt =====
-- `fkfs_number_of_files`: the number of the files in front of the first that has no name.
use fkfs.Base.{
  ℕ, suc, ◌+◌, ◌≡◌, ◌≢◌, ap, ◌∙◌, arith, true, false, List, [], ◌∷◌, ◌++◌, length, ◌==◌,
}
use fkfs.Layout.{File, byte}
use fkfs.Fs.{Fs}
use fkfs.Fs.Init.{count_named, number_of_files}

-- A name that starts with a character.
abbrev pub IsNamed : File → Type 0
IsNamed f = byte f.name 0 ≢ 0

abbrev pub AllNamed : List File → Type 0
AllNamed [] = Unit
AllNamed (f ∷ fs) = IsNamed f × AllNamed fs

count_named-named :
    (counter : ℕ) (named rest : List File)
    → AllNamed named
    → count_named counter (named ++ rest) ≡ count_named (counter + length named) rest
unfolding count_named
count_named-named counter [] rest h =
    ap (λ (c : ℕ). count_named c rest) {x = counter} {y = counter + 0} (omega arith)
count_named-named counter (f ∷ named) rest h =
    let some_name : (byte f.name 0 == 0) ≡ false = ground (arith, h.0) in
    rw some_name (
      count_named-named (counter + 1) named rest h.1
      ∙ ap (λ (c : ℕ). count_named c rest) {x = counter + 1 + length named}
          {y = counter + suc (length named)} (omega arith))

-- The files from the first without a name on, if there is one.
abbrev pub StartsUnnamed : List File → Type 0
StartsUnnamed [] = Unit
StartsUnnamed (f ∷ fs) = byte f.name 0 ≡ 0

abbrev pub count_of : List File → List File → ℕ
count_of named [] = 0
count_of named (f ∷ fs) = length named

-- Where a file without a name stands behind named ones, the count is the number of the named ones.
-- If all the files have names, the count is 0.
pub number_of_files_lem :
    {D : Type 0} (fs : Fs D) (named rest : List File)
    → fs.header.files ≡ named ++ rest
    → AllNamed named
    → StartsUnnamed rest
    → number_of_files fs ≡ count_of named rest
unfolding number_of_files count_named
number_of_files_lem fs named [] e h first = ap (count_named 0) e ∙ count_named-named 0 named [] h
number_of_files_lem fs named (f ∷ rest) e h first =
    let no_name : (byte f.name 0 == 0) ≡ true = ground (arith, first) in
    ap (count_named 0) e ∙ count_named-named 0 named (f ∷ rest) h ∙ rw no_name (omega arith)
