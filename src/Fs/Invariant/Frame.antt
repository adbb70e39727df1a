-- ===== src/Fs/Invariant/Frame.antt =====
-- fkfs.cpp, the platform's state through appends and syncs.
use fkfs.Base.{
  length-replicate, ◌≡◌, ap, ◌∙◌, sym, subst, refl, replicate, ℕ, zero, suc, Bool, true, false,
  List, Option, none, some, ◌+◌, ◌==◌, ltb, leb, get_elem?, length,
}
use fkfs.Base.Memory.{length-overwrite, overwrite}
use fkfs.Exec.{Result, ok, failed, fault, require, in_bounds, modify, gets}
use fkfs.Exec.Keeps.{
  Gives, Keeps-bind_given, Keeps, Keeps-bind, Keeps-then, Keeps-cases, Keeps-choose, Keeps-require,
  Keeps-in_bounds,
}
use fkfs.Platform.{Platform}
use fkfs.Fs.Invariant.{ReadsBlocks}
use fkfs.Fs.{Fs, file_at, settings_at, store, put_file, from_option}
use fkfs.Fs.Blocks.{read_block, write_block, load_block, set_cached, block_ensure}
use fkfs.Fs.Headers.{header_buffer, put_header, header_write}
use fkfs.Fs.Sync.{sync_dirty, fsync}
use fkfs.Fs.Check.{Search}
use fkfs.Fs.Append.{
  leave_block, make_room, answer, search_cached, search_block, allocate_loop, file_allocate_block,
  write_entry, sync_unless, sync_file, file_append,
}

-- A property that the platform's clock and its operations on whole blocks keep.
pub record Preserves {D : Type 0} (p : Platform D) (J : D → Type 0) : Type 0 where
  pub read_length : ReadsBlocks p
  pub sd_read : (b : ℕ) (dest : List ℕ) (d : D) → J d → J (p.sd_read b dest d).2
  pub sd_write :
      (b : ℕ) (source : List ℕ) (d : D) → length source ≡ 512 → J d → J (p.sd_write b source d).1
  pub millis : (d : D) → J d → J (p.millis d).1

module _ {D : Type 0} (p : Platform D) (J : D → Type 0) (keeps : Preserves p J) where
  -- The buffer is a block, and the platform's state has the property.
  pub record Holds (fs : Fs D) : Type 0 where
    pub whole : length fs.buffer ≡ 512
    pub state : J fs.sd

  abbrev Whole : List ℕ → Type 0
  Whole bytes = length bytes ≡ 512

  read_block-Holds :
      (block : ℕ) (dest : List ℕ) (fs : Fs D)
      → Whole dest
      → Holds fs
      → Holds (read_block p block dest fs).2 × Whole (read_block p block dest fs).1
  unfolding read_block
  read_block-Holds block dest fs w h = (
    record {
      whole = h.whole;
      state = keeps.millis _ (keeps.sd_read block dest _ (keeps.millis _ h.state));
    },
    keeps.read_length block dest (p.millis fs.sd).1 ∙ w,
  )

  write_block-Keeps :
      (block : ℕ) (source : List ℕ) → Whole source → Keeps Holds (write_block p block source)
  unfolding write_block
  write_block-Keeps block source w fs h = record {
    whole = h.whole;
    state = keeps.millis _ (keeps.sd_write block source _ w (keeps.millis _ h.state));
  }

  load_block-Keeps : (block : ℕ) → Keeps Holds (load_block p block)
  unfolding load_block
  load_block-Keeps block fs h =
      let (after, w) = read_block-Holds block fs.buffer fs h.whole h in
      record { whole = w; state = after.state }

  set_cached-Holds :
      (block : ℕ) (r : Result (Unit {0}) × Fs D) → Holds r.1 → Holds (set_cached p block r).1
  set_cached-Holds block (ok a, fs) h = record { whole = h.whole; state = h.state }
  set_cached-Holds block (failed, fs) h = h
  set_cached-Holds block (fault e, fs) h = h

  block_ensure-Keeps : (block : ℕ) → Keeps Holds (block_ensure p block)
  unfolding block_ensure
  block_ensure-Keeps block fs h =
      Keeps-choose Holds (fs.cached_block_number == block) _ _ h
        (set_cached-Holds block (load_block p block fs) (load_block-Keeps block fs h))

  header_buffer-Gives :
      (wipe : Bool) (fs : Fs D) → Holds fs → Gives Whole Holds (header_buffer p wipe fs)
  unfolding header_buffer
  header_buffer-Gives true fs h = (length-replicate {A = ℕ} 512 0, h)
  header_buffer-Gives false fs h =
      by_status (read_block p 0 (replicate 512 0) fs)
        (read_block-Holds 0 (replicate 512 0) fs (length-replicate {A = ℕ} 512 0) h)
    where
      by_status :
          (r : Bool × List ℕ × Fs D)
          → Holds r.2 × Whole r.1
          → Gives Whole Holds (
              let (status, bytes, fs') = r in
              (elim status [ true ↦ ok bytes | false ↦ failed ], fs'))
      by_status (true, bytes, fs) (h, w) = (w, h)
      by_status (false, bytes, fs) (h, w) = h

  unmoved : (fs fs' : Fs D) → Holds fs → fs'.buffer ≡ fs.buffer → fs'.sd ≡ fs.sd → Holds fs'
  unmoved fs fs' h b d = record { whole = ap length b ∙ h.whole; state = subst J (sym d) h.state }

  put_header-Keeps : (bytes : List ℕ) → Whole bytes → Keeps Holds (put_header p bytes)
  unfolding put_header
  put_header-Keeps bytes w =
      Keeps-then Holds (modify _) _ (λ fs h. unmoved fs _ h refl refl)
        λ fs h.
          Keeps-then Holds (in_bounds _) (write_block p 0 _) (Keeps-in_bounds Holds _)
            (write_block-Keeps 0 _ (length-overwrite _ _ bytes ∙ w)) fs h

  header_write-Keeps : (wipe : Bool) → Keeps Holds (header_write p wipe)
  unfolding header_write
  header_write-Keeps wipe =
      Keeps-bind_given Whole Holds (header_buffer p wipe) (put_header p) (header_buffer-Gives wipe)
        put_header-Keeps

  sync_dirty-Keeps : Keeps Holds (sync_dirty p)
  unfolding sync_dirty
  sync_dirty-Keeps =
      Keeps-bind Holds (gets _) _ (λ fs h. h)
        λ block.
          Keeps-bind_given Whole Holds (gets (λ (fs : Fs D). fs.buffer)) _ (λ fs h. (h.whole, h))
            λ bytes w.
              Keeps-then Holds (write_block p block bytes) _ (write_block-Keeps block bytes w) (
                Keeps-then Holds (modify _) _ (λ fs h. unmoved fs _ h refl refl)
                  (Keeps-then Holds (modify _) _ (λ fs h. unmoved fs _ h refl refl)
                    (Keeps-then Holds (header_write p false) _ (header_write-Keeps false)
                      (λ fs h. unmoved fs _ h refl refl))))

  pub fsync-Keeps : Keeps Holds (fsync p)
  unfolding fsync
  fsync-Keeps fs h = Keeps-choose Holds fs.cached_block_dirty _ _ (sync_dirty-Keeps fs h) h

  make_room-Keeps :
      (required offset visited : ℕ) → Keeps Holds (make_room p required offset visited)
  unfolding make_room leave_block
  make_room-Keeps required offset visited =
      Keeps-cases Holds (ltb 512 (required + offset)) _ _
        (Keeps-then Holds (leave_block p) _
          (Keeps-then Holds (fsync p) _ fsync-Keeps (λ fs h. unmoved fs _ h refl refl)) (λ fs h. h))
        (λ fs h. h)

  from_option-Keeps : {A : Type 0} (found : Option A) → Keeps Holds (from_option found)
  from_option-Keeps none fs h = h
  from_option-Keeps (some found) fs h = h

  answer-Keeps : (found : Option (Bool × Search)) → Keeps Holds (answer p found)
  answer-Keeps none fs h = h
  answer-Keeps (some found) fs h = h

  settings_at-Keeps : (number : ℕ) → Keeps Holds (settings_at number)
  unfolding settings_at
  settings_at-Keeps number fs h = from_option-Keeps (get_elem? fs.files number) fs h

  search_block-Keeps :
      (number required offset : ℕ) → Keeps Holds (search_block p number required offset)
  unfolding search_block search_cached
  search_block-Keeps number required offset =
      Keeps-bind Holds (gets _) _ (λ fs h. h)
        λ block. Keeps-then Holds (block_ensure p block) _ (block_ensure-Keeps block) (
          Keeps-bind Holds (settings_at number) _ (settings_at-Keeps number)
            λ settings fs h. answer-Keeps _ fs h)

  allocate_loop-Keeps :
      (fuel number required offset visited : ℕ)
      → Keeps Holds (allocate_loop p fuel number required offset visited)
  unfolding allocate_loop
  allocate_loop-Keeps zero number required offset visited = λ fs h. h
  allocate_loop-Keeps (suc fuel) number required offset visited =
      Keeps-bind Holds (make_room p required offset visited) _
        (make_room-Keeps required offset visited)
        λ (offset', visited').
          Keeps-bind Holds (search_block p number required offset') _
            (search_block-Keeps number required offset')
            λ (found, search).
              Keeps-cases Holds found _ _ (λ fs h. unmoved fs _ h refl refl)
                (Keeps-cases Holds (ltb visited' 5) _ _
                  (allocate_loop-Keeps fuel number required 512 visited') (λ fs h. h))

  file_allocate_block-Keeps :
      (number required : ℕ) → Keeps Holds (file_allocate_block p number required)
  unfolding file_allocate_block
  file_allocate_block-Keeps number required =
      Keeps-bind Holds (gets _) _ (λ fs h. h)
        λ offset. allocate_loop-Keeps 6 number required offset 0

  file_at-Keeps : (number : ℕ) → Keeps Holds (file_at number)
  unfolding file_at
  file_at-Keeps number fs h = from_option-Keeps (get_elem? fs.header.files number) fs h

  store-Keeps : (offset : ℕ) (bytes : List ℕ) → Keeps Holds (store offset bytes)
  unfolding store
  store-Keeps offset bytes =
      Keeps-then Holds (in_bounds (leb (offset + length bytes) 512))
        (modify (λ fs. record fs { buffer = overwrite offset bytes fs.buffer }))
        (Keeps-in_bounds Holds (leb (offset + length bytes) 512))
        λ fs h. record {
          whole = length-overwrite offset bytes fs.buffer ∙ h.whole;
          state = h.state;
        }

  write_entry-Keeps :
      (number required size : ℕ) (bytes : List ℕ)
      → Keeps Holds (write_entry p number required size bytes)
  unfolding write_entry put_file
  write_entry-Keeps number required size bytes =
      Keeps-bind Holds (file_at number) _ (file_at-Keeps number) λ file.
        Keeps-bind Holds (gets _) _ (λ fs h. h)
          λ offset. Keeps-then Holds (store offset _) _ (store-Keeps offset _) (
            Keeps-then Holds (store _ bytes) _ (store-Keeps _ bytes) (
              Keeps-then Holds (modify _) _ (λ fs h. unmoved fs _ h refl refl)
                (λ fs h. unmoved fs _ h refl refl)))

  sync_file-Keeps : (number : ℕ) → Keeps Holds (sync_file p number)
  unfolding sync_file
  sync_file-Keeps number =
      Keeps-bind Holds (settings_at number) _ (settings_at-Keeps number)
        λ settings. unless (settings.sync == 0)
    where
      unless : (b : Bool) → Keeps Holds (sync_unless p b)
      unless true fs h = h
      unless false fs h = fsync-Keeps fs h

  -- What the block operations and the clock of a platform keep is kept by an append, on every path.
  pub file_append-Keeps :
      (number size : ℕ) (bytes : List ℕ) → Keeps Holds (file_append p number size bytes)
  unfolding file_append
  file_append-Keeps number size bytes =
      Keeps-bind Holds (file_at number) _ (file_at-Keeps number) λ file.
        Keeps-then Holds (require _) _ (Keeps-require Holds _) (
          Keeps-then Holds (file_allocate_block p number _) _ (file_allocate_block-Keeps number _) (
            Keeps-then Holds (in_bounds _) _ (Keeps-in_bounds Holds _) (
              Keeps-then Holds (write_entry p number _ size _) _ (write_entry-Keeps number _ size _)
                (sync_file-Keeps number))))
