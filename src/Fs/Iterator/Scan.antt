-- ===== src/Fs/Iterator/Scan.antt =====
-- `fkfs_file_iterate`: its loop, and the call as a whole.
use fkfs.Base.{
  ◌≤◌, ℕ, zero, suc, ◌+◌, ◌*◌, ◌<◌, ◌≡◌, ◌⊎◌, inl, inr, Bool, true, false, not, ◌&&◌, refl, arith,
  List, length, ltb,
}
use fkfs.Exec.{Exec, pure, ◌>>=◌, ◌>>◌}
use fkfs.Exec.Ends.{Ends, Ends-bind, Ends-bind_sure, Ends-modify, Ends-gets, Ends-cases}
use fkfs.Platform.{Platform, IsDisk}
use fkfs.Fs.{Fs, sub32}
use fkfs.Fs.Iterator.{
  Iter, Config, Verdict, finish, again, State, iterator_done, iterator_valid, scan_round, report,
  scan_loop, close_scan, file_iterate, count_call, now,
}
use fkfs.Fs.Iterator.Delivery.{
  Ended, NothingBehind, Delivered, Stopped, at_end, limited, unreadable, at_token, Goes, Found,
  Budget, Ticked,
}
use fkfs.Fs.Iterator.Ticks.{resized-Budget, now-Ends, ticked-Goes}
use fkfs.Fs.Iterator.Round.{scan_round-Ends}

module _ {D : Type 0} (p : Platform D) (content : D → ℕ → List ℕ) (disk : IsDisk p content)
    (config : Config) (start : State p) where
  report-Goes :
      (rounds left last_status : ℕ) (s : State p)
      → Goes p content config start rounds left s
      → Ends (λ _ s'. Goes p content config start rounds left s') (λ _. ⊥) (report p last_status s)
  unfolding report
  report-Goes rounds left last_status s g =
      Ends-bind_sure _ _ _ (now p) _ s (now-Ends p content disk config start s) λ t s' k.
        let g' = ticked-Goes p content disk config start rounds left s s' k g in
        Ends-cases (λ _ x. Goes p content config start rounds left x) _
          (ltb 1000 (sub32 t last_status)) (now p) (pure last_status) s'
          (λ late.
            ticked-Goes p content disk config start rounds left s' _
              (record {
                sd = (p.millis s'.0.sd).1;
                same = refl;
                card = λ j. disk.millis_keeps j s'.0.sd;
              })
              g')
          (λ _. g')

  -- How the loop ends, by what it answers.
  abbrev Answered : Bool → State p → Type 0
  Answered true s = Delivered p content config start s
  Answered false s = Ended p content config start s

  -- The statistics and the clock are no matter to what has been delivered.
  close_scan-Ends :
      (E : State p → Type 0) (stop : (x : State p) → Ended p content config start x → E x)
      (started : ℕ) (success : Bool) (s : State p)
      → Answered success s
      → Ends (λ _ s'. Delivered p content config start s') E (close_scan p started success s)
  unfolding close_scan now ◌>>=◌ ◌>>◌
  close_scan-Ends E stop started true s h = record {
    at = h.at;
    block = h.block;
    offset = h.offset;
    reached = h.reached;
    seen = h.seen;
    buffer = h.buffer;
    same_header = h.same_header;
    good_entry = h.good_entry;
    own = h.own;
    size = h.size;
    pointer = h.pointer;
    whole = h.whole;
    kept = h.kept;
    same_size = h.same_size;
    last = h.last;
    ahead = h.ahead;
  }
  close_scan-Ends E stop started false s h =
      stop _ (record { stopped = still h.stopped; kept = h.kept })
    where
      still :
          {closed : Fs D}
          → Stopped p content config start s
          → Stopped p content config start (closed, s.1)
      still (at_end r e) = at_end r e
      still (limited e) = limited e
      still (unreadable e) = unreadable e

  module _ (behind : NothingBehind p) (started : ℕ) where
    scan_loop-Ends :
        (fuel last_status left : ℕ) (s : State p)
        → Goes p content config start fuel left s
        → Ends Answered (λ _. ⊥) (scan_loop p config started fuel last_status left s)
    unfolding scan_loop
    scan_loop-Ends zero last_status left s g = absurd (omega (arith, g.bound))
    scan_loop-Ends (suc fuel) last_status left s g =
        Ends-bind (Found p content config start fuel) _ _ (scan_round p config started left) _ s
          (scan_round-Ends p behind content disk config start started fuel left s g)
          (by_verdict (λ status l x h. scan_loop-Ends fuel status l x h))
      where
        by_verdict :
            ((status l : ℕ) (x : State p)
              → Goes p content config start fuel l x
              → Ends Answered (λ _. ⊥) (scan_loop p config started fuel status l x))
            → (verdict : Verdict) (x : State p) → Found p content config start fuel verdict x
            → Ends Answered
                (λ _. ⊥)
                (elim verdict as (λ (v : Verdict). Exec (State p) Bool) [
                  | finish success ↦ pure success
                  | again l ↦
                      report p last_status >>= λ status. scan_loop p config started fuel status l
                ]
                  x)
        by_verdict rest (finish true) x h = h
        by_verdict rest (finish false) x h = h
        by_verdict rest (again l) x h =
            Ends-bind_sure _ _ _ (report p last_status) _ x (report-Goes fuel l last_status x h)
              λ status x' h'. rest status l x' h'

entered :
    {D : Type 0} (fs : Fs D) (iter : Iter)
    → iterator_valid fs iter && not (iterator_done iter) ≡ true
    → iter.token.block ≤ iter.token.last_block
unfolding iterator_valid
entered fs iter h = ground arith

module _ {D : Type 0} (p : Platform D) (content : D → ℕ → List ℕ) (disk : IsDisk p content)
    (config : Config) where
  -- Over a card that keeps its blocks, with a buffer of a block, with nothing behind it that is taken
  -- for an entry, and with fuel for the blocks that are left, an iteration does not fault and its loop
  -- ends. The blocks that are left are those of the limit, or else those up to the token's last one,
  -- which is in front of the card's end. Where it succeeds, the iterator points to the data of a good
  -- entry of the file in the cached block, and the scan has passed over nothing but other files' entries,
  -- entries with a wrong checksum, and ends of blocks. Where it fails, the token was refused, or the
  -- scan has passed in this way to the token's end, or a limit was set, or the card is not reliable. The
  -- header is as before.
  pub file_iterate-Ends :
      NothingBehind p
      → (fuel blocks : ℕ) (s : State p) → length s.0.buffer ≡ 512
      → Budget p content config s config.max_blocks s blocks
      → blocks * 700 + 600 < fuel
      → Ends
          (λ _ s'. Delivered p content config s s')
          (λ s'.
            ((iterator_valid s.0 s.1 && not (iterator_done s.1) ≡ false)
              ⊎ Stopped p content config s s')
            × (s'.0.header ≡ s.0.header))
          (file_iterate p fuel config s)
  unfolding file_iterate
  file_iterate-Ends behind fuel blocks s whole budget enough =
      let first : State p = (count_call p s.0, s.1) in
      let goes : iterator_valid s.0 s.1 && not (iterator_done s.1) ≡ true
          → Goes p content config s fuel config.max_blocks first =
        λ enter. record {
          whole = whole;
          kept = refl;
          same_size = refl;
          card = λ j. refl;
          seen = inr (refl, refl);
          own = refl;
          reached = at_token;
          last = refl;
          ahead =
              λ w. record { moved = omega arith; inside = entered s.0 s.1 enter; low = w.offset };
          blocks = blocks;
          budget = resized-Budget p content disk config s s.0 (count_call p s.0) s.1 refl budget;
          bound = omega (arith, enough);
        } in
      Ends-modify _ _ _ _ s (
        Ends-gets _ _ _ _ _ (
          Ends-cases _ _ (iterator_valid s.0 s.1 && not (iterator_done s.1)) _ _ _
            (λ enter.
              Ends-bind_sure (λ _ x. Ticked p content first x) _ _ (now p) _ first
                (now-Ends p content disk config s first)
                λ started x t.
                  Ends-bind_sure (Answered p content disk config s) _ _
                    (scan_loop p config started fuel started config.max_blocks) _ x
                    (scan_loop-Ends p content disk config s behind started fuel started
                      config.max_blocks x
                      (ticked-Goes p content disk config s fuel config.max_blocks first x t
                        (goes enter)))
                    λ success y h.
                      close_scan-Ends p content disk config s _ (λ z k. (inr k.stopped, k.kept))
                        started success y h)
            (λ refused. (inl refused, refl))))
