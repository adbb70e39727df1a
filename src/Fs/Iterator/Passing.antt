-- ===== src/Fs/Iterator/Passing.antt =====
-- What the steps of a round of `fkfs_file_iterate` keep and reach.
use fkfs.Base.{
  ℕ, suc, ◌+◌, ◌-◌, ◌*◌, ◌^◌, ◌%◌, ◌<◌, ◌≤◌, ◌≡◌, inl, inr, Bool, true, false, refl, ◌==◌, ==_iff,
  ap, if◌then◌else◌, ltb, arith, ◌&&◌, ◌||◌, sym, subst, List, ◌∙◌,
}
use fkfs.Exec.Ends.{Ends, Ends-bind_sure, Ends-choose}
use fkfs.Layout.{Entry}
use fkfs.Platform.{Platform, IsDisk}
use fkfs.Fs.{Fs, add32, sub32, first_block, uint32_max}
use fkfs.Fs.Iterator.{
  Config, Iter, Verdict, finish, again, State, iterator_done, skip_entry, pass_entry, time_reached,
  pass_block,
}
use fkfs.Fs.Iterator.Delivery.{
  Within, Ahead, Ticked, at_end, limited, Reached, around, Budget, by_limit, by_token, Goes, Found,
}
use fkfs.Fs.Iterator.Ticks.{ticked-Goes, time_reached-Ends}

module _ {D : Type 0} (p : Platform D) (content : D → ℕ → List ℕ) (disk : IsDisk p content)
    (config : Config) (start : State p) where
  abbrev Going : ℕ → ℕ → State p → Type 0
  Going rounds left s = Goes p content config start rounds left s

  abbrev Left : ℕ → State p → ℕ → Type 0
  Left left s blocks = Budget p content config start left s blocks

  abbrev Outcome : ℕ → Verdict → State p → Type 0
  Outcome rounds verdict s = Found p content config start rounds verdict s

  abbrev Place : ℕ → ℕ → Type 0
  Place block offset = Reached p content config start block offset

  abbrev Clock : State p → State p → Type 0
  Clock s s' = Ticked p content s s'

  skipped-Goes :
      (rounds left : ℕ) (fs : Fs D) (iter : Iter) (entry : Entry)
      → Going (suc rounds) left (fs, iter)
      → iter.token.offset < 512
      → 0 < entry.available
      → entry.available < 512
      → Place iter.token.block ((iter.token.offset + (entry.available + 7)) % 2 ^ 16)
      → Going rounds left (fs, skip_entry entry iter)
  unfolding skip_entry
  skipped-Goes rounds left fs iter entry g in_block some few place = record {
    whole = g.whole;
    kept = g.kept;
    same_size = g.same_size;
    card = g.card;
    seen = g.seen;
    own = g.own;
    reached = place;
    last = g.last;
    ahead = λ w.
        let a = g.ahead w in
        record { moved = omega (arith, a.moved); inside = a.inside; low = omega arith };
    blocks = g.blocks;
    budget = same g.budget;
    bound = omega (arith, g.bound);
  }
    where
      same :
          {blocks : ℕ} → Left left (fs, iter) blocks → Left left (fs, skip_entry entry iter) blocks
      same (by_limit a b c e) = by_limit a b c e
      same (by_token a b c e) = by_token a b c e

  pub pass_entry-Ends :
      (rounds left : ℕ) (fs : Fs D) (iter : Iter) (entry : Entry)
      → Going (suc rounds) left (fs, iter)
      → iter.token.offset < 512
      → 0 < entry.available
      → entry.available < 512
      → Place iter.token.block ((iter.token.offset + (entry.available + 7)) % 2 ^ 16)
      → Ends (Outcome rounds) (λ _. ⊥) (pass_entry p left entry (fs, iter))
  unfolding pass_entry
  pass_entry-Ends rounds left fs iter entry g in_block some few place =
      by_end (iterator_done (skip_entry entry iter)) refl
    where
      by_end :
          (b : Bool)
          → iterator_done (skip_entry entry iter) ≡ b
          → Outcome rounds (if b then finish false else again left) (fs, skip_entry entry iter)
      by_end true e = record { stopped = at_end place e; kept = g.kept }
      by_end false e = skipped-Goes rounds left fs iter entry g in_block some few place

  -- The next block is no block that the scan jumps from.
  no_wrap :
      (next n : ℕ)
      → next < sub32 n 2
      → next < 2 ^ 32 - 1
      → (if next == sub32 n 2 || next == uint32_max then first_block else next) ≡ next
  no_wrap next n h k = ground arith

  not_behind : (last next : ℕ) (rest : Bool) → (ltb last next || rest) ≡ false → next ≤ last
  not_behind last next rest h = ground (arith, h)

  abbrev next_left : ℕ → ℕ
  next_left left = if ltb 0 config.max_blocks then sub32 left 1 else left

  abbrev at_next : Iter → Iter
  at_next iter = record iter {
    token = record iter.token { block = add32 iter.token.block 1; offset = 0 };
  }

  abbrev wrapped : Fs D → Iter → Iter
  wrapped fs iter = record (at_next iter) {
    token = record (at_next iter).token {
      block =
          if (at_next iter).token.block == sub32 fs.number_of_blocks 2
            || (at_next iter).token.block == uint32_max
          then first_block
          else (at_next iter).token.block;
    };
  }

  wrapped-Reached :
      (fs : Fs D) (iter : Iter)
      → fs.number_of_blocks ≡ start.0.number_of_blocks
      → Place (add32 iter.token.block 1) 0
      → Place (wrapped fs iter).token.block 0
  wrapped-Reached fs iter same place =
      by_tests (add32 iter.token.block 1 == sub32 fs.number_of_blocks 2)
        (add32 iter.token.block 1 == uint32_max) refl refl
    where
      by_tests :
          (b c : Bool)
          → (add32 iter.token.block 1 == sub32 fs.number_of_blocks 2) ≡ b
          → (add32 iter.token.block 1 == uint32_max) ≡ c
          → Place (if b || c then first_block else add32 iter.token.block 1) 0
      by_tests true c e k = around (add32 iter.token.block 1) place (
          inl (
            (==_iff (add32 iter.token.block 1) (sub32 fs.number_of_blocks 2)).0 e
            ∙ ap (λ n. sub32 n 2) same))
      by_tests false true e k =
          around (add32 iter.token.block 1) place
            (inr ((==_iff (add32 iter.token.block 1) uint32_max).0 k))
      by_tests false false e k = place

  wrapped-Ahead :
      (fs : Fs D) (iter : Iter)
      → fs.number_of_blocks ≡ start.0.number_of_blocks
      → iter.token.last_block ≡ start.1.token.last_block
      → Within p content config start
      → Ahead p content config start iter
      → iterator_done (at_next iter) ≡ false
      → Ahead p content config start (wrapped fs iter)
  unfolding iterator_done
  wrapped-Ahead fs iter size last w a more =
      let step : add32 iter.token.block 1 ≡ iter.token.block + 1 =
        omega (arith, a.inside, w.small) in
      let reach : add32 iter.token.block 1 ≤ iter.token.last_block =
        not_behind iter.token.last_block _ _ more in
      let at : (wrapped fs iter).token.block ≡ add32 iter.token.block 1 =
        no_wrap (add32 iter.token.block 1) fs.number_of_blocks
          (subst (λ n. add32 iter.token.block 1 < sub32 n 2) (sym size)
            (omega (arith, reach, last, w.end)))
          (omega (arith, reach, last, w.small)) in
      record {
        moved = omega (arith, at, step, a.moved, a.low);
        inside = omega (arith, at, reach, last);
        low = omega arith;
      }

  wrapped-Goes :
      (rounds left : ℕ) (fs : Fs D) (iter : Iter)
      → Going (suc rounds) left (fs, iter)
      → iterator_done (at_next iter) ≡ false
      → (ltb 0 config.max_blocks && next_left left == 0) ≡ false
      → Place (wrapped fs iter).token.block 0
      → Going rounds (next_left left) (fs, wrapped fs iter)
  unfolding iterator_done
  wrapped-Goes rounds left fs iter g more below place = from_budget g.blocks g.budget g.bound
    where
      from_budget :
          (blocks : ℕ)
          → Left left (fs, iter) blocks
          → blocks * 700 + (600 - iter.token.offset) < suc rounds
          → Going rounds (next_left left) (fs, wrapped fs iter)
      from_budget blocks (by_limit some now_left small e) h =
          let test : ltb 0 config.max_blocks ≡ true = ground arith in
          let less : next_left left ≡ left - 1 = ground (arith, test) in
          record {
            whole = g.whole;
            kept = g.kept;
            same_size = g.same_size;
            card = g.card;
            seen = g.seen;
            own = g.own;
            reached = place;
            last = g.last;
            ahead = λ w. wrapped-Ahead fs iter g.same_size g.last w (g.ahead w) more;
            blocks = left - 1;
            budget = by_limit some (ground (arith, below, test, less)) (omega (arith, less)) less;
            bound = omega arith;
          }
      from_budget blocks (by_token none_set is within small) h =
          let step : add32 iter.token.block 1 ≡ iter.token.block + 1 = omega (arith, is, small) in
          let reach : add32 iter.token.block 1 ≤ iter.token.last_block =
            not_behind iter.token.last_block _ _ more in
          let at : (wrapped fs iter).token.block ≡ add32 iter.token.block 1 =
            no_wrap (add32 iter.token.block 1) fs.number_of_blocks (omega (arith, reach, within))
              (omega (arith, reach, small)) in
          record {
            whole = g.whole;
            kept = g.kept;
            same_size = g.same_size;
            card = g.card;
            seen = g.seen;
            own = g.own;
            reached = place;
            last = g.last;
            ahead = λ w. wrapped-Ahead fs iter g.same_size g.last w (g.ahead w) more;
            blocks = blocks - 1;
            budget = by_token none_set (omega (arith, is, step, reach, at)) within small;
            bound = omega (arith, is, step, reach);
          }

  pub pass_block-Ends :
      (started rounds left : ℕ) (fs : Fs D) (iter : Iter)
      → Going (suc rounds) left (fs, iter)
      → Place (add32 iter.token.block 1) 0
      → Ends (Outcome rounds) (λ _. ⊥) (pass_block p config started left (fs, iter))
  unfolding pass_block
  pass_block-Ends started rounds left fs iter g place =
      Ends-choose (Outcome rounds) _ (iterator_done (at_next iter)) _ _
        (λ done. record { stopped = at_end place done; kept = g.kept })
        λ more.
          Ends-bind_sure
            (λ (late : Bool) s'.
              Clock (fs, wrapped fs iter) s' × (late ≡ true → 0 < config.max_time))
            _ _ (time_reached p config started) _ (fs, wrapped fs iter)
            (time_reached-Ends p content disk config start started (fs, wrapped fs iter))
            λ late s' (t, timed).
              by_limits (ltb 0 config.max_blocks && next_left left == 0) late s' t timed refl more
    where
      by_limits :
          (b late : Bool) (s' : State p)
          → Clock (fs, wrapped fs iter) s'
          → (late ≡ true → 0 < config.max_time)
          → (ltb 0 config.max_blocks && next_left left == 0) ≡ b
          → iterator_done (at_next iter) ≡ false
          → Outcome rounds (if b || late then finish false else again (next_left left)) s'
      by_limits true late s' t timed e more = record {
        stopped = limited (inl (ground (arith, e)));
        kept = ap (λ (x : State p). x.0.header) t.same ∙ g.kept;
      }
      by_limits false true s' t timed e more = record {
        stopped = limited (inr (timed refl));
        kept = ap (λ (x : State p). x.0.header) t.same ∙ g.kept;
      }
      by_limits false false s' t timed e more =
          ticked-Goes p content disk config start rounds (next_left left) (fs, wrapped fs iter) s' t
            (wrapped-Goes rounds left fs iter g more e (wrapped-Reached fs iter g.same_size place))
