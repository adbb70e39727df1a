-- ===== src/Fs/Iterator/Ticks.antt =====
-- The readings of the clock in `fkfs_file_iterate`: they change nothing that the scan reads.
use fkfs.Base.{ℕ, ◌<◌, ◌≡◌, Bool, true, refl, ltb, ltb→lt, arith, sym, subst, List, ◌∙◌}
use fkfs.Exec.Ends.{Ends, Ends-bind_sure, Ends-cases}
use fkfs.Platform.{Platform, IsDisk}
use fkfs.Fs.{Fs, sub32}
use fkfs.Fs.Iterator.{Config, Iter, Verdict, State, now, time_reached}
use fkfs.Fs.Iterator.Delivery.{Ticked, Reached, Budget, by_limit, by_token, Goes, Found}

module _ {D : Type 0} (p : Platform D) (content : D → ℕ → List ℕ) (disk : IsDisk p content)
    (config : Config) (start : State p) where
  abbrev Going : ℕ → ℕ → State p → Type 0
  Going rounds left s = Goes p content config start rounds left s

  abbrev Left : ℕ → State p → ℕ → Type 0
  Left left s blocks = Budget p content config start left s blocks

  abbrev Outcome : ℕ → Verdict → State p → Type 0
  Outcome rounds verdict s = Found p content config start rounds verdict s

  abbrev Place : ℕ → ℕ → Type 0
  Place block offset = Reached p content config start block offset

  abbrev Clock : State p → State p → Type 0
  Clock s s' = Ticked p content s s'

  pub resized-Budget :
      {left blocks : ℕ} (fs fs' : Fs D) (iter : Iter)
      → fs'.number_of_blocks ≡ fs.number_of_blocks
      → Left left (fs, iter) blocks
      → Left left (fs', iter) blocks
  resized-Budget fs fs' iter e (by_limit some remain small is) = by_limit some remain small is
  resized-Budget fs fs' iter e (by_token unset is within small) =
      by_token unset is (subst (λ n. iter.token.last_block < sub32 n 2) (sym e) within) small

  pub now-Ends : (s : State p) → Ends (λ (t : ℕ) s'. Clock s s') (λ _. ⊥) (now p s)
  unfolding now
  now-Ends (fs, iter) = record {
    sd = (p.millis fs.sd).1;
    same = refl;
    card = λ j. disk.millis_keeps j fs.sd;
  }

  pub ticked-Goes :
      (rounds left : ℕ) (s s' : State p) → Clock s s' → Going rounds left s → Going rounds left s'
  ticked-Goes rounds left s s' t g =
      subst (λ (x : State p). Going rounds left x) (sym t.same)
        (record {
          whole = g.whole;
          kept = g.kept;
          same_size = g.same_size;
          card = λ j. t.card j ∙ g.card j;
          seen = g.seen;
          own = g.own;
          reached = g.reached;
          last = g.last;
          ahead = g.ahead;
          blocks = g.blocks;
          budget = resized-Budget s.0 (record s.0 { sd = t.sd }) s.1 refl g.budget;
          bound = g.bound;
        })

  pub time_reached-Ends :
      (started : ℕ) (s : State p)
      → Ends
          (λ (late : Bool) s'. Clock s s' × (late ≡ true → 0 < config.max_time))
          (λ _. ⊥)
          (time_reached p config started s)
  unfolding time_reached
  time_reached-Ends started s =
      Ends-cases _ _ (ltb 0 config.max_time) _ _ s
        (λ some.
          Ends-bind_sure _ _ _ (now p) _ s (now-Ends s)
            λ t s' k. (k, λ _. ltb→lt 0 config.max_time some))
        (λ any.
          (record { sd = s.0.sd; same = refl; card = λ j. refl }, λ h. absurd (ground (arith, h))))
