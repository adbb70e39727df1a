-- ===== src/Fs/Iterator/Round.antt =====
-- `fkfs_file_iterate`: a whole round of its loop.
use fkfs.Base.{
  List, subst, sym, ◌⊎◌, ◌<◌, ℕ, suc, ◌≡◌, ◌≢◌, ◌∙◌, Bool, true, false, refl, Bool-cases, inl, inr,
  ◌==◌, ==_iff, arith, length, ltb, ltb→le,
}
use fkfs.Exec.{Result, ok, failed, fault}
use fkfs.Exec.Ends.{Ends, Ends-choose}
use fkfs.Layout.{Entry}
use fkfs.Platform.{Platform, IsDisk, Reliable}
use fkfs.Fs.{Fs}
use fkfs.Fs.Blocks.{block_ensure}
use fkfs.Fs.Check.{Status, good, bad_size, bad_crc, priority, eob, block_check, entry_at}
use fkfs.Fs.Check.Room.{block_check-available}
use fkfs.Fs.Iterator.{
  Config, Iter, Verdict, finish, State, deliver, pass_entry, pass_block, scan_entry, scan_round,
}
use fkfs.Fs.Iterator.Block.{
  crc-available, only_answers, Pointed, deliver-Pointed, InBuffer, block_ensure-InBuffer,
}
use fkfs.Fs.Iterator.Delivery.{
  Ahead, place, NothingBehind, Seen, over_other, over_broken, to_next, Goes, Found, unreadable,
}
use fkfs.Fs.Iterator.Ticks.{resized-Budget}
use fkfs.Fs.Iterator.Passing.{pass_entry-Ends, pass_block-Ends}

module _ {D : Type 0} (p : Platform D) where
  module _ (behind : NothingBehind p) (content : D → ℕ → List ℕ) (disk : IsDisk p content)
      (config : Config) (start : State p) where
    abbrev Going : ℕ → ℕ → State p → Type 0
    Going rounds left s = Goes p content config start rounds left s

    abbrev Outcome : ℕ → Verdict → State p → Type 0
    Outcome rounds verdict s = Found p content config start rounds verdict s

    abbrev View : ℕ → List ℕ → Type 0
    View block bytes = Seen p content config start block bytes

    in_block :
        (fs : Fs D) (offset : ℕ)
        → length fs.buffer ≡ 512
        → block_check p fs fs.buffer offset ≢ bad_size
        → offset < 512
    in_block fs offset whole entry = elim (Bool-cases (ltb offset 512)) [
      | inl b ↦ ground (arith, b)
      | inr b ↦ absurd (entry (behind.no_entry fs offset whole (ltb→le offset 512 b)))
    ]

    delivered-Ahead :
        (iter : Iter) (entry : Entry) (after : Iter)
        → Ahead p content config start iter
        → Pointed p config entry iter after
        → iter.token.offset < 512
        → entry.available < 512
        → config.manual_next ≡ false
        → Ahead p content config start after
          × (place p content config start start.1 < place p content config start after)
    delivered-Ahead iter entry after a d low few moving =
        let offset = d.offset moving in
        (
          record {
            moved = omega (arith, a.moved, d.block, offset, low, few);
            inside = omega (arith, a.inside, d.block);
            low = omega (arith, offset);
          },
          omega (arith, a.moved, d.block, offset, low, few),
        )

    scan_entry-Ends :
        (started rounds left : ℕ) (fs : Fs D) (iter : Iter)
        → Going (suc rounds) left (fs, iter)
        → fs.cached_block_number ≡ iter.token.block
        → Ends (Outcome rounds) (λ _. ⊥) (scan_entry p config started left (fs, iter))
    unfolding scan_entry
    scan_entry-Ends started rounds left fs iter g cached =
        by_status (block_check p fs fs.buffer iter.token.offset) refl
      where
        view : View iter.token.block fs.buffer
        view = subst (λ n. View n fs.buffer) cached g.seen

        by_status :
            (status : Status)
            → block_check p fs fs.buffer iter.token.offset ≡ status
            → Ends
                (Outcome rounds)
                (λ _. ⊥)
                (elim status as (λ (x : Status). Result Verdict × State p) [
                  | good ↦
                      elim ((entry_at p fs.sd fs.buffer iter.token.offset).file == iter.token.file)
                        as (λ (x : Bool). Result Verdict × State p) [
                          | true ↦ (
                            ok (finish true),
                            (
                              fs,
                              deliver p config (entry_at p fs.sd fs.buffer iter.token.offset) iter,
                            ),
                          )
                          | false ↦
                              pass_entry p left
                                (entry_at p fs.sd fs.buffer iter.token.offset)
                                (fs, iter)
                        ]
                  | bad_crc ↦
                      pass_entry p left (entry_at p fs.sd fs.buffer iter.token.offset) (fs, iter)
                  | _ ↦ pass_block p config started left (fs, iter)
                ])
        by_status good e =
            let here : iter.token.offset < 512 =
              in_block fs iter.token.offset g.whole (λ bad. absurd (ground (arith, e, bad))) in
            let room = block_check-available p fs fs.buffer iter.token.offset e in
            let entry = entry_at p fs.sd fs.buffer iter.token.offset in
            Ends-choose (Outcome rounds) (λ _. ⊥) (entry.file == iter.token.file) _ _
              (λ same. record {
                at = fs;
                block = iter.token.block;
                offset = iter.token.offset;
                reached = g.reached;
                seen = view;
                buffer = refl;
                same_header = g.kept;
                good_entry = e;
                own = (==_iff entry.file iter.token.file).0 same ∙ g.own;
                size = (deliver-Pointed p config entry iter).size;
                pointer = (deliver-Pointed p config entry iter).pointer;
                whole = g.whole;
                kept = g.kept;
                same_size = g.same_size;
                last = (deliver-Pointed p config entry iter).last ∙ g.last;
                ahead = λ w moving.
                    delivered-Ahead iter entry (deliver p config entry iter) (g.ahead w)
                      (deliver-Pointed p config entry iter) here room.1 moving;
              })
              (λ other.
                pass_entry-Ends p content disk config start rounds left fs iter entry g here room.0
                  room.1
                  (over_other iter.token.block iter.token.offset fs g.reached view g.kept e
                    (λ same. absurd (ground (arith, other, same, g.own)))))
        by_status bad_crc e =
            let here : iter.token.offset < 512 =
              in_block fs iter.token.offset g.whole (λ bad. absurd (ground (arith, e, bad))) in
            let room = crc-available p fs iter.token.offset e in
            pass_entry-Ends p content disk config start rounds left fs iter
              (entry_at p fs.sd fs.buffer iter.token.offset) g here room.0 room.1
              (over_broken iter.token.block iter.token.offset fs g.reached view g.kept e)
        by_status bad_size e =
            pass_block-Ends p content disk config start started rounds left fs iter g
              (to_next iter.token.block iter.token.offset fs g.reached view g.kept e)
        by_status priority e = absurd (ground (arith, only_answers p fs iter.token.offset _ e))
        by_status eob e = absurd (ground (arith, only_answers p fs iter.token.offset _ e))

    buffered-Goes :
        (rounds left : ℕ) (fs b : Fs D) (iter : Iter)
        → InBuffer p content disk iter.token.block fs b
        → Going rounds left (fs, iter)
        → Going rounds left (b, iter)
    buffered-Goes rounds left fs b iter e g = record {
      whole = e.whole;
      kept = e.header ∙ g.kept;
      same_size = e.blocks ∙ g.same_size;
      card = λ j. e.card j ∙ g.card j;
      seen = subst (λ n. View n b.buffer) (sym e.cached) (viewed e.buffer);
      own = g.own;
      reached = g.reached;
      last = g.last;
      ahead = g.ahead;
      blocks = g.blocks;
      budget = resized-Budget p content disk config start fs b iter e.blocks g.budget;
      bound = g.bound;
    }
      where
        viewed :
            (b.buffer ≡ content fs.sd iter.token.block)
              ⊎ ((fs.cached_block_number ≡ iter.token.block) × (b.buffer ≡ fs.buffer))
            → View iter.token.block b.buffer
        viewed (inl loaded) = inl (loaded ∙ g.card iter.token.block)
        viewed (inr (is, same)) =
            subst (λ bytes. View iter.token.block bytes) (sym same)
              (subst (λ n. View n fs.buffer) is g.seen)

    pub scan_round-Ends :
        (started rounds left : ℕ) (s : State p)
        → Going (suc rounds) left s
        → Ends (Outcome rounds) (λ _. ⊥) (scan_round p config started left s)
    unfolding scan_round
    scan_round-Ends started rounds left (fs, iter) g =
        by_ensured (block_ensure p iter.token.block fs)
          (block_ensure-InBuffer p content disk iter.token.block fs g.whole)
      where
        by_ensured :
            (r : Result (Unit {0}) × Fs D)
            → Ends
                (λ _ b. InBuffer p content disk iter.token.block fs b)
                (λ b. (¬ Reliable p) × (b.header ≡ fs.header))
                r
            → Ends
                (Outcome rounds)
                (λ _. ⊥)
                (elim r.0 as (λ (x : Result (Unit {0})). Result Verdict × State p) [
                  | ok _ ↦ scan_entry p config started left (r.1, iter)
                  | failed ↦ (ok (finish false), (r.1, iter))
                  | fault e ↦ (fault e, (r.1, iter))
                ])
        by_ensured (ok a, b) e =
            scan_entry-Ends started rounds left b iter
              (buffered-Goes (suc rounds) left fs b iter e g) e.cached
        by_ensured (failed, b) (u, same) = record { stopped = unreadable u; kept = same ∙ g.kept }
        by_ensured (fault x, b) e = e
