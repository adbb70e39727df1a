-- ===== src/Sd/Timed/Version.antt =====
-- The version and the type of a card, on a bus with a clock that goes on.
use fkfs.Base.{
  Bool, ℕ, ◌≤◌, ◌≡◌, ◌⊎◌, inl, inr, refl, sym, subst, ap, ◌∙◌, arith, false, true, not, ◌==◌,
  ==_iff, bit_and, if◌then◌else◌,
}
use fkfs.Exec.{pure}
use fkfs.Exec.Ends.{
  Ends, Ends-gets, Ends-modify, Ends-mono, Ends-cases, Ends-bind_sure, Ends-then_sure,
}
use fkfs.Sd.{Sd, Bus, Device, type_sd1, type_sd2, type_sdhc, has_bits}
use fkfs.Sd.Spi.{set_type, transfer, skip, command}
use fkfs.Sd.Init.{read_r7, check_version, read_ocr}
use fkfs.Sd.Command
use fkfs.Sd.Error
use fkfs.Sd.Timed.{Clock, Pins, transfer-Ends, skip-Ends}
use fkfs.Sd.Timed.Talk.{command-Ends}
use fkfs.Sd.Timed.Faults.{Quiet, error_if-Ends}
use fkfs.Sd.Timed.Retries.{Going, Settled, halted, go_on, keep_on}

module _ {B : Type 0} (p : Bus B) (time : B → ℕ) (c : Clock p time) (level : B → ℕ → Bool)
    (pins : Pins p level) where
  read_r7-Ends :
      (d : Device B) → Ends (λ _ e. Quiet p time c level pins 0 40000000 d e) (λ _. ⊥) (read_r7 p d)
  unfolding read_r7
  read_r7-Ends d = Ends-then_sure _ _ _ (skip p 3) _ d (skip-Ends p time c 3 d) λ e (k, is_e).
      Ends-bind_sure _ _ _ (transfer p 255) _ e (transfer-Ends p time c 255 e) λ byte f (j, is_f).
        Ends-modify _ _ _ _ f (record {
          took = record { after = omega arith; before = omega arith };
          same = ap (λ (x : Sd). record x { status = byte }) (is_f ∙ is_e);
        })

  pub check_version-Ends :
      (fuel start pin : ℕ) (d : Device B)
      → 3020000 ≤ fuel
      → Going p time c level pins start 30000000000 pin d
      → Ends
          (λ _ e.
            Going p time c level pins start 50000000000 pin e × ((e.sd.type ≡ 1) ⊎ (e.sd.type ≡ 2)))
          (λ e. Settled p time c level pins pin e × (e.sd.status ≡ Error.cmd8))
          (check_version p fuel d)
  unfolding check_version
  check_version-Ends fuel start pin d enough g =
      Ends-bind_sure _ _ _ (command p fuel Command.cmd8 0x1aa) _ d
        (command-Ends p time c level pins fuel Command.cmd8 0x1aa d enough)
        λ answer e (t, _).
          let h : Going p time c level pins start 40000000000 pin e =
            go_on p time c level pins g t (omega arith) in
          Ends-cases _ _ (has_bits answer Command.r1_illegal_command) _ _ e
            (λ old. (
              record {
                since = omega (arith, h.since);
                near = omega (arith, h.near);
                cs = h.cs;
                closed = h.closed;
              },
              inl refl,
            ))
            (λ new. Ends-bind_sure _ _ _ (read_r7 p) _ e (read_r7-Ends e) λ echo f q.
              let i : Going p time c level pins start 50000000000 pin f =
                keep_on p time c level pins h q.took (ap (λ (x : Sd). x.cs) q.same)
                  (ap (λ (x : Sd). x.in_block) q.same) (omega arith) in
              error_if-Ends p time c level pins _ _ (not (echo == 0xAA)) Error.cmd8 _ f
                (λ right. (
                  record {
                    since = omega (arith, i.since);
                    near = omega (arith, i.near);
                    cs = i.cs;
                    closed = i.closed;
                  },
                  inr refl,
                ))
                (λ z r. (halted p time c level pins i r, r.status)))

  -- What the set-up ends with: a card of one of the three types, and no block open.
  pub record Known (start limit pin : ℕ) (d : Device B) : Type 0 where
    pub going : Going p time c level pins start limit pin d
    pub type : (d.sd.type ≡ type_sd1) ⊎ (d.sd.type ≡ type_sd2) ⊎ (d.sd.type ≡ type_sdhc)

  set_sdhc-Ends :
      (start pin : ℕ) (d : Device B)
      → Going p time c level pins start 109000000000 pin d
      → (d.sd.type ≡ type_sd1) ⊎ (d.sd.type ≡ type_sd2) ⊎ (d.sd.type ≡ type_sdhc)
      → (b : Bool)
      → Ends
          (λ _ e. Known start 109000000000 pin e)
          (λ _. ⊥)
          ((if b then set_type type_sdhc else pure tt) d)
  set_sdhc-Ends start pin d g three true = record {
    going = record { since = g.since; near = g.near; cs = g.cs; closed = g.closed };
    type = inr (inr refl);
  }
  set_sdhc-Ends start pin d g three false = record { going = g; type = three }

  pub read_ocr-Ends :
      (fuel start pin : ℕ) (d : Device B)
      → 3020000 ≤ fuel
      → Going p time c level pins start 100000000000 pin d
      → (d.sd.type ≡ type_sd1) ⊎ (d.sd.type ≡ type_sd2)
      → Ends
          (λ _ e. Known start 110000000000 pin e)
          (λ e. Settled p time c level pins pin e × (e.sd.status ≡ Error.cmd58))
          (read_ocr p fuel d)
  unfolding read_ocr
  read_ocr-Ends fuel start pin d enough g either = Ends-gets _ _ _ _ d (
      Ends-cases _ _ (d.sd.type == type_sd2) _ _ d
        (λ second.
          Ends-bind_sure _ _ _ (command p fuel Command.cmd58 0) _ d
            (command-Ends p time c level pins fuel Command.cmd58 0 d enough)
            λ answer e (t, _).
              let h : Going p time c level pins start 108000000000 pin e =
                go_on p time c level pins g t (omega arith) in
              error_if-Ends p time c level pins _ _ (not (answer == 0)) Error.cmd58 _ e
                (λ accepted.
                  Ends-bind_sure _ _ _ (transfer p 255) _ e (transfer-Ends p time c 255 e)
                    λ byte f (k, is_f).
                      let i : Going p time c level pins start 109000000000 pin f =
                        keep_on p time c level pins h k (ap (λ (x : Sd). x.cs) is_f)
                          (ap (λ (x : Sd). x.in_block) is_f) (omega arith) in
                      let same_type : f.sd.type ≡ type_sd2 =
                        ap (λ (x : Sd). x.type) is_f
                        ∙ t.type
                        ∙ (==_iff d.sd.type type_sd2).0 second in
                      Ends-then_sure (λ _ z. Known start 109000000000 pin z) _ _
                        (if bit_and byte 0xc0 == 0xc0 then set_type type_sdhc else pure tt) _ f
                        (set_sdhc-Ends start pin f i (inr (inl same_type))
                          (bit_and byte 0xc0 == 0xc0))
                        λ z w.
                          Ends-mono _ _ _ _ (skip p 3 z) (skip-Ends p time c 3 z)
                            (λ _ y (j, is_y). record {
                              going =
                                  keep_on p time c level pins w.going j (ap (λ (x : Sd). x.cs) is_y)
                                    (ap (λ (x : Sd). x.in_block) is_y) (omega arith);
                              type =
                                  subst
                                    (λ (n : ℕ). (n ≡ type_sd1) ⊎ (n ≡ type_sd2) ⊎ (n ≡ type_sdhc))
                                    (sym (ap (λ (x : Sd). x.type) is_y)) w.type;
                            })
                            (λ _ none. absurd none))
                (λ z r. (halted p time c level pins h r, r.status)))
        (λ first. record {
          going = record {
            since = g.since;
            near = omega (arith, g.near);
            cs = g.cs;
            closed = g.closed;
          };
          type = elim either [ inl h ↦ inl h | inr h ↦ inr (inl h) ];
        }))
