-- ===== src/Raw/Transfer/Moved.antt =====
-- What the loops of `rehash_with` (src/in_place_overflow/raw/mod.rs) have moved when they come to a
-- slot.
use optimap.Prelude.{
  ℕ, zero, suc, ◌+◌, ◌≤◌, ◌<◌, ◌≡◌, ◌⊎◌, Bool, Option, none, some, List, [], ◌∷◌, refl, sym, ap,
  ◌∙◌, arith, inl, inr, Option-cases, some_pair, none-ne-some, subst,
}
use mathlib.Core.Path.{ap₂}
use native.Mathlib.Decide.{ℕ_discrete}
use optimap.Prelude.Tally.{
  tally, tally_before, tally_before-le, tally_before-step, tally_before-gap, tally_before-all,
  tally_before-start,
}
use optimap.Raw.Group.Scan.{Scan, Scan-widen}
use optimap.Raw.Run.{Run, Returns, ◌>>=◌}
use optimap.Raw.Table.Inv.{is_live}
use optimap.Raw.Transfer.{
  transfer_slots, transfer_groups, Before, Before-cases, Before-later, Before-next, Before-split,
  Before-self,
}

-- The pairs of `r` are those of `u` and the new pair.
pub record Added {ℓ} {K V U : Type ℓ} (Has : U → K → V → Type ℓ) (u r : U) (k : K) (v : V)
    : Type ℓ where
  pub new : Has r k v
  pub old : (x : K) (y : V) → Has u x y → Has r x y
  pub cases : (x : K) (y : V) → Has r x y → ((k ≡ x) × (v ≡ y)) ⊎ Has u x y

module _ {ℓ} {K V U : Type ℓ} (cells : ℕ → ℕ → Option (K × V)) (n w : ℕ) (Has : U → K → V → Type ℓ)
    (Good : U → ℕ → Type ℓ) where
  abbrev is_pair : ℕ → ℕ → Bool
  is_pair g s = is_live (cells g s)

  -- `u` holds the pairs that stand before slot `b` of group `gi`.
  pub record Moved (u : U) (gi b : ℕ) : Type ℓ where
    pub good : Good u (tally_before w is_pair gi b)
    pub from :
        (x : K) (y : V)
        → Has u x y
        → (gj : ℕ) × (sj : ℕ) × (gj < n)
          × (sj < w)
          × Before gi b gj sj
          × (cells gj sj ≡ some (x, y))
    pub into :
        (gj sj : ℕ) (x : K) (y : V)
        → gj < n
        → sj < w
        → Before gi b gj sj
        → cells gj sj ≡ some (x, y)
        → Has u x y

  -- Nothing has been moved into a table without pairs.
  pub Moved-start : (u : U) → Good u 0 → ((x : K) (y : V) → Has u x y → ⊥) → Moved u 0 0
  Moved-start u good gone = record {
    good = subst (Good u) (sym (tally_before-start w is_pair)) good;
    from = λ x y h. absurd (gone x y h);
    into = λ gj sj x y p q before e. absurd (none_before before);
  }
    where
      none_before : {gj sj : ℕ} → Before 0 0 gj sj → ⊥
      none_before (inl r) = absurd (omega arith)
      none_before (inr (r, z)) = absurd (omega arith)

  module _
      (once : (gi si gj sj : ℕ) (k : K) (v y : V)
        → gi < n
        → si < w
        → gj < n
        → sj < w
        → cells gi si ≡ some (k, v)
        → cells gj sj ≡ some (k, y)
        → (gi ≡ gj) × (si ≡ sj))
      (insert : U → K → V → Run U)
      (step : (u : U) (k : K) (v : V) (m : ℕ)
        → Good u m
        → m < tally n w is_pair
        → ((y : V) → Has u k y → ⊥)
        → Returns (insert u k v) (λ r. Good r (m + 1) × Added Has u r k v)) where
    module _ (u : U) (gi b x : ℕ) (k : K) (v : V) (mv : Moved u gi b) (p : gi < n) (lo : b ≤ x)
        (hi : x < w) (gap : (j : ℕ) → b ≤ j → j < x → cells gi j ≡ none)
        (e : cells gi x ≡ some (k, v)) where
      -- The next pair is not yet in the new table.
      next_gone : (y : V) → Has u k y → ⊥
      next_gone y h =
          let (gj, sj, a, c, before, f) = mv.from k y h in
          let (same, at) = once gj sj gi x k y v a c p hi f e in
          Before-self gi x gj sj same at (later before)
        where
          later : {gj sj : ℕ} → Before gi b gj sj → Before gi x gj sj
          later (inl r) = inl r
          later (inr (r, z)) = inr (r, omega arith)

      counts : tally_before w is_pair gi (suc x) ≡ tally_before w is_pair gi b + 1
      counts =
          tally_before-step w is_pair gi b x lo (λ j y z. ap is_live (gap j y z)) (ap is_live e)

      Moved-after :
          (r : U)
          → Good r (tally_before w is_pair gi b + 1)
          → Added Has u r k v
          → Moved r gi (suc x)
      Moved-after r good added = record {
        good = subst (Good r) (sym counts) good;
        from = λ y z h. elim (added.cases y z h) [
          | inl (a, c) ↦ (gi, x, p, hi, inr (refl, omega arith), e ∙ ap₂ (λ y z. some (y, z)) a c)
          | inr h' ↦
              let (gj, sj, a, c, before, f) = mv.from y z h' in
              (gj, sj, a, c, Before-later gi b x gj sj lo before, f)
        ];
        into = λ gj sj y z q c before f. elim (Before-cases gi b x gj sj before) [
          | inl before' ↦ added.old y z (mv.into gj sj y z q c before' f)
          | inr (inl (a, d)) ↦
              let (same, at) = some_pair (sym e ∙ (ap₂ cells (sym a) (sym d) ∙ f)) in
              subst (λ o. Has r y o) at (subst (λ o. Has r o v) same added.new)
          | inr (inr (a, d, d')) ↦
              absurd (none-ne-some (sym (gap sj d d') ∙ (ap (λ g. cells g sj) (sym a) ∙ f)))
        ];
      }

      move_next : Returns (insert u k v) (λ r. Moved r gi (suc x))
      move_next =
          let (r, run, (good, added)) =
            step u k v (tally_before w is_pair gi b) mv.good
              (omega (arith, counts, tally_before-le w is_pair n gi (suc x) p hi)) next_gone in
          (r, run, Moved-after r good added)

    -- A group whose remaining slots are dead is done.
    group_done :
        (u : U) (gi b : ℕ)
        → b ≤ w
        → ((j : ℕ) → b ≤ j → j < w → cells gi j ≡ none)
        → Moved u gi b
        → Moved u (suc gi) 0
    group_done u gi b p gap mv = record {
      good =
          subst (Good u) (tally_before-gap w is_pair gi b p (λ j y z. ap is_live (gap j y z)))
            mv.good;
      from = λ x y h.
          let (gj, sj, a, c, before, f) = mv.from x y h in
          (gj, sj, a, c, Before-next gi b gj sj before, f);
      into = λ gj sj x y q c before f. elim (Before-split gi b gj sj before) [
        | inl before' ↦ mv.into gj sj x y q c before' f
        | inr (a, d) ↦ absurd (none-ne-some (sym (gap sj d c) ∙ (ap (λ g. cells g sj) (sym a) ∙ f)))
      ];
    }

    dead_to :
        (gi b x : ℕ)
        → ((j : ℕ) → b ≤ j → j < x → cells gi j ≡ none)
        → cells gi x ≡ none
        → (j : ℕ) → b ≤ j
        → j < suc x
        → cells gi j ≡ none
    dead_to gi b x gap e j y z = elim (ℕ_discrete j x) [
      | yes same ↦ ap (cells gi) same ∙ e
      | no ne ↦ gap j y (omega arith)
    ]

    module _ (slots : ℕ → List ℕ)
        (scans : (gi : ℕ) → gi < n → Scan (λ j. cells gi j ≡ none) w 0 (slots gi)) where
      transfer_slots-Moved :
          (gi b : ℕ) (sis : List ℕ) (u : U)
          → gi < n
          → b ≤ w
          → Scan (λ j. cells gi j ≡ none) w b sis
          → Moved u gi b
          → Returns (transfer_slots cells slots insert gi sis u) (λ r. Moved r (suc gi) 0)
      unfolding transfer_slots
      transfer_slots-Moved gi b [] u p q scan mv = (u, refl, group_done u gi b q scan mv)
      transfer_slots-Moved gi b (x ∷ xs) u p q (lo, hi, gap, rest) mv =
          elim (Option-cases (cells gi x)) [
            | inl e ↦
                let (r, run, mv') =
                  transfer_slots-Moved gi b xs u p q
                    (Scan-widen (λ j. cells gi j ≡ none) w b (suc x) xs (omega arith)
                      (λ j y z. dead_to gi b x gap e j y z) rest)
                    mv in
                (r, rw (e, transfer_slots) run, mv')
            | inr ((k, v), e) ↦
                let (r, run, mv') = move_next u gi b x k v mv p lo hi gap e in
                let (r', run', mv'') = transfer_slots-Moved gi (suc x) xs r p hi rest mv' in
                (r', rw (e, transfer_slots, run, ◌>>=◌) run', mv'')
          ]

      transfer_groups-Moved :
          (m gi : ℕ) (u : U)
          → gi + m ≡ n
          → Moved u gi 0
          → Returns (transfer_groups cells slots insert gi m u) (λ r. Moved r n 0)
      unfolding transfer_groups
      transfer_groups-Moved zero gi u e mv =
          let at : gi ≡ n = omega arith in (u, refl, subst (λ g. Moved u g 0) at mv)
      transfer_groups-Moved (suc m) gi u e mv =
          let (r, run, mv') =
            transfer_slots-Moved gi 0 (slots gi) u (omega arith) (omega arith)
              (scans gi (omega arith)) mv in
          let next : gi + 1 ≡ suc gi = omega arith in
          let (r', run', mv'') = transfer_groups-Moved m (suc gi) r (omega arith) mv' in
          (r', rw (run, ◌>>=◌, next) run', mv'')

      -- All pairs are moved: every insertion ends, and the new table holds exactly the pairs of the
      -- cells.
      pub transfer_groups-all :
          (u : U)
          → Good u 0
          → ((x : K) (y : V) → Has u x y → ⊥)
          → Returns (transfer_groups cells slots insert 0 n u) (λ r.
            Good r (tally n w is_pair)
            × ((x : K) (y : V)
                → Has r x y
                → (gj : ℕ) × (sj : ℕ) × (gj < n) × (sj < w) × (cells gj sj ≡ some (x, y)))
            × ((gj sj : ℕ) (x : K) (y : V)
                → gj < n
                → sj < w
                → cells gj sj ≡ some (x, y)
                → Has r x y))
      transfer_groups-all u good gone =
          let (r, run, mv) = transfer_groups-Moved n 0 u (omega arith) (Moved-start u good gone) in
          (
            r,
            run,
            (
              subst (Good r) (tally_before-all w is_pair n) mv.good,
              λ x y h. let (gj, sj, a, c, before, f) = mv.from x y h in (gj, sj, a, c, f),
              λ gj sj x y p q e. mv.into gj sj x y p q (inl p) e,
            ),
          )
