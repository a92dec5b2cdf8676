-- ===== src/Raw/Table/Find/Miss.antt =====
-- The search of `find_by_hash_impl` (src/raw/overflow_table.rs) for a key that is not in the table.
use optimap.Prelude.{
  ℕ, zero, suc, ◌+◌, ◌≤◌, ◌<◌, ◌≡◌, true, false, none, ap, ◌∙◌, arith, Option-cases, Bool-cases,
  inl, inr,
}
use optimap.Raw.Key.{Key}
use optimap.Raw.Layout.{Layout, IsLayout}
use optimap.Raw.Layout.Memory.{has_at}
use optimap.Raw.Run.{done, spin}
use optimap.Raw.Table.{Table, group_index}
use optimap.Raw.Table.Walk.{walk, walk_start, walk-le, walk_onto}
use optimap.Raw.Table.Find.{match_in_group, find_loop, find_by_hash}
use optimap.Raw.Table.Find.Laws.{step_stop, step_next, no_rounds, match-Holds}
use optimap.Raw.Table.Inv.{Absent, IsSound}
use optimap.Raw.Tag.{tag}

module _ {ℓ} {K V : Type ℓ} ⦃key : Key K⦄ (l : Layout) (ok : IsLayout l) (t : Table K V)
    (s : IsSound l t) (k : K) (gone : Absent l t k) where
  -- It meets no match.
  match_absent :
      (i : ℕ)
      → match_in_group l t
          (tag l.feature l.tag_kind (key.hash k))
          (key.equal k)
          (walk l t (key.hash k) i)
        ≡ none
  match_absent i =
      let hash = key.hash k in
      let g = walk l t hash i in
      elim (Option-cases (match_in_group l t (tag l.feature l.tag_kind hash) (key.equal k) g)) [
        | inl m ↦ m
        | inr (sj, m) ↦
            let (v, p, b) = match-Holds l ok t k g sj m in
            absurd (gone g sj v (walk-le l t s.exponent s.groups s.small hash i, p) b)
      ]

  find_loop_miss :
      (d i f : ℕ)
      → has_at l t.mask t.ctrl (walk l t (key.hash k) (i + d)) (key.hash k) ≡ false
      → d < f
      → find_loop l t (key.hash k) (key.equal k) f (walk l t (key.hash k) i) i ≡ done none
  find_loop_miss d i zero off p = absurd (omega arith)
  find_loop_miss zero i (suc f) off p =
      let e : i + 0 ≡ i = omega arith in
      step_stop l ok t (key.hash k) (key.equal k) f i (match_absent i) (rw e at off)
  find_loop_miss (suc d) i (suc f) off p =
      let hash = key.hash k in
      elim (Bool-cases (has_at l t.mask t.ctrl (walk l t hash i) hash)) [
        | inr stop ↦ step_stop l ok t hash (key.equal k) f i (match_absent i) stop
        | inl on ↦
            let e : i + suc d ≡ suc i + d = omega arith in
            step_next l ok t hash (key.equal k) f i (match_absent i) on
            ∙ find_loop_miss d (suc i) f (rw e at off) (omega arith)
      ]

  -- In a sound table the search for an absent key ends, and returns nothing, if some group of the
  -- table does not have the overflow bit of the key's hash.
  pub find_by_hash-miss :
      (g : ℕ)
      → g ≤ t.mask
      → has_at l t.mask t.ctrl g (key.hash k) ≡ false
      → find_by_hash l t (key.hash k) (key.equal k) ≡ done none
  unfolding find_by_hash
  find_by_hash-miss g p off =
      let (j, q, e) = walk_onto l t s.exponent s.groups s.small (key.hash k) g p in
      rw (← walk_start l t (key.hash k)) (
        find_loop_miss j 0 (t.mask + 1)
          (ap (λ x. has_at l t.mask t.ctrl x (key.hash k))
              (ap (walk l t (key.hash k)) (omega arith) ∙ e)
            ∙ off)
          (omega arith))

  find_loop-spin_from :
      ((g : ℕ) → g ≤ t.mask → has_at l t.mask t.ctrl g (key.hash k) ≡ true)
      → (f i : ℕ) → find_loop l t (key.hash k) (key.equal k) f (walk l t (key.hash k) i) i ≡ spin
  find_loop-spin_from full zero i = no_rounds l ok t (key.hash k) (key.equal k) _ i
  find_loop-spin_from full (suc f) i =
      step_next l ok t (key.hash k) (key.equal k) f i (match_absent i)
        (full _ (walk-le l t s.exponent s.groups s.small (key.hash k) i))
      ∙ find_loop-spin_from full f (suc i)

  -- In a sound table in which every group has the overflow bit of the key's hash, the search for an
  -- absent key is not over after any number of rounds.
  pub find_loop-spin :
      ((g : ℕ) → g ≤ t.mask → has_at l t.mask t.ctrl g (key.hash k) ≡ true)
      → (f : ℕ) → find_loop l t (key.hash k) (key.equal k) f (group_index l t (key.hash k)) 0 ≡ spin
  find_loop-spin full f = rw (← walk_start l t (key.hash k)) (find_loop-spin_from full f 0)
