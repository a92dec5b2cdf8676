-- ===== src/Tomb/Search.antt =====
-- The search of a tombstone table, `find_by_hash` of src/in_place_overflow/raw/mod.rs.
use optimap.Prelude.{
  ℕ, zero, suc, ◌+◌, ◌≤◌, ◌<◌, ◌==◌, ◌≡◌, ◌≢◌, Bool, true, false, Option, none, some, refl, sym, ap,
  ◌∙◌, arith, Bool-cases, Option-cases, inl, inr, ==_iff, subst,
}
use native.Mathlib.Decide.{ℕ_discrete, dec_lt}
use optimap.Raw.Bitmask.{to_list, any_set, lowest_set_bit}
use optimap.Raw.Group.{first_where}
use optimap.Raw.Group.Slots.{first_where-eq-some, first_where-eq-none}
use optimap.Raw.Key.{Key}
use optimap.Raw.Run.{Returns}
use optimap.Raw.Tag.{TombstoneKind, reduced_hash}
use optimap.Tomb.{Table, group_size, meta_ptr}
use optimap.Tomb.Find.{key_test, match_in_group, find_loop, find_by_hash}
use optimap.Tomb.Group.{
  match_byte, match_empty, to_list-match_byte, lowest-some, lowest-none, any_set-lowest,
  any_set-some,
}
use optimap.Tomb.Inv.{
  cell, tag_at, InTable, Full, Absent, walk, IsPlaced, walk_step, walk_start, walk-le, walk_onto,
}

module _ {ℓ} {K V : Type ℓ} (t : Table K V) where
  -- No slot of the group holds a pair of the key.
  abbrev pub NoKey : K → ℕ → Type ℓ
  NoKey k gi = (si : ℕ) (v : V) → si < group_size → cell t gi si ≢ some (k, v)

  -- What a search for the key may return.
  abbrev pub Found : K → Option (ℕ × ℕ) → Type ℓ
  Found k none = Absent t k
  Found k (some (gi, si)) = InTable t gi si × ((v : V) × (cell t gi si ≡ some (k, v)))

  -- An EMPTY slot of the table.
  abbrev pub HasEmpty : Type 0
  HasEmpty = (gi : ℕ) × (si : ℕ) × InTable t gi si × (tag_at t gi si ≡ 0)

  -- A group without EMPTY slots, or with one.
  pub not_any-Full : (gi : ℕ) → any_set (match_empty t.ctrl (meta_ptr gi)) ≡ false → Full t gi
  unfolding match_empty
  not_any-Full gi h = lowest-none t.ctrl (meta_ptr gi) 0 (any_set-lowest _ h)

  pub lowest_empty-none :
      (gi : ℕ) → lowest_set_bit (match_empty t.ctrl (meta_ptr gi)) ≡ none → Full t gi
  unfolding match_empty
  lowest_empty-none gi h = lowest-none t.ctrl (meta_ptr gi) 0 h

  pub lowest_empty-some :
      (gi si : ℕ)
      → lowest_set_bit (match_empty t.ctrl (meta_ptr gi)) ≡ some si
      → (si < group_size) × (tag_at t gi si ≡ 0)
  unfolding match_empty
  lowest_empty-some gi si h = lowest-some t.ctrl (meta_ptr gi) 0 si h

  pub any-empty :
      (gi : ℕ)
      → any_set (match_empty t.ctrl (meta_ptr gi)) ≡ true
      → (si : ℕ) × (si < group_size) × (tag_at t gi si ≡ 0)
  any-empty gi h =
      let (si, e) = any_set-some _ h in let (a, b) = lowest_empty-some gi si e in (si, a, b)

  -- An EMPTY slot is not in a full group.
  pub still_ahead :
      (h i j si : ℕ)
      → Full t (walk t h i)
      → si < group_size
      → tag_at t (walk t h j) si ≡ 0
      → i ≤ j
      → suc i ≤ j
  still_ahead h i j si full p e le = elim (ℕ_discrete i j) [
    | yes same ↦ absurd (full si p (ap (λ x. tag_at t (walk t h x) si) same ∙ e))
    | no ne ↦ omega arith
  ]

module _ {ℓ} {K V : Type ℓ} (tag : TombstoneKind) ⦃key : Key K⦄ (t : Table K V) where
  key_test-true :
      (eq : K → Bool) (gi si : ℕ)
      → key_test tag t eq gi si ≡ true
      → (k : K) × (v : V) × (cell t gi si ≡ some (k, v)) × (eq k ≡ true)
  unfolding key_test
  key_test-true eq gi si h = elim (Option-cases (cell t gi si)) [
    | inl e ↦ cc (rw (e, key_test) at h)
    | inr ((k, v), e) ↦ (k, v, e, rw (e, key_test) at h)
  ]

  -- A slot that the matching of a group stops at holds the key.
  pub match-some :
      (k : K) (reduced gi si : ℕ)
      → first_where
          (to_list (match_byte t.ctrl (meta_ptr gi) reduced))
          (key_test tag t (key.equal k) gi)
        ≡ some si
      → (si < group_size) × ((v : V) × (cell t gi si ≡ some (k, v)))
  match-some k reduced gi si h =
      let (a, b, c) =
        first_where-eq-some group_size (λ i. tag_at t gi i == reduced)
          (key_test tag t (key.equal k) gi) si
          (rw (to_list-match_byte t.ctrl (meta_ptr gi) reduced) at h) in
      let (k', v, e, same) = key_test-true (key.equal k) gi si c in
      (a, (v, e ∙ ap (λ x. some (x, v)) (sym ((key.equal_iff k k').0 same))))

  module _ (s : IsPlaced tag t) (k : K) where
    -- A group in which the matching finds nothing does not hold the key.
    pub match-none :
        (gi : ℕ)
        → gi ≤ t.mask
        → first_where
            (to_list (match_byte t.ctrl (meta_ptr gi) (reduced_hash tag (key.hash k))))
            (key_test tag t (key.equal k) gi)
          ≡ none
        → NoKey t k gi
    unfolding key_test
    match-none gi p h si v q e =
        let same =
          first_where-eq-none group_size (λ i. tag_at t gi i == reduced_hash tag (key.hash k))
            (key_test tag t (key.equal k) gi)
            (rw (to_list-match_byte t.ctrl (meta_ptr gi) (reduced_hash tag (key.hash k))) at h) si q
            ((==_iff _ _).1 (s.tagged gi si k v (p, q) e)) in
        cc (rw (e, key_test) at same, (key.equal_iff k k).1 refl)

    -- The groups of the first `i` rounds are full and do not hold the key.
    abbrev pub Passed : ℕ → Type ℓ
    Passed i = (j : ℕ) → j < i → Full t (walk t (key.hash k) j) × NoKey t k (walk t (key.hash k) j)

    pub Passed-zero : Passed 0
    Passed-zero j p = absurd (omega arith)

    pub Passed-step :
        (i : ℕ)
        → Passed i
        → Full t (walk t (key.hash k) i)
        → NoKey t k (walk t (key.hash k) i)
        → Passed (suc i)
    Passed-step i passed full missing j p = elim (ℕ_discrete j i) [
      | yes e ↦
          subst (λ x. Full t (walk t (key.hash k) x) × NoKey t k (walk t (key.hash k) x)) (sym e)
            (full, missing)
      | no ne ↦ passed j (omega arith)
    ]

    -- A search that comes to a group with an EMPTY slot has seen all there is of the key.
    pub Passed-Absent :
        (i si : ℕ)
        → Passed i
        → NoKey t k (walk t (key.hash k) i)
        → si < group_size
        → tag_at t (walk t (key.hash k) i) si ≡ 0
        → Absent t k
    Passed-Absent i si passed missing p e v h =
        let r = s.reached h.group h.slot k v h.inside h.pair in
        let at : cell t (walk t (key.hash k) r.steps) h.slot ≡ some (k, v) =
          ap (λ g. cell t g h.slot) r.arrives ∙ h.pair in
        elim (dec_lt r.steps i) [
          | yes lt ↦ (passed r.steps lt).1 h.slot v h.inside.1 at
          | no ge ↦ elim (ℕ_discrete r.steps i) [
            | yes same ↦
                missing h.slot v h.inside.1
                  (ap (λ x. cell t (walk t (key.hash k) x) h.slot) (sym same) ∙ at)
            | no ne ↦ r.path i (omega arith) si p e
          ]
        ]

    -- With an EMPTY slot in the group of round `j`, still ahead, the loop ends.
    find_loop-Found :
        (i f j si : ℕ)
        → Passed i
        → i ≤ j
        → j < i + f
        → si < group_size
        → tag_at t (walk t (key.hash k) j) si ≡ 0
        → Returns
            (find_loop tag t (key.hash k) (key.equal k) f (walk t (key.hash k) i) i)
            (Found t k)
    unfolding find_loop match_in_group
    find_loop-Found i zero j si passed lo hi q e = absurd (omega arith)
    find_loop-Found i (suc f) j si passed lo hi q e =
        let h = key.hash k in
        let g = walk t h i in
        let inside = walk-le t s.exponent s.groups s.small h i in
        elim (Option-cases (match_in_group tag t (reduced_hash tag h) (key.equal k) g)) [
          | inr (sj, m) ↦
              let (a, b) = match-some k (reduced_hash tag h) g sj m in
              (some (g, sj), rw (m, find_loop) refl, ((inside, a), b))
          | inl m ↦
              let missing = match-none g inside m in
              elim (Bool-cases (any_set (match_empty t.ctrl (meta_ptr g)))) [
                | inl z ↦
                    let (sj, a, b) = any-empty t g z in
                    (none, rw (m, z, find_loop) refl, Passed-Absent i sj passed missing a b)
                | inr z ↦
                    let full = not_any-Full t g z in
                    let (r, run, found) =
                      find_loop-Found (suc i) f j si (Passed-step i passed full missing)
                        (still_ahead t h i j si full q e lo) (omega arith) q e in
                    (
                      r,
                      rw (m, z, walk_step t h i, find_loop)
                          (ap (find_loop tag t h (key.equal k) f (walk t h (suc i))) (omega arith)
                            ∙ run),
                      found,
                    )
              ]
        ]

    -- While the table has an EMPTY slot, a search ends: at a slot with the key, or with none when
    -- the table does not hold the key.
    pub find_by_hash-Found :
        HasEmpty t → Returns (find_by_hash tag t (key.hash k) (key.equal k)) (Found t k)
    unfolding find_by_hash
    find_by_hash-Found (gi, si, inside, e) =
        let (j, q, at) = walk_onto t s.exponent s.groups s.small (key.hash k) gi inside.0 in
        rw (← walk_start t (key.hash k)) (
          find_loop-Found 0 (t.mask + 1) j si Passed-zero (omega arith) (omega arith) inside.1
            (ap (λ g. tag_at t g si) at ∙ e))
