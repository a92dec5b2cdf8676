-- ===== src/Raw/Table/Find/Laws.antt =====
-- The search of `find_by_hash_impl` (src/raw/overflow_table.rs) for a key that is in the table, and
-- what its results say.
use optimap.Prelude.{
  ℕ, zero, suc, ◌+◌, ◌≤◌, ◌<◌, ◌==◌, ◌≡◌, ◌≢◌, Bool, true, false, Option, none, some, refl, sym, ap,
  ◌∙◌, arith, Option-cases, Bool-cases, inl, inr, ==_iff,
}
use optimap.Raw.Group.Slots.{first_where-eq-some, first_where-eq-none}
use optimap.Raw.Key.{Key}
use optimap.Raw.Layout.{Layout, IsLayout}
use optimap.Raw.Layout.Memory.{tag_at, has_at}
use optimap.Raw.Layout.Slots.{matches}
use optimap.Raw.Table.Walk.{walk, walk_step, walk_start, walk-le}
use mathlib.Core.Path.{ap₂}
use optimap.Raw.Run.{Run, done, spin}
use optimap.Raw.Table.{Table}
use optimap.Raw.Table.Find.{key_test, match_in_group, find_loop, find_by_hash}
use optimap.Raw.Table.Inv.{bucket_at, InTable, Reaches, IsSound}
use optimap.Raw.Tag.{tag}

spin-ne-done {ℓ} : {A : Type ℓ} {a : A} → spin ≡ done a → ⊥
spin-ne-done h = cc

none-ne-at : {p : ℕ × ℕ} → ◌≡◌ {A = Run (Option (ℕ × ℕ))} (done none) (done (some p)) → ⊥
none-ne-at h = cc

at_inj :
    {a b c d : ℕ}
    → ◌≡◌ {A = Run (Option (ℕ × ℕ))} (done (some (a, b))) (done (some (c, d)))
    → (a ≡ c) × (b ≡ d)
at_inj h = ground arith

module _ {ℓ} {K V : Type ℓ} (l : Layout) (ok : IsLayout l) (t : Table K V) where
  key_test-true :
      (eq : K → Bool) (gi si : ℕ)
      → key_test l t eq gi si ≡ true
      → (k : K) × (v : V) × (bucket_at l t gi si ≡ some (k, v)) × (eq k ≡ true)
  unfolding key_test
  key_test-true eq gi si h = elim (Option-cases (bucket_at l t gi si)) [
    | inl e ↦ cc (rw (e, key_test) at h)
    | inr ((k, v), e) ↦ (k, v, e, rw (e, key_test) at h)
  ]

  match-eq-some :
      (reduced : ℕ) (eq : K → Bool) (gi si : ℕ)
      → match_in_group l t reduced eq gi ≡ some si
      → (si < l.group_size) × (tag_at l t.ctrl gi si ≡ reduced) × (key_test l t eq gi si ≡ true)
  unfolding match_in_group
  match-eq-some reduced eq gi si h =
      let (a, b, c) =
        first_where-eq-some l.group_size (λ i. tag_at l t.ctrl gi i == reduced) (key_test l t eq gi)
          si (rw (matches l ok t.ctrl gi reduced) at h) in
      (a, (==_iff _ _).0 b, c)

  match-eq-none :
      (reduced : ℕ) (eq : K → Bool) (gi : ℕ)
      → match_in_group l t reduced eq gi ≡ none
      → (si : ℕ) → si < l.group_size
      → tag_at l t.ctrl gi si ≡ reduced
      → key_test l t eq gi si ≡ false
  unfolding match_in_group
  match-eq-none reduced eq gi h si p e =
      first_where-eq-none l.group_size (λ i. tag_at l t.ctrl gi i == reduced) (key_test l t eq gi)
        (rw (matches l ok t.ctrl gi reduced) at h) si p ((==_iff _ _).1 e)

module _ {ℓ} {K V : Type ℓ} ⦃key : Key K⦄ (l : Layout) (ok : IsLayout l) (t : Table K V) where
  -- A slot that the search stops at holds the key.
  pub match-Holds :
      (k : K) (gi si : ℕ)
      → match_in_group l t (tag l.feature l.tag_kind (key.hash k)) (key.equal k) gi ≡ some si
      → (v : V) × (si < l.group_size) × (bucket_at l t gi si ≡ some (k, v))
  match-Holds k gi si h =
      let (a, b, c) = match-eq-some l ok t _ (key.equal k) gi si h in
      let (k', v, e, same) = key_test-true l ok t (key.equal k) gi si c in
      (v, a, e ∙ ap (λ x. some (x, v)) (sym ((key.equal_iff k k').0 same)))

  -- A group in which the search finds nothing does not hold the key.
  match-Absent :
      IsSound l t
      → (k : K) (gi : ℕ) → gi ≤ t.mask
      → match_in_group l t (tag l.feature l.tag_kind (key.hash k)) (key.equal k) gi ≡ none
      → (si : ℕ) (v : V) → si < l.group_size
      → bucket_at l t gi si ≢ some (k, v)
  unfolding key_test
  match-Absent s k gi p h si v q e =
      let no = match-eq-none l ok t _ (key.equal k) gi h si q (s.tagged gi si k v (p, q) e) in
      cc (rw (e, key_test) at no, (key.equal_iff k k).1 refl)

  -- One round of the loop, by what it meets.
  module _ (h : ℕ) (eq : K → Bool) (f i : ℕ) where
    step_hit :
        (si : ℕ)
        → match_in_group l t (tag l.feature l.tag_kind h) eq (walk l t h i) ≡ some si
        → find_loop l t h eq (suc f) (walk l t h i) i ≡ done (some (walk l t h i, si))
    unfolding find_loop
    step_hit si e = rw (e, find_loop)

    pub step_stop :
        match_in_group l t (tag l.feature l.tag_kind h) eq (walk l t h i) ≡ none
        → has_at l t.mask t.ctrl (walk l t h i) h ≡ false
        → find_loop l t h eq (suc f) (walk l t h i) i ≡ done none
    unfolding find_loop
    step_stop e b = rw (e, b, find_loop)

    pub step_next :
        match_in_group l t (tag l.feature l.tag_kind h) eq (walk l t h i) ≡ none
        → has_at l t.mask t.ctrl (walk l t h i) h ≡ true
        → find_loop l t h eq (suc f) (walk l t h i) i
          ≡ find_loop l t h eq f (walk l t h (suc i)) (suc i)
    unfolding find_loop
    step_next e b =
        rw (e, b, walk_step l t h i, find_loop)
          (ap (find_loop l t h eq f (walk l t h (suc i))) (omega arith))

  -- From a step of the probe sequence on which the key is still ahead.
  module _ (s : IsSound l t) (k : K) (v : V) (gi si : ℕ) (inside : InTable l t gi si)
      (e : bucket_at l t gi si ≡ some (k, v)) where
    way : Reaches l t (key.hash k) gi
    way = s.reached gi si k v inside e

    hit_here :
        (f i sj : ℕ)
        → match_in_group l t
            (tag l.feature l.tag_kind (key.hash k))
            (key.equal k)
            (walk l t (key.hash k) i)
          ≡ some sj
        → find_loop l t (key.hash k) (key.equal k) (suc f) (walk l t (key.hash k) i) i
          ≡ done (some (gi, si))
    hit_here f i sj m =
        let (w, p, b) = match-Holds k (walk l t (key.hash k) i) sj m in
        let (x, y) =
          s.once (walk l t (key.hash k) i) sj gi si k w v
            (walk-le l t s.exponent s.groups s.small (key.hash k) i, p) inside b e in
        step_hit (key.hash k) (key.equal k) f i sj m ∙ ap₂ (λ g z. done (some (g, z))) x y

    find_loop_hit :
        (d i f : ℕ)
        → i + d ≡ way.steps
        → d < f
        → find_loop l t (key.hash k) (key.equal k) f (walk l t (key.hash k) i) i
          ≡ done (some (gi, si))
    find_loop_hit d i zero p q = absurd (omega arith)
    find_loop_hit zero i (suc f) p q =
        let here : walk l t (key.hash k) i ≡ gi =
          ap (walk l t (key.hash k)) (omega arith) ∙ way.arrives in
        elim (Option-cases (
          match_in_group l t (tag l.feature l.tag_kind (key.hash k)) (key.equal k)
            (walk l t (key.hash k) i))) [
              | inr (sj, m) ↦ hit_here f i sj m
              | inl m ↦ absurd (
                  match-Absent s k (walk l t (key.hash k) i)
                    (walk-le l t s.exponent s.groups s.small (key.hash k) i) m si v inside.1
                    (ap (λ g. bucket_at l t g si) here ∙ e))
            ]
    find_loop_hit (suc d) i (suc f) p q =
        elim (Option-cases (
          match_in_group l t (tag l.feature l.tag_kind (key.hash k)) (key.equal k)
            (walk l t (key.hash k) i))) [
              | inr (sj, m) ↦ hit_here f i sj m
              | inl m ↦
                  step_next (key.hash k) (key.equal k) f i m (way.marked i (omega arith))
                  ∙ find_loop_hit d (suc i) f (omega arith) (omega arith)
            ]

  -- In a sound table the search for the key of a pair ends, at the slot of the pair.
  pub find_by_hash-hit :
      IsSound l t
      → (k : K) (v : V) (gi si : ℕ) → InTable l t gi si
      → bucket_at l t gi si ≡ some (k, v)
      → find_by_hash l t (key.hash k) (key.equal k) ≡ done (some (gi, si))
  unfolding find_by_hash
  find_by_hash-hit s k v gi si inside e =
      let w = way s k v gi si inside e in
      rw (← walk_start l t (key.hash k)) (
        find_loop_hit s k v gi si inside e w.steps 0 (t.mask + 1) (omega arith)
          (omega (arith, w.inside)))

  pub no_rounds : (h : ℕ) (eq : K → Bool) (g i : ℕ) → find_loop l t h eq 0 g i ≡ spin
  unfolding find_loop
  no_rounds h eq g i = refl

  -- What a search that ends at a slot says of the slot, from any round on.
  find_loop-Holds :
      IsSound l t
      → (k : K) (f i gi si : ℕ)
      → find_loop l t (key.hash k) (key.equal k) f (walk l t (key.hash k) i) i
        ≡ done (some (gi, si))
      → (v : V) × InTable l t gi si × (bucket_at l t gi si ≡ some (k, v))
  find_loop-Holds s k zero i gi si h = absurd (spin-ne-done (sym (no_rounds _ _ _ i) ∙ h))
  find_loop-Holds s k (suc f) i gi si h =
      let hash = key.hash k in
      let g = walk l t hash i in
      elim (Option-cases (match_in_group l t (tag l.feature l.tag_kind hash) (key.equal k) g)) [
        | inr (sj, m) ↦
            let (v, p, b) = match-Holds k g sj m in
            let (x, y) = at_inj (sym (step_hit hash (key.equal k) f i sj m) ∙ h) in
            (
              v,
              (rw (← x) (walk-le l t s.exponent s.groups s.small hash i), rw (← y) p),
              ap₂ (λ a c. bucket_at l t a c) (sym x) (sym y) ∙ b,
            )
        | inl m ↦ elim (Bool-cases (has_at l t.mask t.ctrl g hash)) [
          | inl on ↦
              find_loop-Holds s k f (suc i) gi si (sym (step_next hash (key.equal k) f i m on) ∙ h)
          | inr off ↦ absurd (none-ne-at (sym (step_stop hash (key.equal k) f i m off) ∙ h))
        ]
      ]

  -- In a sound table, a slot that the search for a key returns is a slot of the table, and holds a
  -- pair of that key.
  pub find_by_hash-Holds :
      IsSound l t
      → (k : K) (gi si : ℕ) → find_by_hash l t (key.hash k) (key.equal k) ≡ done (some (gi, si))
      → (v : V) × InTable l t gi si × (bucket_at l t gi si ≡ some (k, v))
  unfolding find_by_hash
  find_by_hash-Holds s k gi si h =
      find_loop-Holds s k (t.mask + 1) 0 gi si (rw (walk_start l t (key.hash k)) h)
