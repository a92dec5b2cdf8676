-- ===== src/Tomb/Fill.antt =====
-- A pair is put into a slot that has none, or leaves one: the invariant of a tombstone table under
-- the writes of src/in_place_overflow/raw/mod.rs.
use optimap.Prelude.{
  ◌==◌, ℕ, ◌+◌, ◌≤◌, ◌≡◌, ◌≢◌, Option, none, some, sym, ap, ◌∙◌, arith, Option-cases, inl, inr, ◌⊎◌,
  subst, some_pair, none-ne-some, to_nat, not,
}
use mathlib.Core.Path.{ap₂}
use native.Mathlib.Decide.{ℕ_discrete}
use optimap.Raw.Key.{Key}
use optimap.Raw.Table.Inv.{is_live}
use optimap.Raw.Tag.{TombstoneKind, reduced_hash}
use optimap.Raw.Tag.Bounds.{reduced_hash_bounds}
use optimap.Tomb.{Table}
use optimap.Tomb.Inv.{cell, tag_at, InTable, Reaches, Holds, Absent, IsPlaced, used, live}
use optimap.Tomb.Write.{
  Written, old_slot, new_slot, tag_here, cell_here, slot_cases, Reaches-after, used_change,
  live_change,
}

module _ {ℓ} {K V : Type ℓ} (tag : TombstoneKind) ⦃key : Key K⦄ (t u : Table K V) (gi si : ℕ)
    (s : IsPlaced tag t) where
  -- A pair of the old table outside the written slot is one of the new.
  Holds-kept :
      (v : ℕ) (e : Option (K × V)) (w : Written t u gi si v e) (x : K) (y : V) (h : Holds t x y)
      → (gi ≢ h.group) ⊎ (si ≢ h.slot)
      → Holds u x y
  Holds-kept v e w x y h ne = record {
    group = h.group;
    slot = h.slot;
    inside = new_slot t u gi si v e w h.group h.slot h.inside;
    pair = elim (slot_cases t u gi si v e w h.group h.slot h.inside.1) [
      | inl (a, b, c, d) ↦ absurd (clash a b ne)
      | inr (ne', c, d) ↦ d ∙ h.pair
    ];
  }
    where
      clash : {a b : ℕ} → gi ≡ a → si ≡ b → (gi ≢ a) ⊎ (si ≢ b) → ⊥
      clash p q (inl n) = n p
      clash p q (inr n) = n q

  -- The slot takes a pair of a key that the table does not hold.
  module _ (k : K) (v : V) (r : ℕ) (tag_of : r ≡ reduced_hash tag (key.hash k))
      (w : Written t u gi si r (some (k, v))) (free : tag_at t gi si ≤ 1) where
    tag_ge : 2 ≤ r
    tag_ge = omega (arith, tag_of, (reduced_hash_bounds tag (key.hash k)).0)

    was_dead : cell t gi si ≡ none
    was_dead = elim (Option-cases (cell t gi si)) [
      | inl e ↦ e
      | inr ((x, y), e) ↦ absurd (
          omega
            (arith, s.tagged gi si x y w.inside e, free, (reduced_hash_bounds tag (key.hash x)).0))
    ]

    -- There is one pair more, and one slot more is in use if the slot was EMPTY.
    pub fill-live : live u ≡ live t + 1
    fill-live =
        omega
          (arith, live_change t u gi si r (some (k, v)) w, ap (λ o. to_nat (is_live o)) was_dead)

    pub fill-used : used u ≡ used t + to_nat (tag_at t gi si == 0)
    fill-used = account (tag_at t gi si) r tag_ge (used_change t u gi si r (some (k, v)) w)
      where
        account :
            (a b : ℕ)
            → 2 ≤ b
            → used u + to_nat (not (a == 0)) ≡ used t + to_nat (not (b == 0))
            → used u ≡ used t + to_nat (a == 0)
        account a b p e = ground arith

    -- The new pair, or a pair of the old table in its place.
    pair_cases :
        (gj sj : ℕ) (x : K) (y : V)
        → InTable u gj sj
        → cell u gj sj ≡ some (x, y)
        → ((gi ≡ gj) × (si ≡ sj) × (k ≡ x) × (v ≡ y))
          ⊎ ((tag_at u gj sj ≡ tag_at t gj sj) × InTable t gj sj × (cell t gj sj ≡ some (x, y)))
    pair_cases gj sj x y p e = elim (slot_cases t u gi si r (some (k, v)) w gj sj p.1) [
      | inl (a, b, c, d) ↦ let (same, at) = some_pair (sym d ∙ e) in inl (a, b, same, at)
      | inr (ne, c, d) ↦ inr (c, old_slot t u gi si r (some (k, v)) w gj sj p, sym d ∙ e)
    ]

    pub Holds-new : Holds u k v
    Holds-new = record {
      group = gi;
      slot = si;
      inside = new_slot t u gi si r (some (k, v)) w gi si w.inside;
      pair = cell_here t u gi si r (some (k, v)) w;
    }

    pub Holds-old : (x : K) (y : V) → Holds t x y → Holds u x y
    Holds-old x y h = Holds-kept r (some (k, v)) w x y h (elsewhere h.group h.slot h.pair)
      where
        elsewhere : (a b : ℕ) → cell t a b ≡ some (x, y) → (gi ≢ a) ⊎ (si ≢ b)
        elsewhere a b e = elim (ℕ_discrete gi a) [
          | no n ↦ inl n
          | yes p ↦ inr (λ q. none-ne-some (sym was_dead ∙ (ap₂ (cell t) p q ∙ e)))
        ]

    pub Holds-cases : (x : K) (y : V) → Holds u x y → ((k ≡ x) × (v ≡ y)) ⊎ Holds t x y
    Holds-cases x y h = elim (pair_cases h.group h.slot x y h.inside h.pair) [
      | inl (a, b, c, d) ↦ inl (c, d)
      | inr (c, p, e) ↦ inr (record { group = h.group; slot = h.slot; inside = p; pair = e })
    ]

    module _ (gone : Absent t k) (way : Reaches t (key.hash k) gi) where
      once_after :
          (gj sj gm sm : ℕ) (x : K) (y z : V)
          → InTable u gj sj
          → InTable u gm sm
          → cell u gj sj ≡ some (x, y)
          → cell u gm sm ≡ some (x, z)
          → (gj ≡ gm) × (sj ≡ sm)
      once_after gj sj gm sm x y z p q e f = elim (pair_cases gj sj x y p e) [
        | inl (a, b, c, d) ↦ elim (pair_cases gm sm x z q f) [
          | inl (a', b', c', d') ↦ (sym a ∙ a', sym b ∙ b')
          | inr (c', p', e') ↦ absurd (no_pair gm sm z p' (e' ∙ ap (λ o. some (o, z)) (sym c)))
        ]
        | inr (c, p', e') ↦ elim (pair_cases gm sm x z q f) [
          | inl (a', b', c', d') ↦ absurd (no_pair gj sj y p' (e' ∙ ap (λ o. some (o, y)) (sym c')))
          | inr (c', p'', e'') ↦ s.once gj sj gm sm x y z p' p'' e' e''
        ]
      ]
        where
          no_pair : (a b : ℕ) (o : V) → InTable t a b → cell t a b ≡ some (k, o) → ⊥
          no_pair a b o i e = gone o (record { group = a; slot = b; inside = i; pair = e })

      dead_after : (gj sj : ℕ) → InTable u gj sj → cell u gj sj ≡ none → tag_at u gj sj ≤ 1
      dead_after gj sj p e = elim (slot_cases t u gi si r (some (k, v)) w gj sj p.1) [
        | inl (a, b, c, d) ↦ absurd (none-ne-some (sym e ∙ d))
        | inr (ne, c, d) ↦
            let old = s.dead gj sj (old_slot t u gi si r (some (k, v)) w gj sj p) (sym d ∙ e) in
            omega (arith, c, old)
      ]

      -- The pairs still stand where a search finds them.
      pub fill-IsPlaced : IsPlaced tag u
      fill-IsPlaced = record {
        exponent = s.exponent;
        groups = ap (λ m. m + 1) w.mask ∙ s.groups;
        small = s.small;
        dead = dead_after;
        tagged = λ gj sj x y p e. elim (pair_cases gj sj x y p e) [
          | inl (a, b, c, d) ↦
              ap₂ (tag_at u) (sym a) (sym b)
              ∙ (tag_here t u gi si r (some (k, v)) w
                  ∙ (tag_of ∙ ap (λ o. reduced_hash tag (key.hash o)) c))
          | inr (c, p', e') ↦ c ∙ s.tagged gj sj x y p' e'
        ];
        reached = λ gj sj x y p e. elim (pair_cases gj sj x y p e) [
          | inl (a, b, c, d) ↦
              subst (λ o. Reaches u (key.hash o) gj) c
                (subst (λ g. Reaches u (key.hash k) g) a (after (key.hash k) gi way))
          | inr (c, p', e') ↦ after (key.hash x) gj (s.reached gj sj x y p' e')
        ];
        once = once_after;
      }
        where
          after : (h g : ℕ) → Reaches t h g → Reaches u h g
          after = Reaches-after t u gi si r (some (k, v)) w (λ z. absurd (omega (arith, tag_ge, z)))
