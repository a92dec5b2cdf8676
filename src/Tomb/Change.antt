-- ===== src/Tomb/Change.antt =====
-- The bucket of a live slot is emptied, or its value is replaced: the invariant of a tombstone
-- table under `remove_by_hash` and `std::mem::replace` of src/in_place_overflow/raw/mod.rs.
use optimap.Prelude.{
  ℕ, ◌+◌, ◌≤◌, ◌≡◌, ◌≢◌, Option, none, some, sym, ap, ◌∙◌, arith, inl, inr, some_pair,
}
use mathlib.Core.Path.{ap₂}
use optimap.Raw.Key.{Key}
use optimap.Raw.Tag.{TombstoneKind}
use optimap.Tomb.{Table}
use optimap.Tomb.Inv.{cell, tag_at, InTable, Holds, IsPlaced}
use optimap.Tomb.Write.{Written, old_slot, new_slot, cell_here, slot_cases, Reaches-after}

-- `e` is no pair, under a tombstone, or a pair of the key `k`, under the tag of the slot.
pub record Replaces {ℓ} {K V : Type ℓ} (t : Table K V) (gi si v : ℕ) (k : K) (e : Option (K × V))
    : Type ℓ where
  pub marked : v ≢ 0
  pub erased : e ≡ none → v ≤ 1
  pub same : (x : K) (y : V) → e ≡ some (x, y) → (x ≡ k) × (v ≡ tag_at t gi si)

module _ {ℓ} {K V : Type ℓ} (tag : TombstoneKind) ⦃key : Key K⦄ (t u : Table K V) (gi si v : ℕ)
    (e : Option (K × V)) (s : IsPlaced tag t) (w : Written t u gi si v e) (k : K) (old : V)
    (here : cell t gi si ≡ some (k, old)) (r : Replaces t gi si v k e) where
  -- A pair of the new table has the tag, the place and the key of one of the old.
  before :
      (gj sj : ℕ) (x : K) (y : V)
      → InTable u gj sj
      → cell u gj sj ≡ some (x, y)
      → InTable t gj sj
        × (tag_at u gj sj ≡ tag_at t gj sj)
        × ((z : V) × (cell t gj sj ≡ some (x, z)))
  before gj sj x y p f = elim (slot_cases t u gi si v e w gj sj p.1) [
    | inl (a, b, c, d) ↦
        let (key_same, mark_same) = r.same x y (sym d ∙ f) in
        (
          old_slot t u gi si v e w gj sj p,
          c ∙ (mark_same ∙ ap₂ (tag_at t) a b),
          (old, sym (ap₂ (cell t) a b) ∙ (here ∙ ap (λ o. some (o, old)) (sym key_same))),
        )
    | inr (ne, c, d) ↦ (old_slot t u gi si v e w gj sj p, c, (y, sym d ∙ f))
  ]

  dead_after : (gj sj : ℕ) → InTable u gj sj → cell u gj sj ≡ none → tag_at u gj sj ≤ 1
  dead_after gj sj p f = elim (slot_cases t u gi si v e w gj sj p.1) [
    | inl (a, b, c, d) ↦ let x = r.erased (sym d ∙ f) in omega (arith, c, x)
    | inr (ne, c, d) ↦
        let x = s.dead gj sj (old_slot t u gi si v e w gj sj p) (sym d ∙ f) in omega (arith, c, x)
  ]

  -- The pairs still stand where a search finds them.
  pub change-IsPlaced : IsPlaced tag u
  change-IsPlaced = record {
    exponent = s.exponent;
    groups = ap (λ m. m + 1) w.mask ∙ s.groups;
    small = s.small;
    dead = dead_after;
    tagged =
        λ gj sj x y p f. let (q, c, (z, g)) = before gj sj x y p f in c ∙ s.tagged gj sj x z q g;
    reached = λ gj sj x y p f.
        let (q, c, (z, g)) = before gj sj x y p f in
        Reaches-after t u gi si v e w r.marked (key.hash x) gj (s.reached gj sj x z q g);
    once = λ gj sj gm sm x y z p q f g.
        let (p', c, (y', f')) = before gj sj x y p f in
        let (q', c', (z', g')) = before gm sm x z q g in s.once gj sj gm sm x y' z' p' q' f' g';
  }

  -- The key now has what was written, and the other keys what they had.
  pub change-key : (y : V) → Holds u k y → e ≡ some (k, y)
  change-key y h =
      let (q, c, (z, g)) = before h.group h.slot k y h.inside h.pair in
      let (a, b) = s.once gi si h.group h.slot k old z w.inside q here g in
      sym (cell_here t u gi si v e w) ∙ (ap₂ (cell u) a b ∙ h.pair)

  pub change-written : (x : K) (y : V) → e ≡ some (x, y) → Holds u x y
  change-written x y f = record {
    group = gi;
    slot = si;
    inside = new_slot t u gi si v e w gi si w.inside;
    pair = cell_here t u gi si v e w ∙ f;
  }

  pub change-other : (x : K) (y : V) → x ≢ k → Holds t x y → Holds u x y
  change-other x y ne h = record {
    group = h.group;
    slot = h.slot;
    inside = new_slot t u gi si v e w h.group h.slot h.inside;
    pair = elim (slot_cases t u gi si v e w h.group h.slot h.inside.1) [
      | inl (a, b, c, d) ↦
          let (p, q) = some_pair (sym here ∙ (ap₂ (cell t) a b ∙ h.pair)) in absurd (ne (sym p))
      | inr (n, c, d) ↦ d ∙ h.pair
    ];
  }

  pub change-back : (x : K) (y : V) → x ≢ k → Holds u x y → Holds t x y
  change-back x y ne h = elim (slot_cases t u gi si v e w h.group h.slot h.inside.1) [
    | inl (a, b, c, d) ↦ absurd (ne (r.same x y (sym d ∙ h.pair)).0)
    | inr (n, c, d) ↦ record {
      group = h.group;
      slot = h.slot;
      inside = old_slot t u gi si v e w h.group h.slot h.inside;
      pair = sym d ∙ h.pair;
    }
  ]
