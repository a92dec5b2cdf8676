-- ===== src/Tomb/Write.antt =====
-- What one slot write changes in a tombstone table: src/in_place_overflow/raw/mod.rs.
use optimap.Prelude.{
  ℕ, ◌+◌, ◌≤◌, ◌<◌, ◌==◌, ◌≡◌, ◌≢◌, ◌&&◌, if◌then◌else◌, to_nat, not, Bool, true, false, Option,
  refl, sym, ap, ◌∙◌, arith, Bool-cases, inl, inr, ◌⊎◌, subst,
}
use mathlib.Core.Path.{ap₂}
use optimap.Prelude.Tally.{tally, tally_change}
use optimap.Raw.Group.{set_meta, store}
use optimap.Raw.Table.Inv.{is_live, same_slot}
use optimap.Tomb.{Table, group_size, bucket_index, write_slot}
use optimap.Tomb.Inv.{
  cell, tag_at, InTable, Full, Reaches, live, used, live_test, used_test, walk, walk_congr,
}

bucket_test :
    (gi si gj sj : ℕ)
    → si < group_size
    → sj < group_size
    → (bucket_index gj sj == bucket_index gi si) ≡ (gi == gj && si == sj)
unfolding bucket_index
bucket_test gi si gj sj p q = ground arith

module _ {ℓ} {K V : Type ℓ} where
  -- `u` is `t` but for the tag and the bucket of one slot.
  pub record Written (t u : Table K V) (gi si v : ℕ) (e : Option (K × V)) : Type ℓ where
    pub inside : InTable t gi si
    pub mask : u.mask ≡ t.mask
    pub tags :
        (gj sj : ℕ)
        → sj < group_size
        → tag_at u gj sj ≡ (if gi == gj && si == sj then v else tag_at t gj sj)
    pub cells :
        (gj sj : ℕ)
        → sj < group_size
        → cell u gj sj ≡ (if gi == gj && si == sj then e else cell t gj sj)

  -- The counters do not matter.
  pub recount :
      (t u : Table K V) (gi si v n left : ℕ) (e : Option (K × V))
      → Written t u gi si v e
      → Written t (record u { len = n; growth_left = left }) gi si v e
  recount t u gi si v n left e w = record {
    inside = w.inside;
    mask = w.mask;
    tags = w.tags;
    cells = w.cells;
  }

  pub write_slot-Written :
      (t : Table K V) (gi si v : ℕ) (e : Option (K × V))
      → InTable t gi si
      → Written t (write_slot t gi si v e) gi si v e
  unfolding write_slot set_meta store
  write_slot-Written t gi si v e p = record {
    inside = p;
    mask = refl;
    tags = λ gj sj q. ground (arith, p.1);
    cells = λ gj sj q. rw (bucket_test gi si gj sj p.1 q) refl;
  }

  -- A write of the bucket alone.
  pub value-Written :
      (t : Table K V) (gi si : ℕ) (e : Option (K × V))
      → InTable t gi si
      → Written t
          (record t { buckets = λ i. if i == bucket_index gi si then e else t.buckets i })
          gi
          si
          (tag_at t gi si)
          e
  value-Written t gi si e p = record {
    inside = p;
    mask = refl;
    tags = λ gj sj q. same_tag gj sj (Bool-cases (gi == gj && si == sj));
    cells = λ gj sj q. rw (bucket_test gi si gj sj p.1 q) refl;
  }
    where
      same_tag :
          (gj sj : ℕ)
          → ((gi == gj && si == sj) ≡ true) ⊎ ((gi == gj && si == sj) ≡ false)
          → tag_at t gj sj ≡ (if gi == gj && si == sj then tag_at t gi si else tag_at t gj sj)
      same_tag gj sj (inl h) =
          let (a, b) = same_slot gi gj si sj h in rw h (ap₂ (tag_at t) (sym a) (sym b))
      same_tag gj sj (inr h) = rw h refl

module _ {ℓ} {K V : Type ℓ} (t u : Table K V) (gi si v : ℕ) (e : Option (K × V))
    (w : Written t u gi si v e) where
  -- A slot of the new table is one of the old.
  pub old_slot : (gj sj : ℕ) → InTable u gj sj → InTable t gj sj
  old_slot gj sj (a, b) = (subst (λ m. gj ≤ m) w.mask a, b)

  pub new_slot : (gj sj : ℕ) → InTable t gj sj → InTable u gj sj
  new_slot gj sj (a, b) = (subst (λ m. gj ≤ m) (sym w.mask) a, b)

  pub tag_here : tag_at u gi si ≡ v
  tag_here = w.tags gi si w.inside.1 ∙ ground arith

  pub cell_here : cell u gi si ≡ e
  cell_here =
      let here : (gi == gi && si == si) ≡ true = ground arith in
      w.cells gi si w.inside.1 ∙ rw here refl

  -- The slot is the written one, or it is as it was.
  pub slot_cases :
      (gj sj : ℕ)
      → sj < group_size
      → ((gi ≡ gj) × (si ≡ sj) × (tag_at u gj sj ≡ v) × (cell u gj sj ≡ e))
        ⊎ (((gi ≢ gj) ⊎ (si ≢ sj))
            × (tag_at u gj sj ≡ tag_at t gj sj)
            × (cell u gj sj ≡ cell t gj sj))
  slot_cases gj sj p = elim (Bool-cases (gi == gj && si == sj)) [
    | inl here ↦
        let (a, b) = same_slot gi gj si sj here in
        inl (a, b, rw here at (w.tags gj sj p), rw here at (w.cells gj sj p))
    | inr there ↦ inr (ground arith, rw there at (w.tags gj sj p), rw there at (w.cells gj sj p))
  ]

  pub used_change : used u + to_nat (used_test t gi si) ≡ used t + to_nat (not (v == 0))
  used_change =
      let width : used u ≡ tally (t.mask + 1) group_size (used_test u) =
        ap (λ m. tally (m + 1) group_size (used_test u)) w.mask in
      omega (
        arith,
        width,
        tally_change (t.mask + 1) group_size (used_test t) (used_test u) gi si (not (v == 0))
            (omega (arith, w.inside.0)) w.inside.1
            (λ gj sj a b. ap (λ x. not (x == 0)) (w.tags gj sj b) ∙ ground arith),
      )

  pub live_change : live u + to_nat (live_test t gi si) ≡ live t + to_nat (is_live e)
  live_change =
      let width : live u ≡ tally (t.mask + 1) group_size (live_test u) =
        ap (λ m. tally (m + 1) group_size (live_test u)) w.mask in
      omega (
        arith,
        width,
        tally_change (t.mask + 1) group_size (live_test t) (live_test u) gi si (is_live e)
            (omega (arith, w.inside.0)) w.inside.1
            (λ gj sj a b.
              ap is_live (w.cells gj sj b) ∙ is_live_if (gi == gj && si == sj) (cell t gj sj)),
      )
    where
      is_live_if :
          (b : Bool) (x : Option (K × V))
          → is_live (if b then e else x) ≡ (if b then is_live e else is_live x)
      is_live_if true x = refl
      is_live_if false x = refl

  -- No slot becomes EMPTY, so that every path stays.
  module _ (mark : v ≢ 0) where
    pub Full-after : (gj : ℕ) → Full t gj → Full u gj
    Full-after gj f sj p z = elim (slot_cases gj sj p) [
      | inl (a, b, x, y) ↦ mark (sym x ∙ z)
      | inr (ne, x, y) ↦ f sj p (sym x ∙ z)
    ]

    pub Reaches-after : (h gj : ℕ) → Reaches t h gj → Reaches u h gj
    Reaches-after h gj r = record {
      steps = r.steps;
      inside = subst (λ m. r.steps ≤ m) (sym w.mask) r.inside;
      arrives = walk_congr t u h r.steps w.mask ∙ r.arrives;
      path = λ i p.
          subst (Full u) (sym (walk_congr t u h i w.mask)) (Full-after (walk t h i) (r.path i p));
    }
