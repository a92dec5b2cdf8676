-- ===== src/Raw/Table/Ops/Replace.antt =====
-- Writing the value of a pair that is in the table: `std::mem::replace` through `value_ptr`.
use optimap.Prelude.{
  ℕ, ◌==◌, ◌≡◌, ◌≢◌, ◌⊎◌, ◌&&◌, if◌then◌else◌, to_nat, true, false, none, some, refl, sym, ap, ◌∙◌,
  arith, Bool-cases, inl, inr, none-ne-some, some_pair,
}
use mathlib.Core.Path.{ap₂, subst₂}
use optimap.Raw.Key.{Key}
use optimap.Raw.Layout.{Layout, IsLayout, bucket_index}
use optimap.Raw.Table.{Table, set_bucket, group_index}
use optimap.Raw.Table.Inv.{
  bucket_at, is_live, InTable, Holds, IsSound, live_change, same_slot, set_bucket-at,
}
use optimap.Raw.Table.Ops.{replace_value}
use optimap.Raw.Table.Ops.Valid.{Stored}

module _ {ℓ} {K V : Type ℓ} ⦃key : Key K⦄ (l : Layout) (ok : IsLayout l) (t : Table K V)
    (s : IsSound l t) (gi si : ℕ) (inside : InTable l t gi si) (k : K) (old v : V)
    (e : bucket_at l t gi si ≡ some (k, old)) where
  -- The table after the write.
  abbrev written : Table K V
  written = record t { buckets = set_bucket t.buckets (bucket_index l gi si) (some (k, v)) }

  now :
      (gj sj : ℕ)
      → InTable l t gj sj
      → bucket_at l written gj sj
        ≡ (if gi == gj && si == sj then some (k, v) else bucket_at l t gj sj)
  now gj sj p = set_bucket-at l ok t.buckets (some (k, v)) gi si gj sj inside.1 p.1

  -- A pair of the new table stands where a pair of the same key stood.
  cases :
      (gj sj : ℕ) (x : K) (w : V)
      → InTable l t gj sj
      → bucket_at l written gj sj ≡ some (x, w)
      → ((gi ≡ gj) × (si ≡ sj) × (k ≡ x) × (v ≡ w))
        ⊎ (((gi == gj && si == sj) ≡ false) × (bucket_at l t gj sj ≡ some (x, w)))
  cases gj sj x w p f = elim (Bool-cases (gi == gj && si == sj)) [
    | inl here ↦
        let (a, b) = same_slot gi gj si sj here in
        let (c, d) = some_pair (sym (rw here at (now gj sj p)) ∙ f) in inl (a, b, c, d)
    | inr there ↦ inr (there, sym (rw there at (now gj sj p)) ∙ f)
  ]

  before :
      (gj sj : ℕ) (x : K) (w : V)
      → InTable l t gj sj
      → bucket_at l written gj sj ≡ some (x, w)
      → (w' : V) × (bucket_at l t gj sj ≡ some (x, w'))
  before gj sj x w p f = elim (cases gj sj x w p f) [
    | inl (a, b, c, d) ↦
        (old, ap₂ (λ g z. bucket_at l t g z) (sym a) (sym b) ∙ (e ∙ ap (λ y. some (y, old)) c))
    | inr (there, f') ↦ (w, f')
  ]

  vacant_before :
      (gj sj : ℕ)
      → InTable l t gj sj
      → bucket_at l written gj sj ≡ none
      → bucket_at l t gj sj ≡ none
  vacant_before gj sj p f = elim (Bool-cases (gi == gj && si == sj)) [
    | inl here ↦ absurd (none-ne-some (sym f ∙ rw here at (now gj sj p)))
    | inr there ↦ sym (rw there at (now gj sj p)) ∙ f
  ]

  -- The invariant does not read the values.
  pub replace-IsSound : IsSound l written
  unfolding group_index
  replace-IsSound = record {
    exponent = s.exponent;
    groups = s.groups;
    small = s.small;
    bytes = s.bytes;
    vacant = λ gj sj p f. s.vacant gj sj p (vacant_before gj sj p f);
    tagged = λ gj sj x w p f. let (w', f') = before gj sj x w p f in s.tagged gj sj x w' p f';
    reached = λ gj sj x w p f.
        let (w', f') = before gj sj x w p f in
        let r = s.reached gj sj x w' p f' in
        record { steps = r.steps; inside = r.inside; arrives = r.arrives; marked = r.marked };
    once = λ gj sj gm sm x w z p q f g.
        let (w', f') = before gj sj x w p f in
        let (z', g') = before gm sm x z q g in s.once gj sj gm sm x w' z' p q f' g';
    counted = omega (
      arith,
      s.counted,
      live_change l ok t written (some (k, v)) gi si inside now refl,
      ap (λ b. to_nat (is_live b)) e,
    );
  }

  -- The key has the new value, and every other key the value that it had.
  pub replace-Stored : Stored l t written k v
  replace-Stored x w = (
    λ h. elim (cases h.group h.slot x w h.inside h.pair) [
      | inl (a, b, c, d) ↦ inl (c, d)
      | inr (there, f) ↦ inr (
        λ same. other_slot h.group h.slot x w h.inside f there same,
        record { group = h.group; slot = h.slot; inside = h.inside; pair = f },
      )
    ],
    λ r. elim r [
      | inl (c, d) ↦ subst₂ (λ y z. Holds l written y z) c d here_now
      | inr (ne, h) ↦ record {
        group = h.group;
        slot = h.slot;
        inside = h.inside;
        pair = kept h.group h.slot x w h.inside h.pair ne;
      }
    ],
  )
    where
      other_slot :
          (gj sj : ℕ) (x : K) (w : V)
          → InTable l t gj sj
          → bucket_at l t gj sj ≡ some (x, w)
          → (gi == gj && si == sj) ≡ false
          → k ≡ x
          → ⊥
      other_slot gj sj x w p f there same =
          let (a, b) =
            s.once gi si gj sj k old w inside p e (f ∙ ap (λ y. some (y, w)) (sym same)) in
          absurd (clash a b there)
        where
          clash : {a b c d : ℕ} → a ≡ b → c ≡ d → (a == b && c == d) ≡ false → ⊥
          clash p q r = ground arith

      here_now : Holds l written k v
      here_now = record {
        group = gi;
        slot = si;
        inside = inside;
        pair =
            let here : (gi == gi && si == si) ≡ true = ground arith in
            now gi si inside ∙ rw here refl;
      }

      kept :
          (gj sj : ℕ) (x : K) (w : V)
          → InTable l t gj sj
          → bucket_at l t gj sj ≡ some (x, w)
          → k ≢ x
          → bucket_at l written gj sj ≡ some (x, w)
      kept gj sj x w p f ne = elim (Bool-cases (gi == gj && si == sj)) [
        | inr there ↦ now gj sj p ∙ rw there f
        | inl here ↦
            let (a, b) = same_slot gi gj si sj here in
            absurd (ne (some_pair (sym e ∙ (ap₂ (λ g z. bucket_at l t g z) a b ∙ f))).0)
      ]

  pub replace_value-eq : replace_value l t gi si v ≡ (some old, written)
  unfolding replace_value
  replace_value-eq = rw (e, replace_value)
