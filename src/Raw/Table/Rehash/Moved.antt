-- ===== src/Raw/Table/Rehash/Moved.antt =====
-- What `rehash_with_impl` of src/raw/overflow_table.rs has moved when it comes to a slot.
use optimap.Prelude.{
  ℕ, suc, ◌+◌, ◌*◌, ◌≤◌, ◌<◌, ◌≡◌, ◌⊎◌, to_nat, none, some, refl, sym, ap, ◌∙◌, arith, inl, inr,
  some_pair, none-ne-some,
}
use optimap.Prelude.Count.{sum_below, sum_below_mono, sum_below_gap, sum_below-suc, sum_below-none}
use mathlib.Core.Path.{ap₂, subst₂}
use optimap.Raw.Key.{Key}
use optimap.Raw.Layout.{Layout, IsLayout}
use optimap.Raw.Run.{Returns}
use optimap.Raw.Table.{Table}
use optimap.Raw.Table.Insert.{insert_no_check}
use optimap.Raw.Table.Insert.Laws.{Inserted, insert_no_check-Inserted}
use optimap.Raw.Table.Insert.Sound.{Inserted-IsSound, Holds-new, Holds-old, Holds-cases}
use optimap.Raw.Table.Inv.{
  bucket_at, is_live, InTable, Holds, Absent, IsSound, live, live_in_group, live_room,
}

-- The slots before slot `b` of group `gi`.
abbrev pub Before : ℕ → ℕ → ℕ → ℕ → Type 0
Before gi b gj sj = (gj < gi) ⊎ ((gj ≡ gi) × (sj < b))

module _ {ℓ} {K V : Type ℓ} ⦃key : Key K⦄ (l : Layout) (ok : IsLayout l) (old : Table K V) where
  -- The number of live buckets before slot `b` of group `gi`.
  unfoldable pub live_before : ℕ → ℕ → ℕ
  live_before gi b =
      sum_below gi (live_in_group l old)
      + sum_below b (λ s. to_nat (is_live (bucket_at l old gi s)))

  -- `u`, with mask `m` and load limit `load`, holds the pairs of `old` that stand before slot `b` of
  -- group `gi`.
  pub record Moved (m load : ℕ) (u : Table K V) (gi b : ℕ) : Type ℓ where
    pub sound : IsSound l u
    pub mask : u.mask ≡ m
    pub max_load : u.max_load ≡ load
    pub from : (x : K) (w : V) → Holds l u x w → (h : Holds l old x w) × Before gi b h.group h.slot
    pub into :
        (gj sj : ℕ) (x : K) (w : V)
        → InTable l old gj sj
        → Before gi b gj sj
        → bucket_at l old gj sj ≡ some (x, w)
        → Holds l u x w
    pub count : u.len ≡ live_before gi b

  module _ (so : IsSound l old) (m load : ℕ) (room : live l old ≤ (m + 1) * l.group_size) where
    live_before-le : (gi b : ℕ) → gi ≤ old.mask → b ≤ l.group_size → live_before gi b ≤ live l old
    unfolding live live_before live_in_group
    live_before-le gi b p q = omega (
      arith,
      sum_below_mono b l.group_size (λ s. to_nat (is_live (bucket_at l old gi s))) q,
      sum_below-suc gi (live_in_group l old),
      sum_below_mono (suc gi) (old.mask + 1) (live_in_group l old) (omega arith),
    )

    -- Over dead buckets the count stays, and over a live one it grows by one.
    live_before-step :
        (gi b x : ℕ) (k : K) (v : V)
        → b ≤ x
        → ((j : ℕ) → b ≤ j → j < x → bucket_at l old gi j ≡ none)
        → bucket_at l old gi x ≡ some (k, v)
        → live_before gi (suc x) ≡ live_before gi b + 1
    unfolding live_before
    live_before-step gi b x k v p gap e =
        let f = λ (s : ℕ). to_nat (is_live (bucket_at l old gi s)) in
        omega (
          arith,
          sum_below-suc x f,
          sum_below_gap b x f p (λ j q r. ap (λ c. to_nat (is_live c)) (gap j q r)),
          ap (λ c. to_nat (is_live c)) e,
        )

    live_before-gap :
        (gi b : ℕ)
        → b ≤ l.group_size
        → ((j : ℕ) → b ≤ j → j < l.group_size → bucket_at l old gi j ≡ none)
        → live_before gi b ≡ live_before (suc gi) 0
    unfolding live_before live_in_group
    live_before-gap gi b p gap =
        let f = λ (s : ℕ). to_nat (is_live (bucket_at l old gi s)) in
        omega (
          arith,
          sum_below-suc gi (live_in_group l old),
          sum_below_gap b l.group_size f p (λ j q r. ap (λ c. to_nat (is_live c)) (gap j q r)),
          sum_below-none (λ s. to_nat (is_live (bucket_at l old (suc gi) s))),
        )

    module _ (u : Table K V) (gi b x : ℕ) (k : K) (v : V) (mv : Moved m load u gi b)
        (p : gi ≤ old.mask) (lo : b ≤ x) (hi : x < l.group_size)
        (gap : (j : ℕ) → b ≤ j → j < x → bucket_at l old gi j ≡ none)
        (e : bucket_at l old gi x ≡ some (k, v)) where
      -- The next pair is not yet in the new table.
      next_gone : Absent l u k
      next_gone gj sj w q f =
          let (h, before) = mv.from k w (record { group = gj; slot = sj; inside = q; pair = f }) in
          let (same, at) = so.once h.group h.slot gi x k w v h.inside (p, hi) h.pair e in
          clash same at before
        where
          clash : {a c : ℕ} → a ≡ gi → c ≡ x → Before gi b a c → ⊥
          clash s t (inl r) = absurd (omega arith)
          clash s t (inr (r, z)) = absurd (omega arith)

      -- A slot before the one after `x` is the slot `x`, or it was before, or it is dead.
      Before-cases :
          (gj sj : ℕ)
          → Before gi (suc x) gj sj
          → Before gi b gj sj ⊎ (((gj ≡ gi) × (sj ≡ x)) ⊎ ((gj ≡ gi) × (b ≤ sj) × (sj < x)))
      Before-cases gj sj (inl r) = inl (inl r)
      Before-cases gj sj (inr (r, z)) = ground arith

      Before-later : (gj sj : ℕ) → Before gi b gj sj → Before gi (suc x) gj sj
      Before-later gj sj (inl r) = inl r
      Before-later gj sj (inr (r, z)) = inr (r, omega arith)

      Moved-after :
          (r : Table K V) (gm sm : ℕ)
          → Inserted l u r (key.hash k) k v gm sm
          → Moved m load r gi (suc x)
      Moved-after r gm sm ins = record {
        sound = Inserted-IsSound l ok u r k v gm sm mv.sound ins next_gone;
        mask = ins.mask ∙ mv.mask;
        max_load = ins.max_load ∙ mv.max_load;
        from = λ y w h. elim (Holds-cases l ok u r k v gm sm mv.sound ins y w h) [
          | inl (a, c) ↦ (
            record {
              group = gi;
              slot = x;
              inside = (p, hi);
              pair = e ∙ ap₂ (λ y w. some (y, w)) a c;
            },
            inr (refl, omega arith),
          )
          | inr h' ↦ let (o, before) = mv.from y w h' in (o, Before-later o.group o.slot before)
        ];
        into = λ gj sj y w q before f. elim (Before-cases gj sj before) [
          | inl before' ↦
              Holds-old l ok u r k v gm sm mv.sound ins y w (mv.into gj sj y w q before' f)
          | inr (inl (a, c)) ↦
              let (same, at) =
                some_pair (sym e ∙ (ap₂ (λ g z. bucket_at l old g z) (sym a) (sym c) ∙ f)) in
              subst₂ (λ y w. Holds l r y w) same at (Holds-new l ok u r k v gm sm mv.sound ins)
          | inr (inr (a, c, d)) ↦
              absurd
                (none-ne-some (sym (gap sj c d) ∙ (ap (λ g. bucket_at l old g sj) (sym a) ∙ f)))
        ];
        count = omega (arith, ins.len, mv.count, live_before-step gi b x k v lo gap e);
      }

      -- There is room for the next pair, and it is inserted.
      pub move_next :
          Returns (insert_no_check l u (key.hash k) k v) (λ r. Moved m load r.0 gi (suc x))
      move_next =
          let width : (u.mask + 1) * l.group_size ≡ (m + 1) * l.group_size =
            ap (λ n. (n + 1) * l.group_size) mv.mask in
          let fewer : live l u < (u.mask + 1) * l.group_size = omega (
            arith,
            width,
            mv.count,
            mv.sound.counted,
            live_before-step gi b x k v lo gap e,
            live_before-le gi (suc x) p hi,
          ) in
          let (g, z, inside, free) = live_room l ok u fewer in
          let (r, run, ins) =
            insert_no_check-Inserted l ok u mv.sound.exponent mv.sound.groups mv.sound.small
              (key.hash k) k v g z mv.sound.bytes inside (mv.sound.vacant g z inside free) in
          (r, run, Moved-after r.0 r.1.0 r.1.1 ins)

    -- A group whose remaining slots are dead is done.
    pub group_done :
        (u : Table K V) (gi b : ℕ)
        → b ≤ l.group_size
        → ((j : ℕ) → b ≤ j → j < l.group_size → bucket_at l old gi j ≡ none)
        → Moved m load u gi b
        → Moved m load u (suc gi) 0
    group_done u gi b p gap mv = record {
      sound = mv.sound;
      mask = mv.mask;
      max_load = mv.max_load;
      from = λ x w h. let (o, before) = mv.from x w h in (o, earlier o.group o.slot before);
      into = λ gj sj x w q before f. elim (split gj sj q.1 before) [
        | inl before' ↦ mv.into gj sj x w q before' f
        | inr (a, c) ↦
            absurd
              (none-ne-some (sym (gap sj c q.1) ∙ (ap (λ g. bucket_at l old g sj) (sym a) ∙ f)))
      ];
      count = mv.count ∙ live_before-gap gi b p gap;
    }
      where
        earlier : (gj sj : ℕ) → Before gi b gj sj → Before (suc gi) 0 gj sj
        earlier gj sj (inl r) = inl (omega arith)
        earlier gj sj (inr (r, z)) = inl (omega arith)

        split :
            (gj sj : ℕ)
            → sj < l.group_size
            → Before (suc gi) 0 gj sj
            → Before gi b gj sj ⊎ ((gj ≡ gi) × (b ≤ sj))
        split gj sj lt (inl r) = ground arith
        split gj sj lt (inr (r, z)) = absurd (omega arith)
