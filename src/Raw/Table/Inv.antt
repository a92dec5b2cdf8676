-- ===== src/Raw/Table/Inv.antt =====
-- The invariant of a `RawTable` of src/raw/overflow_table.rs.
use optimap.Prelude.{
  ℕ, ◌+◌, ◌*◌, ◌^◌, ◌≤◌, ◌<◌, ◌==◌, ◌≡◌, ◌≢◌, ◌&&◌, if◌then◌else◌, to_nat, Bool, true, false,
  Option, none, some, refl, sym, ap, ◌∙◌, arith, inl, inr, ◌⊎◌,
}
use optimap.Prelude.Count.{sum_below, sum_below_room, sum_below_change, sum_below_congr}
use optimap.Prelude.Mod.{addr_inj_row, addr_inj_col}
use optimap.Raw.Key.{Key}
use optimap.Raw.Layout.{Layout, IsLayout, bucket_index}
use optimap.Raw.Layout.Memory.{IsBytes, tag_at, has_at}
use optimap.Raw.Probe.{visited}
use optimap.Raw.Table.{Table, group_index, set_bucket}
use optimap.Raw.Tag.{tag}

-- A test of two slots for being one.
pub same_slot : (gi gj si sj : ℕ) → (gi == gj && si == sj) ≡ true → (gi ≡ gj) × (si ≡ sj)
same_slot gi gj si sj h = ground arith

-- Whether a bucket holds a pair.
abbrev pub is_live {ℓ} : {A : Type ℓ} → Option A → Bool
is_live none = false
is_live (some a) = true

module _ {ℓ} {K V : Type ℓ} (l : Layout) where
  -- The bucket of a slot.
  abbrev pub bucket_at : Table K V → ℕ → ℕ → Option (K × V)
  bucket_at t gi si = t.buckets (bucket_index l gi si)

  -- A group and a slot of the table.
  abbrev pub InTable : Table K V → ℕ → ℕ → Type 0
  InTable t gi si = (gi ≤ t.mask) × (si < l.group_size)

  -- The probe sequence of a hash reaches the group, over groups that all have the overflow bit.
  pub record Reaches (t : Table K V) (h gi : ℕ) : Type 0 where
    pub steps : ℕ
    pub inside : steps ≤ t.mask
    pub arrives : visited t.mask (group_index l t h) steps ≡ gi
    pub marked :
        (i : ℕ) → i < steps → has_at l t.mask t.ctrl (visited t.mask (group_index l t h) i) h ≡ true

  -- The number of live buckets of a group and of the table.
  unfoldable pub live_in_group : Table K V → ℕ → ℕ
  live_in_group t gi = sum_below l.group_size (λ si. to_nat (is_live (bucket_at t gi si)))

  unfoldable pub live : Table K V → ℕ
  live t = sum_below (t.mask + 1) (live_in_group t)

  -- A pair stands in the table.
  pub record Holds (t : Table K V) (k : K) (v : V) : Type ℓ where
    pub group : ℕ
    pub slot : ℕ
    pub inside : InTable t group slot
    pub pair : bucket_at t group slot ≡ some (k, v)

  abbrev pub Absent : Table K V → K → Type ℓ
  Absent t k = (gi si : ℕ) (v : V) → InTable t gi si → bucket_at t gi si ≢ some (k, v)

  module _ ⦃key : Key K⦄ where
    pub record IsSound (t : Table K V) : Type ℓ where
      pub exponent : ℕ
      pub groups : t.mask + 1 ≡ 2 ^ exponent
      pub small : 2 ^ exponent ≤ 2 ^ 62
      pub bytes : IsBytes t.ctrl
      pub vacant :
          (gi si : ℕ) → InTable t gi si → bucket_at t gi si ≡ none → tag_at l t.ctrl gi si ≡ 0
      pub tagged :
          (gi si : ℕ) (k : K) (v : V)
          → InTable t gi si
          → bucket_at t gi si ≡ some (k, v)
          → tag_at l t.ctrl gi si ≡ tag l.feature l.tag_kind (key.hash k)
      pub reached :
          (gi si : ℕ) (k : K) (v : V)
          → InTable t gi si
          → bucket_at t gi si ≡ some (k, v)
          → Reaches t (key.hash k) gi
      pub once :
          (gi si gj sj : ℕ) (k : K) (v w : V)
          → InTable t gi si
          → InTable t gj sj
          → bucket_at t gi si ≡ some (k, v)
          → bucket_at t gj sj ≡ some (k, w)
          → (gi ≡ gj) × (si ≡ sj)
      pub counted : t.len ≡ live t

module _ (l : Layout) (ok : IsLayout l) where
  -- Slots have buckets of their own.
  pub bucket_index_inj :
      (gi si gj sj : ℕ)
      → si < l.group_size
      → sj < l.group_size
      → bucket_index l gi si ≡ bucket_index l gj sj
      → (gi ≡ gj) × (si ≡ sj)
  unfolding bucket_index
  bucket_index_inj gi si gj sj p q e = (
    addr_inj_row l.bucket_stride gi gj si sj (omega (arith, ok.stride_fits))
        (omega (arith, ok.stride_fits)) e,
    addr_inj_col l.bucket_stride gi gj si sj (omega (arith, ok.stride_fits))
        (omega (arith, ok.stride_fits)) e,
  )

  pub bucket_index_test :
      (gi si gj sj : ℕ)
      → si < l.group_size
      → sj < l.group_size
      → (bucket_index l gj sj == bucket_index l gi si) ≡ (gi == gj && si == sj)
  unfolding bucket_index
  bucket_index_test gi si gj sj p q = ground (arith, bucket_index_inj gi si gj sj p q)

  module _ {ℓ} {K V : Type ℓ} where
    -- What stands at a slot after one bucket was written.
    pub set_bucket-at :
        (b : ℕ → Option (K × V)) (e : Option (K × V)) (gi si gj sj : ℕ)
        → si < l.group_size
        → sj < l.group_size
        → set_bucket b (bucket_index l gi si) e (bucket_index l gj sj)
          ≡ (if gi == gj && si == sj then e else b (bucket_index l gj sj))
    unfolding set_bucket
    set_bucket-at b e gi si gj sj p q = rw (bucket_index_test gi si gj sj p q)

    -- Two tables that differ in one bucket, which holds `e` in the second.
    abbrev pub Differ : Table K V → Table K V → ℕ → ℕ → Option (K × V) → Type ℓ
    Differ t u gi si e =
        (gj sj : ℕ)
        → InTable l t gj sj
        → bucket_at l u gj sj ≡ (if gi == gj && si == sj then e else bucket_at l t gj sj)

    if_here : (gi si : ℕ) (x y : Option (K × V)) → (if gi == gi && si == si then x else y) ≡ x
    if_here gi si x y = let e : (gi == gi && si == si) ≡ true = ground arith in rw e

    if_elsewhere :
        (gi si gj sj : ℕ) (x y : Option (K × V))
        → (gi ≢ gj) ⊎ (si ≢ sj)
        → (if gi == gj && si == sj then x else y) ≡ y
    if_elsewhere gi si gj sj x y h = let e : (gi == gj && si == sj) ≡ false = ground arith in rw e

    module _ (t u : Table K V) (e : Option (K × V)) (gi si : ℕ) (inside : InTable l t gi si)
        (differ : Differ t u gi si e) where
      live_in_group_change :
          live_in_group l u gi + to_nat (is_live (bucket_at l t gi si))
          ≡ live_in_group l t gi + to_nat (is_live e)
      unfolding live_in_group
      live_in_group_change =
          let f = λ (u : Table K V) (s : ℕ). to_nat (is_live (bucket_at l u gi s)) in
          let here = differ gi si inside ∙ if_here gi si e (bucket_at l t gi si) in
          omega (
            arith,
            sum_below_change l.group_size si (f u) (f t) inside.1 (λ s p ne.
                ap (λ b. to_nat (is_live b))
                  (differ gi s (inside.0, p)
                    ∙ if_elsewhere gi si gi s e (bucket_at l t gi s) (inr (λ q. ne (sym q))))),
            ap (λ b. to_nat (is_live b)) here,
          )

      live_in_group_same :
          (gj : ℕ) → gj ≤ t.mask → gj ≢ gi → live_in_group l u gj ≡ live_in_group l t gj
      unfolding live_in_group
      live_in_group_same gj p ne = sum_below_congr l.group_size _ _ (λ s q.
          ap (λ b. to_nat (is_live b))
            (differ gj s (p, q)
              ∙ if_elsewhere gi si gj s e (bucket_at l t gj s) (inl (λ q. ne (sym q)))))

      -- A write of one bucket changes the count by what it puts there and what it takes away.
      pub live_change :
          u.mask ≡ t.mask
          → live l u + to_nat (is_live (bucket_at l t gi si)) ≡ live l t + to_nat (is_live e)
      unfolding live
      live_change m =
          let width : live l u ≡ sum_below (t.mask + 1) (live_in_group l u) =
            ap (λ n. sum_below (n + 1) (live_in_group l u)) m in
          omega (
            arith,
            width,
            sum_below_change (t.mask + 1) gi (live_in_group l u) (live_in_group l t)
                (omega (arith, inside.0)) (λ gj p ne. live_in_group_same gj (omega arith) ne),
            live_in_group_change,
          )

    dead_bucket : (b : Option (K × V)) → to_nat (is_live b) < 1 → b ≡ none
    dead_bucket none h = refl
    dead_bucket (some x) h = absurd (omega arith)

    -- A table with fewer pairs than slots has an empty slot.
    pub live_room :
        (t : Table K V)
        → live l t < (t.mask + 1) * l.group_size
        → (gi : ℕ) × (si : ℕ) × InTable l t gi si × (bucket_at l t gi si ≡ none)
    unfolding live live_in_group
    live_room t h =
        let (gi, p, q) = sum_below_room (t.mask + 1) l.group_size (live_in_group l t) h in
        let f = λ (s : ℕ). to_nat (is_live (bucket_at l t gi s)) in
        let (si, r, dead) = sum_below_room l.group_size 1 f (omega arith) in
        (gi, si, (omega arith, r), dead_bucket (bucket_at l t gi si) dead)
