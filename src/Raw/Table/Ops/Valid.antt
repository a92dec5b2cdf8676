-- ===== src/Raw/Table/Ops/Valid.antt =====
-- The invariant between the operations of src/raw/overflow_table.rs, and what an operation does to
-- the pairs of a table.
use optimap.Prelude.{
  ℕ, suc, ◌+◌, ◌*◌, ◌/◌, ◌≤◌, ◌<◌, ◌≡◌, ◌≢◌, ◌↔◌, ◌⊎◌, to_nat, false, Option, none, some, refl, sym,
  ap, ◌∙◌, arith, none-ne-some,
}
use native.Mathlib.Nat.{
  div-lt_iff_lt-mul, mul-lt-mul_of_pos_left, div-mul-le_self, mul-pos, le-div_iff_mul-le,
  mul-le-mul_right,
}
use optimap.Prelude.Count.{sum_below, sum_below-suc, sum_below_mono}
use optimap.Raw.Key.{Key}
use optimap.Raw.Layout.{Layout, IsLayout}
use optimap.Raw.Layout.Memory.{has_at}
use optimap.Raw.Run.{done}
use optimap.Raw.Table.{Table}
use optimap.Raw.Table.Find.{find_by_hash}
use optimap.Raw.Table.Find.Laws.{find_by_hash-hit}
use optimap.Raw.Table.Inv.{bucket_at, is_live, InTable, Holds, Absent, IsSound, live, live_in_group}

module _ {ℓ} {K V : Type ℓ} (l : Layout) where
  -- Some group does not have the overflow bit of the hash: a search for an absent key ends.
  abbrev pub Stops : Table K V → ℕ → Type 0
  Stops t h = (g : ℕ) × (g ≤ t.mask) × (has_at l t.mask t.ctrl g h ≡ false)

  -- What an optional value says of a key.
  abbrev pub Reads : Table K V → K → Option V → Type ℓ
  Reads t k none = Absent l t k
  Reads t k (some v) = Holds l t k v

  -- `u` has the pairs of `t`, but for the key `k`, whose value is `v`.
  abbrev pub Stored : Table K V → Table K V → K → V → Type ℓ
  Stored t u k v =
      (x : K) (w : V) → Holds l u x w ↔ (((k ≡ x) × (v ≡ w)) ⊎ ((k ≢ x) × Holds l t x w))

  -- `u` has the pairs of `t` but the one of the key `k`.
  abbrev pub Removed : Table K V → Table K V → K → Type ℓ
  Removed t u k = (x : K) (w : V) → Holds l u x w ↔ ((k ≢ x) × Holds l t x w)

  module _ ⦃key : Key K⦄ where
    -- A sound table within its load limit; the limit is at most the load factor of its slots.
    pub record IsValid (t : Table K V) : Type ℓ where
      pub sound : IsSound l t
      pub within : t.len ≤ t.max_load
      pub limit : t.max_load ≤ (t.mask + 1) * l.group_size * l.load_factor_num / l.load_factor_den

-- A summand is at most the sum.
summand-le : (n i : ℕ) (f : ℕ → ℕ) → i < n → f i ≤ sum_below n f
summand-le n i f h = omega (arith, sum_below-suc i f, sum_below_mono (suc i) n f h)

-- A load factor below one leaves a slot free.
pub load-lt : (cap num den : ℕ) → 0 < cap → num < den → cap * num / den < cap
load-lt cap num den p q = (div-lt_iff_lt-mul {k = den} (omega arith)).1 (mul-lt-mul_of_pos_left q p)

-- Doubling a table gives room for one more pair.
pub load_double :
    (n g num den : ℕ)
    → 0 < n
    → 0 < den
    → 1 ≤ g * num / den
    → n * g * num / den + 1 ≤ n * 2 * g * num / den
load_double n g num den p q h =
    let a : n * g * num / den * den ≤ n * g * num = div-mul-le_self (n * g * num) den in
    let b : 1 * den ≤ g * num = (le-div_iff_mul-le q).0 h in
    let c : 1 * (g * num) ≤ n * (g * num) = mul-le-mul_right (g * num) p in
    (le-div_iff_mul-le q).1 (omega (arith, a, b, c))

module _ {ℓ} {K V : Type ℓ} ⦃key : Key K⦄ (l : Layout) (ok : IsLayout l) where
  -- A valid table has a free slot.
  pub len-lt-slots : (t : Table K V) → IsValid l t → t.len < (t.mask + 1) * l.group_size
  len-lt-slots t v = omega (
    arith,
    v.within,
    v.limit,
    load-lt ((t.mask + 1) * l.group_size) l.load_factor_num l.load_factor_den
        (mul-pos (omega arith) ok.slots_pos) ok.num_lt_den,
  )

  live_empty :
      (t : Table K V) (gi si : ℕ) → InTable l t gi si → live l t ≡ 0 → bucket_at l t gi si ≡ none
  unfolding live live_in_group
  live_empty t gi si p e = dead (bucket_at l t gi si) refl
    where
      few : to_nat (is_live (bucket_at l t gi si)) ≡ 0
      few = omega (
        arith,
        e,
        summand-le (t.mask + 1) gi (live_in_group l t) (omega (arith, p.0)),
        summand-le l.group_size si (λ s. to_nat (is_live (bucket_at l t gi s))) p.1,
      )

      dead : (o : Option (K × V)) → bucket_at l t gi si ≡ o → o ≡ none
      dead none q = refl
      dead (some x) q = absurd (omega (arith, few, ap (λ c. to_nat (is_live c)) q))

  -- A table of length 0 holds nothing.
  pub len-zero-Absent : (t : Table K V) → IsSound l t → t.len ≡ 0 → (k : K) → Absent l t k
  len-zero-Absent t s e k gi si v p f =
      absurd (none-ne-some (sym (live_empty t gi si p (omega (arith, s.counted))) ∙ f))

  -- A search that finds nothing tells that the key is absent.
  pub find-none-Absent :
      (t : Table K V) (k : K)
      → IsSound l t
      → find_by_hash l t (key.hash k) (key.equal k) ≡ done none
      → Absent l t k
  find-none-Absent t k s e gi si v p f = cc (e, find_by_hash-hit l ok t s k v gi si p f)
