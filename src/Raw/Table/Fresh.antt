-- ===== src/Raw/Table/Fresh.antt =====
-- A table after `allocate` of src/raw/overflow_table.rs.
use optimap.Prelude.{
  ℕ, ◌+◌, ◌-◌, ◌*◌, ◌^◌, ◌≤◌, ◌<◌, ◌≡◌, to_nat, false, none, some, refl, sym, ap, ◌∙◌, arith,
  lt→ltb,
}
use optimap.Prelude.Count.{sum_below-zero}
use optimap.Prelude.Mod.{addr-lt}
use optimap.Raw.Group.{Bytes}
use optimap.Raw.Key.{Key}
use optimap.Raw.Layout.{Layout, IsLayout}
use optimap.Raw.Layout.Memory.{IsBytes, tag_at, has_at}
use optimap.Raw.Overflow.{
  OverflowStrategy, byte_separate, bit_separate, embedded, overflow_ptr, has_overflow,
  overflow_bytes_to_zero,
}
use optimap.Raw.Table.{Table, allocate, zero_ctrl}
use optimap.Raw.Table.Inv.{InTable, Absent, IsSound, live, live_in_group, is_live}
use Prim.Native.Nat.{bit_and-bitwise}

-- Every overflow byte lies in the part of the allocation that is zeroed.
overflow_zeroed :
    (o : OverflowStrategy) (n stride gi : ℕ)
    → gi < n
    → 0 < stride
    → overflow_ptr o (n - 1) gi stride < n * stride + overflow_bytes_to_zero o n
unfolding overflow_ptr overflow_bytes_to_zero
overflow_zeroed byte_separate n stride gi h p =
    let e : n - 1 + 1 ≡ n = omega arith in rw e (omega arith)
overflow_zeroed bit_separate n stride gi h p =
    let e : n - 1 + 1 ≡ n = omega arith in rw e (omega arith)
overflow_zeroed embedded n stride gi h p =
    omega (arith, addr-lt stride n gi (stride - 1) h (omega arith))

module _ (l : Layout) (ok : IsLayout l) (n : ℕ) (m : Bytes) where
  zero_below :
      (a : ℕ) → a < n * l.meta_stride + overflow_bytes_to_zero l.overflow n → zero_ctrl l n m a ≡ 0
  unfolding zero_ctrl
  zero_below a h = rw (lt→ltb _ _ h)

  pub IsBytes-zero : IsBytes m → IsBytes (zero_ctrl l n m)
  unfolding zero_ctrl
  IsBytes-zero b a = ground (arith, b a)

  pub tag_at-zero : (gi si : ℕ) → gi < n → si < l.group_size → tag_at l (zero_ctrl l n m) gi si ≡ 0
  unfolding tag_at
  tag_at-zero gi si p q =
      zero_below (gi * l.meta_stride + si)
        (omega (arith, addr-lt l.meta_stride n gi si p (omega (arith, ok.slots_fit))))

  pub has_at-zero : (gi h : ℕ) → gi < n → has_at l (n - 1) (zero_ctrl l n m) gi h ≡ false
  unfolding has_at has_overflow
  has_at-zero gi h p =
      rw
        (
          zero_below (overflow_ptr l.overflow (n - 1) gi l.meta_stride) (
              overflow_zeroed l.overflow n l.meta_stride gi p
                (omega (arith, ok.slots_fit, ok.slots_pos))),
          bit_and-bitwise 0,
        )
        refl

module _ {ℓ} {K V : Type ℓ} ⦃key : Key K⦄ (l : Layout) (ok : IsLayout l) (t : Table K V) (k : ℕ)
    (small : 2 ^ k ≤ 2 ^ 62) (pos : 0 < 2 ^ k) where
  -- A table without pairs, over zeroed bytes.
  pub empty-IsSound :
      (u : Table K V)
      → u.mask ≡ 2 ^ k - 1
      → IsBytes u.ctrl
      → u.len ≡ 0
      → ((i : ℕ) → u.buckets i ≡ none)
      → ((gi si : ℕ) → InTable l u gi si → tag_at l u.ctrl gi si ≡ 0)
      → IsSound l u
  unfolding live live_in_group
  empty-IsSound u m b len clear tags = record {
    exponent = k;
    groups = omega arith;
    small = small;
    bytes = b;
    vacant = λ gi si p e. tags gi si p;
    tagged = λ gi si x w p e. absurd (none-ne-some (sym (clear _) ∙ e));
    reached = λ gi si x w p e. absurd (none-ne-some (sym (clear _) ∙ e));
    once = λ gi si gj sj x v w p q e f. absurd (none-ne-some (sym (clear _) ∙ e));
    counted =
        len
        ∙ sym (
            sum_below-zero (u.mask + 1) _ (λ i p.
              sum_below-zero l.group_size _ (λ j q. ap (λ c. to_nat (is_live c)) (clear _))));
  }
    where
      none-ne-some : {y : K × V} → none ≡ some y → ⊥
      none-ne-some q = cc

  -- An allocation of 2 ^ k groups, at most 2 ^ 62, for a table of length 0 gives a sound table.
  pub allocate-IsSound : t.len ≡ 0 → IsSound l (allocate l t (2 ^ k))
  unfolding allocate
  allocate-IsSound e =
      empty-IsSound (allocate l t (2 ^ k)) refl (IsBytes-zero l ok (2 ^ k) _ (λ a. omega arith)) e
        (λ i. refl) (λ gi si p. tag_at-zero l ok (2 ^ k) _ gi si (omega (arith, p.0)) p.1)

  pub allocate-Absent : (x : K) → Absent l (allocate l t (2 ^ k)) x
  unfolding allocate
  allocate-Absent x gi si v p e = cc

  pub allocate-has_at :
      (gi h : ℕ)
      → gi < 2 ^ k
      → has_at l (allocate l t (2 ^ k)).mask (allocate l t (2 ^ k)).ctrl gi h ≡ false
  unfolding allocate
  allocate-has_at gi h p = has_at-zero l ok (2 ^ k) _ gi h p
