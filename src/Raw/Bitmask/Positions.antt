-- ===== src/Raw/Bitmask/Positions.antt =====
-- The iterator of src/raw/bitmask.rs, over a word that is given bit by bit.
use optimap.Prelude.{
  ℕ, zero, suc, ◌+◌, ◌-◌, ◌*◌, ◌/◌, ◌%◌, ◌≤◌, ◌<◌, bit_and, ◌==◌, if◌then◌else◌, to_nat, Bool, some,
  List, [], ◌∷◌, map, ◌≡◌, refl, ap, arith, ◌^◌, not, Bool-cases, ◌∙◌, inl, inr,
}
use native.Mathlib.Nat.{pow-suc}
use optimap.Prelude.Mod.{mod_of_eq}
use optimap.Prelude.Bits.{bit_and_step, bit_and_mask}
use optimap.Raw.Bitmask.{count_zeros, trailing_zeros, next, drain}

-- The word whose bit `i` is `p i`, for the `i` below `n`.
unfoldable pub word : (ℕ → Bool) → ℕ → ℕ
word p zero = 0
word p (suc n) = to_nat (p 0) + 2 * word (λ i. p (suc i)) n

-- The `i` below `n` with `p i`, in ascending order.
unfoldable pub positions : (ℕ → Bool) → ℕ → List ℕ
positions p zero = []
positions p (suc n) =
    let rest = map suc (positions (λ i. p (suc i)) n) in if p 0 then 0 ∷ rest else rest

count_zeros_fuel : (f g x : ℕ) → 0 < x → x ≤ f → x ≤ g → count_zeros f x ≡ count_zeros g x
unfolding count_zeros
count_zeros_fuel zero g x h p q = absurd (omega arith)
count_zeros_fuel (suc f) zero x h p q = absurd (omega arith)
count_zeros_fuel (suc f) (suc g) x h p q = ground (arith, count_zeros_fuel f g (x / 2))

-- One halving of a positive word.
trailing_zeros_step :
    (x : ℕ)
    → 0 < x
    → trailing_zeros x ≡ (if x % 2 == 1 then 0 else suc (count_zeros (x - 1) (x / 2)))
unfolding trailing_zeros
trailing_zeros_step zero h = absurd (omega arith)
trailing_zeros_step (suc x) h = let e : suc x - 1 ≡ x = omega arith in rw e (ground arith)

trailing_zeros_even : (y : ℕ) → 0 < y → trailing_zeros (2 * y) ≡ suc (trailing_zeros y)
unfolding trailing_zeros
trailing_zeros_even y h =
    let e : 2 * y / 2 ≡ y = omega arith in
    let step = rw e at (trailing_zeros_step (2 * y) (omega arith)) in
    ground (arith, step, count_zeros_fuel (2 * y - 1) y y)

trailing_zeros_odd : (y : ℕ) → trailing_zeros (1 + 2 * y) ≡ 0
trailing_zeros_odd y = ground (arith, trailing_zeros_step (1 + 2 * y))

bit_and_self_fuel : (f x : ℕ) → x ≤ f → bit_and x x ≡ x
bit_and_self_fuel f zero h = refl
bit_and_self_fuel zero (suc x) h = absurd (omega arith)
bit_and_self_fuel (suc f) (suc x) h =
    omega (arith, bit_and_step (suc x) (suc x), bit_and_self_fuel f (suc x / 2) (omega arith))

and_pred_even : (y : ℕ) → 0 < y → bit_and (2 * y) (2 * y - 1) ≡ 2 * bit_and y (y - 1)
and_pred_even y h =
    let a : 2 * y / 2 ≡ y = omega arith in
    let b : (2 * y - 1) / 2 ≡ y - 1 = omega arith in
    let step = rw (a, b) at (bit_and_step (2 * y) (2 * y - 1)) in omega (arith, step)

and_pred_odd : (y : ℕ) → bit_and (1 + 2 * y) (1 + 2 * y - 1) ≡ 2 * y
and_pred_odd y =
    let a : (1 + 2 * y) / 2 ≡ y = omega arith in
    let b : (1 + 2 * y - 1) / 2 ≡ y = omega arith in
    let step = rw (a, b) at (bit_and_step (1 + 2 * y) (1 + 2 * y - 1)) in
    omega (arith, step, bit_and_self_fuel y y (omega arith))

next_odd : (y : ℕ) → next (1 + 2 * y) ≡ some (0, 2 * y)
unfolding next
next_odd y = ground (arith, trailing_zeros_odd y, and_pred_odd y)

next_even : (y : ℕ) → 0 < y → next (2 * y) ≡ some (suc (trailing_zeros y), 2 * bit_and y (y - 1))
unfolding next
next_even y h = ground (arith, trailing_zeros_even y h, and_pred_even y h)

next_pos : (y : ℕ) → 0 < y → next y ≡ some (trailing_zeros y, bit_and y (y - 1))
unfolding next
next_pos y h = ground arith

drain_odd : (f y : ℕ) → drain (suc f) (1 + 2 * y) ≡ 0 ∷ drain f (2 * y)
unfolding drain
drain_odd f y = rw (next_odd y, drain)

drain_zero : (f : ℕ) → drain f 0 ≡ []
unfolding drain next
drain_zero zero = refl
drain_zero (suc f) = refl

drain_even : (f y : ℕ) → drain f (2 * y) ≡ map suc (drain f y)
unfolding drain
drain_even zero y = refl
drain_even (suc f) zero = rw drain_zero
drain_even (suc f) (suc y) =
    rw (next_even (suc y) (omega arith), next_pos (suc y) (omega arith), drain)
      (ap (λ r. suc (trailing_zeros (suc y)) ∷ r) (drain_even f (bit_and (suc y) (suc y - 1))))

-- With fuel for each position, the iterator yields exactly the positions of the set bits of the
-- word, in ascending order.
pub drain-word : (f n : ℕ) (p : ℕ → Bool) → n ≤ f → drain f (word p n) ≡ positions p n
unfolding word positions
drain-word f zero p h = drain_zero f
drain-word zero (suc n) p h = absurd (omega arith)
drain-word (suc f) (suc n) p h = elim (Bool-cases (p 0)) [
  | inl e ↦
      rw (e, positions)
        (drain_odd f _
          ∙ ap (λ r. 0 ∷ r) (drain_even f _ ∙ ap (map suc) (drain-word f n _ (omega arith))))
  | inr e ↦
      rw (e, positions)
        (ap (drain (suc f)) (omega arith)
          ∙ (drain_even (suc f) (word (λ i. p (suc i)) n)
              ∙ ap (map suc) (drain-word (suc f) n _ (omega arith))))
]

-- Twice a split word, with its lowest bit.
split_double : (b x r y g : ℕ) → x ≡ r * 2 ^ g + y → b + 2 * x ≡ r * 2 ^ suc g + (b + 2 * y)
split_double b x r y g e = omega (arith, e, ap (λ (t : ℕ). r * t) (pow-suc 2 g))

pub word_split : (p : ℕ → Bool) (g w : ℕ) → g ≤ w → (r : ℕ) × (word p w ≡ r * 2 ^ g + word p g)
unfolding word
word_split p zero w h = (word p w, omega arith)
word_split p (suc g) zero h = absurd (omega arith)
word_split p (suc g) (suc w) h =
    let (r, e) = word_split (λ i. p (suc i)) g w (omega arith) in
    (r, split_double (to_nat (p 0)) (word (λ i. p (suc i)) w) r (word (λ i. p (suc i)) g) g e)

pub word-lt : (p : ℕ → Bool) (n : ℕ) → word p n < 2 ^ n
unfolding word
word-lt p zero = omega arith
word-lt p (suc n) = ground (arith, word-lt (λ i. p (suc i)) n, pow-suc 2 n)

pub word-not : (p : ℕ → Bool) (n : ℕ) → word (λ i. not (p i)) n + word p n + 1 ≡ 2 ^ n
unfolding word
word-not p zero = omega arith
word-not p (suc n) = ground (arith, word-not (λ i. p (suc i)) n, pow-suc 2 n)

-- The slot mask keeps the bits of the slots.
pub word_masked : (p : ℕ → Bool) (g w : ℕ) → g ≤ w → bit_and (word p w) (2 ^ g - 1) ≡ word p g
word_masked p g w h =
    let (r, e) = word_split p g w h in
    bit_and_mask g (word p w) ∙ mod_of_eq (word p w) r (2 ^ g) (word p g) e (word-lt p g)
