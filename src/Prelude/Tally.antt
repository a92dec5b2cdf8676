-- ===== src/Prelude/Tally.antt =====
-- Counting the cells of a grid that pass a test.
use Prim.Native.Nat.{ℕ, suc, ◌+◌, ◌*◌, ◌≤◌, ◌<◌}
use mathlib.Core.Path.{◌≡◌, sym, ap, ◌∙◌}
use mathlib.Core.Logic.{◌≢◌, ◌⊎◌, inl, inr}
use mathlib.Core.Bool.{Bool, true, false, ◌&&◌}
use native.Mathlib.Omega.{arith}
use optimap.Prelude.Tests.{to_nat, ◌==◌, if◌then◌else◌}
use optimap.Prelude.Count.{
  sum_below, sum_below_congr, sum_below_change, sum_below_room, sum_below-zero, sum_below-suc,
  sum_below_mono, sum_below-le, sum_below_gap, sum_below-none,
}

-- The cells of row `g` before column `b` that pass.
pub in_row : ℕ → (ℕ → ℕ → Bool) → ℕ → ℕ
in_row w p g = sum_below w (λ s. to_nat (p g s))

-- The cells of the first `n` rows of width `w` that pass.
pub tally : ℕ → ℕ → (ℕ → ℕ → Bool) → ℕ
unfolding in_row
tally n w p = sum_below n (in_row w p)

-- The test `q` is the test `p` but at one cell.
abbrev pub OneCell : ℕ → ℕ → (ℕ → ℕ → Bool) → (ℕ → ℕ → Bool) → ℕ → ℕ → Bool → Type 0
OneCell n w p q g s b = (h t : ℕ) → h < n → t < w → q h t ≡ (if g == h && s == t then b else p h t)

if_here : (g s : ℕ) (x y : Bool) → (if g == g && s == s then x else y) ≡ x
if_here g s x y = ground arith

if_elsewhere :
    (g s h t : ℕ) (x y : Bool) → (g ≢ h) ⊎ (s ≢ t) → (if g == h && s == t then x else y) ≡ y
if_elsewhere g s h t x y e = ground arith

module _ (n w : ℕ) (p q : ℕ → ℕ → Bool) (g s : ℕ) (b : Bool) (row : g < n) (col : s < w)
    (one : OneCell n w p q g s b) where
  in_row_change : in_row w q g + to_nat (p g s) ≡ in_row w p g + to_nat b
  unfolding in_row
  in_row_change = omega (
    arith,
    sum_below_change w s (λ t. to_nat (q g t)) (λ t. to_nat (p g t)) col
        (λ t c ne.
          ap to_nat (one g t row c ∙ if_elsewhere g s g t b (p g t) (inr (λ e. ne (sym e))))),
    ap to_nat (one g s row col ∙ if_here g s b (p g s)),
  )

  in_row_same : (h : ℕ) → h < n → h ≢ g → in_row w q h ≡ in_row w p h
  unfolding in_row
  in_row_same h r ne =
      sum_below_congr w _ _
        (λ t c. ap to_nat (one h t r c ∙ if_elsewhere g s h t b (p h t) (inl (λ e. ne (sym e)))))

  -- A change at one cell changes the count by what was there and what is there.
  pub tally_change : tally n w q + to_nat (p g s) ≡ tally n w p + to_nat b
  unfolding tally
  tally_change =
      omega (arith, sum_below_change n g (in_row w q) (in_row w p) row in_row_same, in_row_change)

fails : (b : Bool) → to_nat b < 1 → b ≡ false
fails b h = ground arith

-- Fewer than all cells pass: one fails.
pub tally_room :
    (n w : ℕ) (p : ℕ → ℕ → Bool)
    → tally n w p < n * w
    → (g : ℕ) × (s : ℕ) × (g < n) × (s < w) × (p g s ≡ false)
unfolding tally in_row
tally_room n w p h =
    let (g, r, q) = sum_below_room n w (in_row w p) h in
    let (s, c, z) = sum_below_room w 1 (λ t. to_nat (p g t)) (omega (arith, q)) in
    (g, s, r, c, fails (p g s) z)

pub tally-none :
    (n w : ℕ) (p : ℕ → ℕ → Bool) → ((g s : ℕ) → g < n → s < w → p g s ≡ false) → tally n w p ≡ 0
unfolding tally in_row
tally-none n w p h = sum_below-zero n _ (λ g r. sum_below-zero w _ (λ s c. ap to_nat (h g s r c)))

-- A cell that passes is counted.
pub tally-pos :
    (n w : ℕ) (p : ℕ → ℕ → Bool) (g s : ℕ) → g < n → s < w → p g s ≡ true → 0 < tally n w p
unfolding tally in_row
tally-pos n w p g s r c e = omega (
  arith,
  ap to_nat e,
  sum_below-suc s (λ t. to_nat (p g t)),
  sum_below_mono (suc s) w (λ t. to_nat (p g t)) c,
  sum_below-suc g (in_row w p),
  sum_below_mono (suc g) n (in_row w p) r,
)

-- The cells that pass in the first `g` rows and before column `b` of row `g`.
pub tally_before : ℕ → (ℕ → ℕ → Bool) → ℕ → ℕ → ℕ
unfolding tally in_row
tally_before w p g b = tally g w p + in_row b p g

module _ (w : ℕ) (p : ℕ → ℕ → Bool) where
  pub tally_before-le : (n g b : ℕ) → g < n → b ≤ w → tally_before w p g b ≤ tally n w p
  unfolding tally_before tally in_row
  tally_before-le n g b r c = omega (
    arith,
    sum_below_mono b w (λ s. to_nat (p g s)) c,
    sum_below-suc g (in_row w p),
    sum_below_mono (suc g) n (in_row w p) r,
  )

  -- Over cells that fail the count stays, and over one that passes it grows by one.
  pub tally_before-step :
      (g b x : ℕ)
      → b ≤ x
      → ((j : ℕ) → b ≤ j → j < x → p g j ≡ false)
      → p g x ≡ true
      → tally_before w p g (suc x) ≡ tally_before w p g b + 1
  unfolding tally_before in_row
  tally_before-step g b x c gap e =
      let f = λ (s : ℕ). to_nat (p g s) in
      omega (
        arith,
        sum_below-suc x f,
        sum_below_gap b x f c (λ j q r. ap to_nat (gap j q r)),
        ap to_nat e,
      )

  pub tally_before-gap :
      (g b : ℕ)
      → b ≤ w
      → ((j : ℕ) → b ≤ j → j < w → p g j ≡ false)
      → tally_before w p g b ≡ tally_before w p (suc g) 0
  unfolding tally_before tally in_row
  tally_before-gap g b c gap =
      let f = λ (s : ℕ). to_nat (p g s) in
      omega (
        arith,
        sum_below-suc g (in_row w p),
        sum_below_gap b w f c (λ j q r. ap to_nat (gap j q r)),
        sum_below-none (λ s. to_nat (p (suc g) s)),
      )

  pub tally_before-all : (n : ℕ) → tally_before w p n 0 ≡ tally n w p
  unfolding tally_before in_row
  tally_before-all n = omega (arith, sum_below-none (λ s. to_nat (p n s)))

  pub tally_before-start : tally_before w p 0 0 ≡ 0
  unfolding tally_before tally in_row
  tally_before-start =
      omega (arith, sum_below-none (in_row w p), sum_below-none (λ s. to_nat (p 0 s)))

test_le : (b : Bool) → to_nat b ≤ 1
test_le b = ground arith

pub tally-le : (n w : ℕ) (p : ℕ → ℕ → Bool) → tally n w p ≤ n * w
unfolding tally in_row
tally-le n w p =
    sum_below-le n w (in_row w p)
      (λ g r. omega (arith, sum_below-le w 1 (λ s. to_nat (p g s)) (λ s c. test_le (p g s))))
