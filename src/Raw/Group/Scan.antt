-- ===== src/Raw/Group/Scan.antt =====
-- An ascending list of slots that leaves out only slots with a property.
use optimap.Prelude.{
  ℕ, zero, suc, ◌≤◌, ◌<◌, ◌≡◌, Bool, false, List, [], ◌∷◌, map, arith, Bool-cases, inl, inr,
}
use native.Mathlib.Decide.{dec_lt}
use optimap.Raw.Bitmask.Positions.{positions}

-- The list ascends from `b` to below `n`, and each slot there that it leaves out has the property.
abbrev pub Scan {ℓ} : (ℕ → Type ℓ) → ℕ → ℕ → List ℕ → Type ℓ
Scan q n b [] = (j : ℕ) → b ≤ j → j < n → q j
Scan q n b (x ∷ xs) = (b ≤ x) × (x < n) × ((j : ℕ) → b ≤ j → j < x → q j) × Scan q n (suc x) xs

Scan-shift {ℓ} :
    (q : ℕ → Type ℓ) (n b : ℕ) (xs : List ℕ)
    → Scan (λ i. q (suc i)) n b xs
    → Scan q (suc n) (suc b) (map suc xs)
Scan-shift q n b [] h = tail_shift
  where
    tail_shift : (j : ℕ) → suc b ≤ j → j < suc n → q j
    tail_shift zero p r = absurd (omega arith)
    tail_shift (suc j) p r = h j (omega arith) (omega arith)
Scan-shift q n b (x ∷ xs) (c, d, gap, rest) =
    (omega arith, omega arith, gap_shift, Scan-shift q n (suc x) xs rest)
  where
    gap_shift : (j : ℕ) → suc b ≤ j → j < suc x → q j
    gap_shift zero p r = absurd (omega arith)
    gap_shift (suc j) p r = gap j (omega arith) (omega arith)

-- Slots with the property may stand before the list.
pub Scan-widen {ℓ} :
    (q : ℕ → Type ℓ) (n b c : ℕ) (xs : List ℕ)
    → b ≤ c
    → ((j : ℕ) → b ≤ j → j < c → q j)
    → Scan q n c xs
    → Scan q n b xs
Scan-widen q n b c [] p h s =
    λ j x y. elim (dec_lt j c) [ yes lt ↦ h j x lt | no ge ↦ s j (omega arith) y ]
Scan-widen q n b c (x ∷ xs) p h (lo, d, gap, rest) = (
  omega arith,
  d,
  λ j y z. elim (dec_lt j c) [ yes lt ↦ h j y lt | no ge ↦ gap j (omega arith) z ],
  rest,
)

-- The positions of a test leave out only what fails it.
pub positions-Scan {ℓ} :
    (q : ℕ → Type ℓ) (n : ℕ) (p : ℕ → Bool)
    → ((i : ℕ) → i < n → p i ≡ false → q i)
    → Scan q n 0 (positions p n)
unfolding positions
positions-Scan q zero p h = λ j a b. absurd (omega arith)
positions-Scan q (suc n) p h =
    let rest =
      Scan-shift q n 0 (positions (λ i. p (suc i)) n)
        (positions-Scan (λ i. q (suc i)) n (λ i. p (suc i)) (λ i a b. h (suc i) (omega arith) b)) in
    elim (Bool-cases (p 0)) [
      | inl e ↦ rw e (omega arith, omega arith, λ j a b. absurd (omega arith), rest)
      | inr e ↦ rw e (Scan-widen q (suc n) 0 1 _ (omega arith) (first (h 0 (omega arith) e)) rest)
    ]
  where
    first : q 0 → (j : ℕ) → 0 ≤ j → j < 1 → q j
    first z zero a b = z
    first z (suc j) a b = absurd (omega arith)
