-- ===== src/Raw/Probe.antt =====
-- Triangular probing: the groups that `gi = (gi.wrapping_add(probe)) & self.mask` visits when
-- `probe` goes 1, 2, 3, … (src/raw/overflow_table.rs). The table has 2 ^ k groups.
use optimap.Prelude.{
  ℕ, zero, suc, ◌+◌, ◌-◌, ◌*◌, ◌/◌, ◌%◌, ◌^◌, ◌≤◌, ◌<◌, ◌≡◌, ◌⊎◌, inl, inr, refl, sym, arith,
  bit_and, ◌∙◌, ap,
}
use native.Mathlib.Nat.{pow-suc, mod-lt, div-add-mod, mod-mod_of_dvd, dvd-mul_left, mod-eq_of_lt}
use native.Mathlib.Decide.{dec_lt}
use optimap.Prelude.Mod.{pow_two_pos, mod_of_eq, add-mod_step}
use optimap.Prelude.Bits.{bit_and_mask}

-- usize
abbrev pub wrapping_add : ℕ → ℕ → ℕ
wrapping_add a b = (a + b) % 2 ^ 64

-- One probe step.
unfoldable pub next_group : ℕ → ℕ → ℕ → ℕ
next_group mask gi probe = bit_and (wrapping_add gi probe) mask

-- 0 + 1 + … + n
pub triangle : ℕ → ℕ
triangle zero = 0
triangle (suc n) = triangle n + suc n

-- The group that is visited after `j` steps from `home`.
unfoldable pub visited : ℕ → ℕ → ℕ → ℕ
visited mask home zero = home
visited mask home (suc j) = next_group mask (visited mask home j) (suc j)

twice_triangle : (n : ℕ) → 2 * triangle n ≡ n * suc n
unfolding triangle
twice_triangle zero = refl
twice_triangle (suc n) = omega (arith, twice_triangle n)

-- The steps j and 2P - 1 - j differ by P, modulo 2P.
triangle_mirror :
    (P j i : ℕ) → 2 * P ≡ j + i + 1 → triangle i + P * (2 * j + 1) ≡ triangle j + P * (2 * P)
triangle_mirror P j i e =
    let a = twice_triangle i in
    let b = twice_triangle j in
    let c : 2 * P * (2 * j + 1) ≡ (j + i + 1) * (2 * j + 1) = ap (λ (t : ℕ). t * (2 * j + 1)) e in
    let d : 2 * P * (2 * P) ≡ (j + i + 1) * (j + i + 1) = ap (λ (t : ℕ). t * t) e in
    omega (arith, a, b, c, d)

-- From the step whose number is `t` modulo 2P to the mirrored step, whose number is `r`.
mirror_high :
    (P j i q t r : ℕ)
    → j < P
    → 2 * P ≡ j + i + 1
    → triangle j ≡ q * (2 * P) + t
    → t ≡ r + P
    → triangle i ≡ (q + (P - j)) * (2 * P) + r
mirror_high P j i q t r h e f g =
    let d : (P - j) * P + j * P ≡ P * P = omega (arith, ap (λ (x : ℕ). x * P) (P_split P j h)) in
    omega (arith, triangle_mirror P j i e, d, f, g)
  where
    P_split : (P j : ℕ) → j < P → (P - j) + j ≡ P
    P_split P j h = omega arith

mirror_low :
    (P j i q t r : ℕ)
    → j < P
    → 2 * P ≡ j + i + 1
    → triangle j ≡ q * (2 * P) + t
    → r ≡ t + P
    → triangle i ≡ (q + (P - j - 1)) * (2 * P) + r
mirror_low P j i q t r h e f g =
    let d : (P - j - 1) * P + j * P + P ≡ P * P =
      omega (arith, ap (λ (x : ℕ). x * P) (P_split P j h)) in
    omega (arith, triangle_mirror P j i e, d, f, g)
  where
    P_split : (P j : ℕ) → j < P → (P - j - 1) + j + 1 ≡ P
    P_split P j h = omega arith

mod_cases : (P t : ℕ) → t < 2 * P → ((t < P) × (t % P ≡ t)) ⊎ ((P ≤ t) × (t % P + P ≡ t))
mod_cases P t h = elim (dec_lt t P) [
  | yes p ↦ inl (p, mod-eq_of_lt p)
  | no p ↦
      let e = mod_of_eq t 1 P (t - P) (omega arith) (omega arith) in inr (omega arith, omega arith)
]

-- Two numbers below 2P with one remainder modulo P are equal or differ by P.
half_cases :
    (P t r : ℕ) → t < 2 * P → r < 2 * P → t % P ≡ r % P → (t ≡ r) ⊎ ((t ≡ r + P) ⊎ (r ≡ t + P))
half_cases P t r h k e = ground (arith, mod_cases P t h, mod_cases P r k)

mod_of_double : (a P : ℕ) → 0 < P → a % (2 * P) % P ≡ a % P
mod_of_double a P h = mod-mod_of_dvd P a (dvd-mul_left P 2)

-- Every remainder modulo 2 ^ k is that of a triangular number below step 2 ^ k.
triangle_onto : (k r : ℕ) → r < 2 ^ k → (j : ℕ) × (j < 2 ^ k) × (triangle j % 2 ^ k ≡ r)
unfolding triangle
triangle_onto zero r h = (0, omega arith, omega arith)
triangle_onto (suc k) r h =
    let P = 2 ^ k in
    let pos = pow_two_pos k in
    let d : 2 ^ suc k ≡ 2 * P = omega (arith, pow-suc 2 k) in
    let (j, lt, e) = triangle_onto k (r % P) (mod-lt r pos) in
    let t = triangle j % (2 * P) in
    let q = triangle j / (2 * P) in
    let f : triangle j ≡ q * (2 * P) + t = omega (arith, div-add-mod (triangle j) (2 * P)) in
    let i = 2 * P - 1 - j in
    elim (half_cases P t r (mod-lt (triangle j) (omega arith)) (omega arith)
      (mod_of_double (triangle j) P pos ∙ e)) [
        | inl s ↦ (j, omega arith, rw d s)
        | inr (inl s) ↦ (
          i,
          omega arith,
          rw d (
              mod_of_eq (triangle i) (q + (P - j)) (2 * P) r
                (mirror_high P j i q t r lt (omega arith) f s) (omega arith)),
        )
        | inr (inr s) ↦ (
          i,
          omega arith,
          rw d (
              mod_of_eq (triangle i) (q + (P - j - 1)) (2 * P) r
                (mirror_low P j i q t r lt (omega arith) f s) (omega arith)),
        )
      ]

next_group-mod :
    (k mask gi probe : ℕ)
    → mask ≡ 2 ^ k - 1
    → gi < 2 ^ 63
    → probe ≤ 2 ^ 62
    → next_group mask gi probe ≡ (gi + probe) % 2 ^ k
unfolding next_group
next_group-mod k mask gi probe e h p =
    let w : wrapping_add gi probe ≡ gi + probe = mod-eq_of_lt (omega arith) in
    rw (w, e) (bit_and_mask k (gi + probe))

-- A distance modulo N leads from `home` to `g`.
onto_step : (N home g t : ℕ) → home < N → g < N → t % N ≡ (g + (N - home)) % N → (home + t) % N ≡ g
onto_step N home g t h l e =
    let a : home + t ≡ t + home = omega arith in
    rw (a, ← add-mod_step t home N, e, add-mod_step (g + (N - home)) home N)
      (mod_of_eq (g + (N - home) + home) 1 N g (omega arith) l)

module _ (k mask : ℕ) (small : 2 ^ k ≤ 2 ^ 62) (ones : mask ≡ 2 ^ k - 1) where
  -- A step stays inside the table.
  pub next_group-lt : (gi probe : ℕ) → next_group mask gi probe < 2 ^ k
  unfolding next_group
  next_group-lt gi probe =
      rw (ones, bit_and_mask k (wrapping_add gi probe)) (mod-lt _ (pow_two_pos k))

  pub visited-mod :
      (home j : ℕ) → home < 2 ^ k → j ≤ 2 ^ k → visited mask home j ≡ (home + triangle j) % 2 ^ k
  unfolding visited triangle
  visited-mod home zero h l = let e : home + 0 ≡ home = omega arith in rw e (sym (mod-eq_of_lt h))
  visited-mod home (suc j) h l =
      let ih = visited-mod home j h (omega arith) in
      let below : visited mask home j < 2 ^ k = rw ih (mod-lt _ (pow_two_pos k)) in
      next_group-mod k mask (visited mask home j) (suc j) ones (omega arith) (omega arith)
      ∙ (ap (λ g. (g + suc j) % 2 ^ k) ih
          ∙ (add-mod_step (home + triangle j) (suc j) (2 ^ k) ∙ ap (λ s. s % 2 ^ k) (omega arith)))

  pub visited-lt : (home j : ℕ) → home < 2 ^ k → visited mask home j < 2 ^ k
  unfolding visited
  visited-lt home zero h = h
  visited-lt home (suc j) h = next_group-lt (visited mask home j) (suc j)

  -- Triangular probing over a power of two visits every group: from any home, each group is
  -- reached in fewer steps than there are groups.
  pub visited_onto :
      (home g : ℕ) → home < 2 ^ k → g < 2 ^ k → (j : ℕ) × (j < 2 ^ k) × (visited mask home j ≡ g)
  visited_onto home g h l =
      let N = 2 ^ k in
      let (j, lt, e) = triangle_onto k ((g + (N - home)) % N) (mod-lt _ (pow_two_pos k)) in
      (j, lt, visited-mod home j h (omega arith) ∙ onto_step N home g (triangle j) h l e)
