-- ===== src/Raw/Group/Slots.antt =====
-- What the masks of src/raw/generic_group.rs say of the slots of a group. `g` is the number of
-- usable slots.
use optimap.Prelude.{
  ℕ, zero, suc, ◌+◌, ◌-◌, ◌^◌, ◌==◌, ◌≤◌, ◌<◌, bit_and, Bool, true, false, not, List, [], ◌∷◌, none,
  some, map, ◌≡◌, refl, arith, ap, ◌∙◌, Bool-cases, ◌&&◌, inl, inr,
}
use optimap.Raw.Bitmask.{to_list, lowest_set_bit, drain}
use optimap.Raw.Bitmask.Positions.{word, positions, drain-word, word_masked, word-not}
use optimap.Raw.Group.{
  Bytes, empty, match_byte, match_empty, match_non_empty, match_byte_and_empty, first_where,
}

module _ (w g : ℕ) (fits : g ≤ w) (bits : w ≤ 64) (m : Bytes) (ptr : ℕ) where
  -- Iterating the mask of `match_byte` visits exactly the usable slots that hold the byte, in
  -- ascending order.
  pub to_list-match_byte :
      (v : ℕ) → to_list (match_byte w (2 ^ g - 1) m ptr v) ≡ positions (λ i. m (ptr + i) == v) g
  unfolding to_list match_byte
  to_list-match_byte v = ap (drain 64) (word_masked _ g w fits) ∙ drain-word 64 g _ (omega arith)

  -- Iterating the mask of `match_non_empty` visits exactly the usable slots that are not empty.
  pub to_list-match_non_empty :
      to_list (match_non_empty w (2 ^ g - 1) m ptr) ≡ positions (λ i. not (m (ptr + i) == empty)) g
  unfolding to_list match_non_empty
  to_list-match_non_empty =
      let p : ℕ → Bool = λ i. m (ptr + i) == empty in
      let e : 2 ^ w - 1 - word p w ≡ word (λ i. not (p i)) w = omega (arith, word-not p w) in
      ap (drain 64) (ap (λ x. bit_and x (2 ^ g - 1)) e ∙ word_masked (λ i. not (p i)) g w fits)
      ∙ drain-word 64 g _ (omega arith)

pub lowest_first : (x : ℕ) → lowest_set_bit x ≡ first_where (to_list x) (λ _. true)
unfolding lowest_set_bit to_list first_where
lowest_first x = ground arith

pub match_empty-match_byte :
    (w s : ℕ) (m : Bytes) (ptr : ℕ) → match_empty w s m ptr ≡ match_byte w s m ptr 0
unfolding match_empty match_byte
match_empty-match_byte w s m ptr = refl

-- One load gives both masks.
pub match_both :
    (w s : ℕ) (m : Bytes) (ptr v : ℕ)
    → match_byte_and_empty w s m ptr v ≡ (match_byte w s m ptr v, match_empty w s m ptr)
unfolding match_byte_and_empty match_byte match_empty
match_both w s m ptr v = refl

first_where-suc :
    (xs : List ℕ) (q : ℕ → Bool) (i : ℕ)
    → first_where (map suc xs) q ≡ some i
    → (j : ℕ) × (i ≡ suc j) × (first_where xs (λ k. q (suc k)) ≡ some j)
unfolding first_where
first_where-suc [] q i h = ground arith
first_where-suc (x ∷ xs) q i h = elim (Bool-cases (q (suc x))) [
  | inl e ↦ (x, ground arith, ground arith)
  | inr e ↦ let (j, a, b) = first_where-suc xs q i (ground arith) in (j, a, rw e b)
]

first_where-suc-none :
    (xs : List ℕ) (q : ℕ → Bool)
    → first_where (map suc xs) q ≡ none
    → first_where xs (λ k. q (suc k)) ≡ none
unfolding first_where
first_where-suc-none [] q h = refl
first_where-suc-none (x ∷ xs) q h = ground (arith, first_where-suc-none xs q)

pub first_where-eq-some :
    (n : ℕ) (p q : ℕ → Bool) (i : ℕ)
    → first_where (positions p n) q ≡ some i
    → (i < n) × (p i ≡ true) × (q i ≡ true)
unfolding first_where positions
first_where-eq-some zero p q i h = ground arith
first_where-eq-some (suc n) p q i h = elim (Bool-cases (p 0 && q 0)) [
  | inl e ↦ ground arith
  | inr e ↦
      let (j, a, b) = first_where-suc (positions (λ k. p (suc k)) n) q i (ground arith) in
      let (l, pj, qj) = first_where-eq-some n (λ k. p (suc k)) (λ k. q (suc k)) j b in
      rw a (omega arith, pj, qj)
]

pub first_where-eq-none :
    (n : ℕ) (p q : ℕ → Bool)
    → first_where (positions p n) q ≡ none
    → (i : ℕ) → i < n
    → p i ≡ true
    → q i ≡ false
unfolding first_where positions
first_where-eq-none zero p q h i l pi = absurd (omega arith)
first_where-eq-none (suc n) p q h zero l pi = ground arith
first_where-eq-none (suc n) p q h (suc i) l pi =
    first_where-eq-none n (λ k. p (suc k)) (λ k. q (suc k))
      (first_where-suc-none _ q (ground arith)) i (omega arith) pi
