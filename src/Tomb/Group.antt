-- ===== src/Tomb/Group.antt =====
-- Matching the metadata of one group of 16 slots: src/in_place_overflow/raw/group.rs. EMPTY is 0,
-- TOMBSTONE is 1, and a tag is at least 2.
use optimap.Prelude.{
  ℕ, ◌+◌, ◌<◌, ◌==◌, leb, ◌≡◌, ◌≢◌, true, false, none, some, arith, ap, ◌∙◌, ==_iff,
}
use optimap.Raw.Bitmask.{trailing_zeros, to_list, lowest_set_bit, any_set}
use optimap.Raw.Bitmask.Positions.{word, positions, drain-word}
use optimap.Raw.Group.{Bytes, empty, first_where}
use optimap.Raw.Group.Slots.{lowest_first, first_where-eq-some, first_where-eq-none}
use optimap.Tomb.{group_size}

-- `for i in 0..GROUP_SIZE { if *ptr.add(i) == value { mask |= 1 << i } }`
unfoldable pub match_byte : Bytes → ℕ → ℕ → ℕ
match_byte m ptr value = word (λ i. m (ptr + i) == value) group_size

unfoldable pub match_empty : Bytes → ℕ → ℕ
unfolding match_byte
match_empty m ptr = match_byte m ptr empty

unfoldable pub match_occupied : Bytes → ℕ → ℕ
match_occupied m ptr = word (λ i. leb 2 (m (ptr + i))) group_size

unfoldable pub match_byte_and_empty : Bytes → ℕ → ℕ → ℕ × ℕ
unfolding match_byte match_empty
match_byte_and_empty m ptr value = (match_byte m ptr value, match_empty m ptr)

module _ (m : Bytes) (ptr : ℕ) where
  -- Iterating a mask visits the slots that the match is for, in ascending order.
  pub to_list-match_byte :
      (v : ℕ) → to_list (match_byte m ptr v) ≡ positions (λ i. m (ptr + i) == v) group_size
  unfolding to_list match_byte
  to_list-match_byte v = drain-word 64 group_size _ (omega arith)

  pub to_list-match_occupied :
      to_list (match_occupied m ptr) ≡ positions (λ i. leb 2 (m (ptr + i))) group_size
  unfolding to_list match_occupied
  to_list-match_occupied = drain-word 64 group_size _ (omega arith)

  lowest-match :
      (v : ℕ)
      → lowest_set_bit (match_byte m ptr v)
        ≡ first_where (positions (λ i. m (ptr + i) == v) group_size) (λ _. true)
  lowest-match v =
      lowest_first (match_byte m ptr v)
      ∙ ap (λ xs. first_where xs (λ _. true)) (to_list-match_byte v)

  -- The lowest slot with a byte, when the group has one.
  pub lowest-some :
      (v si : ℕ)
      → lowest_set_bit (match_byte m ptr v) ≡ some si
      → (si < group_size) × (m (ptr + si) ≡ v)
  lowest-some v si h =
      let (a, b, c) =
        first_where-eq-some group_size (λ i. m (ptr + i) == v) (λ _. true) si
          (rw (lowest-match v) at h) in
      (a, (==_iff _ _).0 b)

  pub lowest-none :
      (v : ℕ)
      → lowest_set_bit (match_byte m ptr v) ≡ none
      → (si : ℕ) → si < group_size
      → m (ptr + si) ≢ v
  lowest-none v h si p e = cc (
      first_where-eq-none group_size (λ i. m (ptr + i) == v) (λ _. true) (rw (lowest-match v) at h)
        si p ((==_iff _ _).1 e))

-- A word has a bit set when it has a lowest one.
pub any_set-lowest : (x : ℕ) → (any_set x ≡ false) → lowest_set_bit x ≡ none
unfolding any_set lowest_set_bit
any_set-lowest x h = ground arith

pub any_set-some : (x : ℕ) → any_set x ≡ true → (si : ℕ) × (lowest_set_bit x ≡ some si)
unfolding any_set lowest_set_bit
any_set-some x h = (trailing_zeros x, ground arith)
