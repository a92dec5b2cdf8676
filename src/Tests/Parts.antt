-- ===== src/Tests/Parts.antt =====
-- The theorems on the parts of a table, applied at concrete bytes, hashes and layouts.
use optimap.Prelude.{
  ℕ, ◌+◌, ◌-◌, ◌^◌, ◌≤◌, ◌<◌, ◌==◌, ◌≡◌, ◌||◌, ◌&&◌, if◌then◌else◌, refl, arith, [], ◌∷◌,
}
use optimap.Raw.Bitmask.{drain, to_list}
use optimap.Raw.Bitmask.Positions.{word, positions, drain-word}
use optimap.Raw.Group.{Bytes, match_byte}
use optimap.Raw.Group.Slots.{to_list-match_byte}
use optimap.Raw.Layout.Named.{layout}
use optimap.Raw.Layout.Memory.{has_at, put_overflow, same_bit, has_at-put_overflow}
use optimap.Raw.Probe.{visited, visited_onto}
use optimap.Raw.Tag.{HashFeature, TagKind, TombstoneKind, tag, reduced_hash}
use optimap.Raw.Tag.Bounds.{tag_bounds, reduced_hash_bounds}
use optimap.Tests.{l16, l16-IsLayout}

-- Three slots with the byte 7, and empty ones.
abbrev sevens : Bytes
sevens a = if a == 3 || a == 5 || a == 9 then 7 else 0

-- Slots 3 and 5 of a group with seven slots hold the byte; slot 9 lies outside.
match_byte-run : to_list (match_byte 8 (2 ^ 7 - 1) sevens 0 7) ≡ 3 ∷ 5 ∷ []
unfolding to_list match_byte drain word
match_byte-run = refl

visited_onto_example : (j : ℕ) × (j < 2 ^ 3) × (visited 7 2 j ≡ 6)
unfolding layout
visited_onto_example = visited_onto 3 7 (omega arith) (omega arith) 2 6 (omega arith) (omega arith)

has_at-put_overflow_example :
    has_at l16 1 (put_overflow l16 1 sevens 1 12) 1 4
    ≡ has_at l16 1 sevens 1 4 || (1 == 1 && same_bit l16 12 4)
unfolding layout
has_at-put_overflow_example =
    has_at-put_overflow l16 l16-IsLayout 1 sevens 1 1 12 4 (λ a. ground arith)

to_list-match_byte_example :
    to_list (match_byte 16 (2 ^ 15 - 1) sevens 0 7) ≡ positions (λ i. sevens (0 + i) == 7) 15
unfolding layout
to_list-match_byte_example = to_list-match_byte 16 15 (omega arith) (omega arith) sevens 0 7

drain-word_example : drain 64 (word (λ i. sevens i == 7) 16) ≡ positions (λ i. sevens i == 7) 16
unfolding layout
drain-word_example = drain-word 64 16 (λ i. sevens i == 7) (omega arith)

tag_bounds_example :
    (0 < tag HashFeature.pure_rust TagKind.high_tag255 0)
    × (tag HashFeature.pure_rust TagKind.high_tag255 0 < 256)
unfolding layout
tag_bounds_example = tag_bounds HashFeature.pure_rust TagKind.high_tag255 0

reduced_hash_bounds_example :
    (2 ≤ reduced_hash TombstoneKind.low_tomb 256) × (reduced_hash TombstoneKind.low_tomb 256 < 256)
unfolding layout
reduced_hash_bounds_example = reduced_hash_bounds TombstoneKind.low_tomb 256
