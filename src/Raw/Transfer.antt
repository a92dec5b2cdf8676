-- ===== src/Raw/Transfer.antt =====
-- Moving the pairs of a table to a new one, slot by slot: the loops of `rehash_with` in
-- src/in_place_overflow/raw/mod.rs, for any storage of the new pairs.
pub mod Moved
use optimap.Prelude.{
  ℕ, zero, suc, ◌+◌, ◌≤◌, ◌<◌, ◌≡◌, ◌⊎◌, Bool, Option, none, some, List, [], ◌∷◌, refl, sym, ap,
  ◌∙◌, arith, inl, inr, Option-cases, some_pair, none-ne-some, subst,
}
use mathlib.Core.Path.{ap₂}
use native.Mathlib.Decide.{ℕ_discrete}
use optimap.Prelude.Tally.{
  tally, tally_before, tally_before-le, tally_before-step, tally_before-gap, tally_before-all,
  tally_before-start,
}
use optimap.Raw.Group.Scan.{Scan, Scan-widen}
use optimap.Raw.Run.{Run, done, Returns, ◌>>=◌}
use optimap.Raw.Table.Inv.{is_live}

module _ {ℓ} {K V U : Type ℓ} (cells : ℕ → ℕ → Option (K × V)) (slots : ℕ → List ℕ)
    (insert : U → K → V → Run U) where
  -- The inner loop, over the slots `sis` of group `gi`.
  unfoldable pub transfer_slots : ℕ → List ℕ → U → Run U
  transfer_slots gi [] u = done u
  transfer_slots gi (si ∷ sis) u = elim (cells gi si) [
    | none ↦ transfer_slots gi sis u
    | some (k, v) ↦ insert u k v >>= transfer_slots gi sis
  ]

  -- The outer loop, over the `n` groups from `gi` on.
  unfoldable pub transfer_groups : ℕ → ℕ → U → Run U
  transfer_groups gi zero u = done u
  transfer_groups gi (suc n) u = transfer_slots gi (slots gi) u >>= transfer_groups (gi + 1) n

-- The slots before slot `b` of group `gi`.
abbrev pub Before : ℕ → ℕ → ℕ → ℕ → Type 0
Before gi b gj sj = (gj < gi) ⊎ ((gj ≡ gi) × (sj < b))

-- A slot before the one after `x` is the slot `x`, or it was before, or it is between.
pub Before-cases :
    (gi b x gj sj : ℕ)
    → Before gi (suc x) gj sj
    → Before gi b gj sj ⊎ (((gj ≡ gi) × (sj ≡ x)) ⊎ ((gj ≡ gi) × (b ≤ sj) × (sj < x)))
Before-cases gi b x gj sj (inl r) = inl (inl r)
Before-cases gi b x gj sj (inr (r, z)) = ground arith

pub Before-later : (gi b x gj sj : ℕ) → b ≤ x → Before gi b gj sj → Before gi (suc x) gj sj
Before-later gi b x gj sj p (inl r) = inl r
Before-later gi b x gj sj p (inr (r, z)) = inr (r, omega arith)

pub Before-next : (gi b gj sj : ℕ) → Before gi b gj sj → Before (suc gi) 0 gj sj
Before-next gi b gj sj (inl r) = inl (omega arith)
Before-next gi b gj sj (inr (r, z)) = inl (omega arith)

pub Before-split :
    (gi b gj sj : ℕ) → Before (suc gi) 0 gj sj → Before gi b gj sj ⊎ ((gj ≡ gi) × (b ≤ sj))
Before-split gi b gj sj (inl r) = ground arith
Before-split gi b gj sj (inr (r, z)) = absurd (omega arith)

pub Before-self : (gi x gj sj : ℕ) → gj ≡ gi → sj ≡ x → Before gi x gj sj → ⊥
Before-self gi x gj sj a b (inl r) = absurd (omega arith)
Before-self gi x gj sj a b (inr (r, z)) = absurd (omega arith)
