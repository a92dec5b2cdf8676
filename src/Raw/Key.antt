-- ===== src/Raw/Key.antt =====
-- The bounds `K: Hash + Eq` with the hash builder: what a table asks of its keys. `hash` stands for
-- `hash_no_mix` (src/raw/hash.rs), which is `BuildHasher::hash_one` of a hasher that is not part of
-- the crate; it is a function of the key. `==` of the key type is a lawful equality.
use optimap.Prelude.{ℕ, Bool, true, ◌≡◌, ◌↔◌}

pub record Key {ℓ} (K : Type ℓ) : Type ℓ where
  pub equal : K → K → Bool
  pub equal_iff : (a b : K) → (equal a b ≡ true) ↔ (a ≡ b)
  pub hash : K → ℕ
