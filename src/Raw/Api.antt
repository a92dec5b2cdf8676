-- ===== src/Raw/Api.antt =====
-- The trait `RawTableApi` of src/raw/table_api.rs, as a record of operations, and what a map asks of
-- them, as a record of laws over an abstract map. The hash builder is part of `Key`.
use optimap.Prelude.{
  sym, ℕ, ◌+◌, ◌^◌, ◌≤◌, ◌≡◌, ◌≢◌, Bool, true, false, if◌then◌else◌, Option, none, some, refl,
  Bool-cases, inl, inr, ◌⊎◌, ◌∙◌,
}
use optimap.Raw.Key.{Key}
use optimap.Raw.Run.{Run, Returns, ◌>>=◌}

pub data EntryProbe : Type 0 where
  entry_found : ℕ → ℕ → EntryProbe
  vacant : Option (ℕ × ℕ × ℕ) → EntryProbe

-- `bucket` and `write_value` stand for reading and writing through `key_ptr` and `value_ptr`.
pub record RawTableApi {ℓ} (K V T : Type ℓ) : Type ℓ where
  pub new : T
  pub len : T → ℕ
  pub is_allocated : T → Bool
  pub bucket : T → ℕ → ℕ → Option (K × V)
  pub write_value : T → ℕ → ℕ → V → Option V × T
  pub clear : T → T
  pub find_by_hash : T → ℕ → (K → Bool) → Run (Option (ℕ × ℕ))
  pub insert_or_replace : T → K → V → Run (Option V × T)
  pub find_for_entry : T → ℕ → (K → Bool) → Run EntryProbe
  pub insert_at : T → ℕ → ℕ → ℕ → K → V → ℕ → Run T
  pub insert_no_check : T → ℕ → K → V → Run (T × (ℕ × ℕ))
  pub ensure_capacity : T → Run T
  pub remove_by_hash : T → ℕ → (K → Bool) → Run (Option (K × V) × T)
  pub reserve : T → ℕ → Run T

-- An abstract map gives each key its value, or none.
abbrev pub Assoc {ℓ} : Type ℓ → Type ℓ → Type ℓ
Assoc K V = K → Option V

module _ {ℓ} {K : Type ℓ} ⦃key : Key K⦄ where
  pub equal_self : (k : K) → key.equal k k ≡ true
  equal_self k = (key.equal_iff k k).1 refl

  pub equal_ne : (k x : K) → x ≢ k → key.equal k x ≡ false
  equal_ne k x ne = elim (Bool-cases (key.equal k x)) [
    | inr e ↦ e
    | inl e ↦ absurd (ne (sym ((key.equal_iff k x).0 e)))
  ]

  pub key_cases : (k x : K) → (x ≡ k) ⊎ (x ≢ k)
  key_cases k x = elim (Bool-cases (key.equal k x)) [
    | inl e ↦ inl (sym ((key.equal_iff k x).0 e))
    | inr e ↦ inr (λ p. true-ne-false (sym ((key.equal_iff k x).1 (sym p)) ∙ e))
  ]
    where
      true-ne-false : true ≡ false → ⊥
      true-ne-false q = cc

module _ {ℓ} {K V : Type ℓ} where
  abbrev pub nothing : Assoc K V
  nothing k = none

  -- The pair of a key and its value.
  abbrev pub pair_of : K → Option V → Option (K × V)
  pair_of k none = none
  pair_of k (some v) = some (k, v)

  module _ ⦃key : Key K⦄ where
    unfoldable pub put : K → Option V → Assoc K V → Assoc K V
    put k o m x = if key.equal k x then o else m x

    pub put-same : (k : K) (o : Option V) (m : Assoc K V) → put k o m k ≡ o
    unfolding put
    put-same k o m = rw (equal_self k) refl

    pub put-other : (k x : K) (o : Option V) (m : Assoc K V) → x ≢ k → put k o m x ≡ m x
    unfolding put
    put-other k x o m ne = rw (equal_ne k x ne) refl

  -- Where a search for a key may end: `Slot` tells the slots of the table.
  abbrev pub Located :
      (ℕ → ℕ → Type 0) → (ℕ → ℕ → Option (K × V)) → Assoc K V → K → Option (ℕ × ℕ) → Type ℓ
  Located Slot bucket m k none = m k ≡ none
  Located Slot bucket m k (some (gi, si)) =
      Slot gi si × (v : V) × (bucket gi si ≡ some (k, v)) × (m k ≡ some v)

-- The most pairs that a table is asked to hold.
abbrev pub most : ℕ
most = 2 ^ 62

-- The most pairs that room is reserved for, where no product of the size computation overflows.
abbrev pub most_reserved : ℕ
most_reserved = 2 ^ 60

module _ {ℓ} {K V T : Type ℓ} ⦃key : Key K⦄ (api : RawTableApi K V T) (Slot : T → ℕ → ℕ → Type 0)
    (Models : T → Assoc K V → Type ℓ) (t : T) (m : Assoc K V) (k : K) where
  -- The key has got a value, and its pair stands at the slot.
  abbrev pub StoredAt : V → T × (ℕ × ℕ) → Type ℓ
  StoredAt v (r, (gi, si)) =
      Models r (put k (some v) m) × (api.bucket r gi si ≡ some (k, v)) × (api.len r ≤ api.len t + 1)

  -- What the search for an entry finds: the key's pair, or a way to put in one.
  abbrev pub EntryLocated : EntryProbe → Type ℓ
  EntryLocated (entry_found gi si) = Located (Slot t) (api.bucket t) m k (some (gi, si))
  EntryLocated (vacant (some (gi, si, mask))) =
      (m k ≡ none)
      × ((v : V)
          → Returns (api.insert_at t (key.hash k) gi si k v mask) (λ r. StoredAt v (r, (gi, si))))
  EntryLocated (vacant none) =
      (m k ≡ none)
      × ((v : V)
          → Returns (api.ensure_capacity t >>= λ u. api.insert_no_check u (key.hash k) k v)
              (StoredAt v))

-- The laws of a backend. `Models t m` says that the table `t` is in order and holds the pairs of
-- the abstract map `m`.
pub record RawTableLaws {ℓ} {K V T : Type ℓ} ⦃key : Key K⦄ (api : RawTableApi K V T)
    (Slot : T → ℕ → ℕ → Type 0) (Models : T → Assoc K V → Type ℓ) : Type ℓ where
  pub new_law : Models api.new nothing × (api.len api.new ≡ 0)
  pub clear_law :
      (t : T) (m : Assoc K V)
      → Models t m
      → Models (api.clear t) nothing × (api.len (api.clear t) ≡ 0)
  pub find_law :
      (t : T) (m : Assoc K V) (k : K)
      → Models t m
      → Returns
          (api.find_by_hash t (key.hash k) (key.equal k))
          (Located (Slot t) (api.bucket t) m k)
  pub write_law :
      (t : T) (m : Assoc K V) (gi si : ℕ) (k : K) (old v : V)
      → Models t m
      → Slot t gi si
      → api.bucket t gi si ≡ some (k, old)
      → ((api.write_value t gi si v).0 ≡ some old)
        × Models (api.write_value t gi si v).1 (put k (some v) m)
        × (api.len (api.write_value t gi si v).1 ≡ api.len t)
  pub insert_law :
      (t : T) (m : Assoc K V) (k : K) (v : V)
      → Models t m
      → api.len t ≤ most
      → Returns
          (api.insert_or_replace t k v)
          (λ r. (r.0 ≡ m k) × Models r.1 (put k (some v) m) × (api.len r.1 ≤ api.len t + 1))
  pub remove_law :
      (t : T) (m : Assoc K V) (k : K)
      → Models t m
      → Returns
          (api.remove_by_hash t (key.hash k) (key.equal k))
          (λ r. (r.0 ≡ pair_of k (m k)) × Models r.1 (put k none m) × (api.len r.1 ≤ api.len t))
  pub entry_law :
      (t : T) (m : Assoc K V) (k : K)
      → Models t m
      → api.len t ≤ most
      → Returns
          (api.find_for_entry t (key.hash k) (key.equal k))
          (EntryLocated api Slot Models t m k)
  pub ensure_law :
      (t : T) (m : Assoc K V)
      → Models t m
      → api.len t ≤ most
      → Returns (api.ensure_capacity t) (λ r. Models r m × (api.len r ≡ api.len t))
  pub put_in_law :
      (t : T) (m : Assoc K V) (k : K) (v : V)
      → Models t m
      → api.len t ≤ most
      → m k ≡ none
      → Returns
          (api.ensure_capacity t >>= λ u. api.insert_no_check u (key.hash k) k v)
          (StoredAt api Slot Models t m k v)
  pub reserve_law :
      (t : T) (m : Assoc K V) (additional : ℕ)
      → Models t m
      → api.len t + additional ≤ most_reserved
      → Returns (api.reserve t additional) (λ r. Models r m × (api.len r ≡ api.len t))
  pub first_reserve_law :
      (t : T) (m : Assoc K V)
      → Models t m
      → api.is_allocated t ≡ false
      → Returns (api.reserve t 1) (λ r. Models r m × (api.len r ≡ api.len t))
