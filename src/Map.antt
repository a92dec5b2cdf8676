-- ===== src/Map.antt =====
-- The generic map: `GenericMap` of src/generic_map.rs over any backend that implements `RawTableApi`
-- (src/raw/table_api.rs). The hash builder is part of `Key`; a reference to a value is the slot of
-- its pair.
pub mod Laws
pub mod Entries
pub mod Trace
pub mod Tombstone
use optimap.Prelude.{
  ℕ, ◌+◌, ◌==◌, not, if◌then◌else◌, Bool, true, false, Option, none, some, List, [], ◌∷◌,
}
use optimap.Raw.Api.{RawTableApi, EntryProbe, entry_found, vacant}
use optimap.Raw.Key.{Key}
use optimap.Raw.Run.{Run, done, panic, ◌>>=◌}

-- `Result<(), OccupiedError<K, V>>`
pub data TryInsert {ℓ} (K V : Type ℓ) : Type ℓ where
  ok : TryInsert K V
  err : K → V → TryInsert K V

module _ {ℓ} {K V T : Type ℓ} ⦃key : Key K⦄ (api : RawTableApi K V T) where
  unfoldable pub get_key_value : T → K → Run (Option (K × V))
  get_key_value t k = do
    found ← api.find_by_hash t (key.hash k) (key.equal k)
    elim found [ none ↦ done none | some (gi, si) ↦ done (api.bucket t gi si) ]

  unfoldable pub get : T → K → Run (Option V)
  get t k = do
    found ← api.find_by_hash t (key.hash k) (key.equal k)
    elim found [
      | none ↦ done none
      | some (gi, si) ↦ elim (api.bucket t gi si) [
        | none ↦ done none
        | some (k', v) ↦ done (some v)
      ]
    ]

  unfoldable pub contains_key : T → K → Run Bool
  contains_key t k = do v ← get t k; done (elim v [ none ↦ false | some w ↦ true ])

  -- `self.get(key).expect(..)`
  unfoldable pub index : T → K → Run V
  index t k = do v ← get t k; elim v [ none ↦ panic | some w ↦ done w ]

  unfoldable pub insert : T → K → V → Run (Option V × T)
  insert t k v = api.insert_or_replace t k v

  unfoldable pub remove_entry : T → K → Run (Option (K × V) × T)
  remove_entry t k = api.remove_by_hash t (key.hash k) (key.equal k)

  unfoldable pub remove : T → K → Run (Option V × T)
  remove t k = do
    (pair, t') ← api.remove_by_hash t (key.hash k) (key.equal k)
    done (elim pair [ none ↦ none | some (k', v) ↦ some v ], t')

  -- The entry: its slot, or where it may be put.
  unfoldable pub entry : T → K → Run (EntryProbe × T)
  entry t k = do
    t' ← if not (api.is_allocated t) then api.reserve t 1 else done t
    probe ← api.find_for_entry t' (key.hash k) (key.equal k)
    done (probe, t')

  -- `VacantEntry::insert`
  unfoldable pub vacant_insert : T → K → Option (ℕ × ℕ × ℕ) → V → Run (T × (ℕ × ℕ))
  vacant_insert t k (some (gi, si, full_mask)) v = do
    t' ← api.insert_at t (key.hash k) gi si k v full_mask
    done (t', (gi, si))
  vacant_insert t k none v = do t' ← api.ensure_capacity t; api.insert_no_check t' (key.hash k) k v

  -- `Entry::or_insert`
  unfoldable pub entry_or_insert : T → K → EntryProbe → V → Run (T × (ℕ × ℕ))
  entry_or_insert t k (entry_found gi si) default = done (t, (gi, si))
  entry_or_insert t k (vacant slot) default = vacant_insert t k slot default

  -- `self.entry(key).or_insert(default)`
  unfoldable pub or_insert : T → K → V → Run (T × (ℕ × ℕ))
  or_insert t k default = do (probe, t') ← entry t k; entry_or_insert t' k probe default

  unfoldable pub try_insert : T → K → V → Run (TryInsert K V × T)
  try_insert t k value = do
    (probe, t') ← entry t k
    elim probe [
      | entry_found gi si ↦ done (err k value, t')
      | vacant slot ↦ do (t'', pos) ← vacant_insert t' k slot value; done (ok, t'')
    ]

  -- `Extend::extend`
  unfoldable pub extend : T → List (K × V) → Run T
  extend t [] = done t
  extend t ((k, v) ∷ kvs) = do (old, t') ← insert t k v; extend t' kvs
