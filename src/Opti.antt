-- ===== src/Opti.antt =====
-- `OptiMap` of src/optimap.rs: one of several maps behind an enum, and a policy that may move the
-- pairs to another of them when the map grows. The maps are a parameter: for each `MapType` a type
-- of its own, with the operations of the trait `Map` (src/traits.rs) that `OptiMap` calls.
pub mod Laws
pub mod Transition
pub mod Insert
pub mod Reserve
pub mod Tombstone
use optimap.Prelude.{ℕ, ◌+◌, ◌==◌, not, if◌then◌else◌, Bool, Option, none, some, List, [], ◌∷◌}
use optimap.Policy.{
  MapType, ufm, splitsies, ipo, tomb, gaps, ipo64, flat_btree, Policy, Hint, backend_for, for_hint,
}
use optimap.Raw.Run.{Run, done, ◌>>=◌}

-- What `OptiMap` calls of a map. `drain` gives the pairs in the order of the iterator.
pub record MapApi {ℓ} (K V T : Type ℓ) : Type ℓ where
  pub with_capacity : ℕ → T
  pub len : T → ℕ
  pub capacity : T → ℕ
  pub get : T → K → Run (Option V)
  pub insert : T → K → V → Run (Option V × T)
  pub remove : T → K → Run (Option V × T)
  pub clear : T → T
  pub reserve : T → ℕ → Run T
  pub drain : T → Run (List (K × V))

pub data Backend : Type 0 where
  auto_backend : Policy → Backend
  pinned_backend : Backend

-- The number of a variant.
unfoldable pub variant : MapType → ℕ
variant ufm = 0
variant splitsies = 1
variant ipo = 2
variant tomb = 3
variant gaps = 4
variant ipo64 = 5
variant flat_btree = 6

-- The derived `PartialEq`
unfoldable pub same_type : MapType → MapType → Bool
unfolding variant
same_type a b = variant a == variant b

-- The enum `Inner`: the variant and its map. `dispatch!` calls the map of the variant.
abbrev pub Inner {ℓ} : (MapType → Type ℓ) → Type ℓ
Inner T = (b : MapType) × T b

pub record OptiMap {ℓ} (T : MapType → Type ℓ) : Type ℓ where
  pub inner : Inner T
  pub backend : Backend

module _ {ℓ} {K V : Type ℓ} {T : MapType → Type ℓ} (api : (b : MapType) → MapApi K V (T b)) where
  unfoldable pub build_inner : MapType → ℕ → Inner T
  build_inner map_type capacity = (map_type, (api map_type).with_capacity capacity)

  unfoldable pub with_policy_and_capacity : Policy → ℕ → OptiMap T
  unfolding build_inner
  with_policy_and_capacity policy capacity = record {
    inner = build_inner (backend_for policy capacity) capacity;
    backend = auto_backend policy;
  }

  unfoldable pub with_capacity_and_hint : ℕ → Hint → OptiMap T
  unfolding with_policy_and_capacity
  with_capacity_and_hint capacity hint = with_policy_and_capacity (for_hint hint) capacity

  unfoldable pub with_type_and_capacity : MapType → ℕ → OptiMap T
  unfolding build_inner
  with_type_and_capacity map_type capacity = record {
    inner = build_inner map_type capacity;
    backend = pinned_backend;
  }

  unfoldable pub map_type : OptiMap T → MapType
  map_type o = o.inner.0

  unfoldable pub len : OptiMap T → ℕ
  len o = (api o.inner.0).len o.inner.1

  unfoldable pub capacity : OptiMap T → ℕ
  capacity o = (api o.inner.0).capacity o.inner.1

  unfoldable pub clear : OptiMap T → OptiMap T
  clear o = record o { inner = (o.inner.0, (api o.inner.0).clear o.inner.1) }

  unfoldable pub get : OptiMap T → K → Run (Option V)
  get o k = (api o.inner.0).get o.inner.1 k

  unfoldable pub remove : OptiMap T → K → Run (Option V × OptiMap T)
  remove o k = do
    (old, t) ← (api o.inner.0).remove o.inner.1 k
    done (old, record o { inner = (o.inner.0, t) })

  -- `dispatch_mut!(self, insert, key, value)`
  unfoldable pub dispatch_insert : OptiMap T → K → V → Run (Option V × OptiMap T)
  dispatch_insert o k v = do
    (old, t) ← (api o.inner.0).insert o.inner.1 k v
    done (old, record o { inner = (o.inner.0, t) })

  -- `for (k, v) in entries { dispatch_mut!(self, insert, k, v); }`
  unfoldable pub insert_entries : OptiMap T → List (K × V) → Run (OptiMap T)
  insert_entries o [] = done o
  insert_entries o ((k, v) ∷ entries) = do
    (old, o') ← dispatch_insert o k v
    insert_entries o' entries

  unfoldable pub transition_to : OptiMap T → MapType → ℕ → Run (OptiMap T)
  transition_to o desired cap = do
    entries ← (api o.inner.0).drain o.inner.1
    insert_entries (record o { inner = build_inner desired cap }) entries

  unfoldable pub maybe_transition_after_grow : OptiMap T → ℕ → Run (OptiMap T)
  maybe_transition_after_grow o new_cap = elim o.backend [
    | pinned_backend ↦ done o
    | auto_backend p ↦
        if not (same_type (backend_for p new_cap) (map_type o))
        then transition_to o (backend_for p new_cap) new_cap
        else done o
  ]

  -- The code of `insert_auto` after the insertion.
  unfoldable pub after_insert : ℕ → Option V → OptiMap T → Run (Option V × OptiMap T)
  after_insert cap_before (some old) o = done (some old, o)
  after_insert cap_before none o = do
    o' ←
        if not (capacity o == cap_before)
        then maybe_transition_after_grow o (capacity o)
        else done o
    done (none, o')

  unfoldable pub insert_auto : OptiMap T → K → V → Run (Option V × OptiMap T)
  insert_auto o k v = do (result, o') ← dispatch_insert o k v; after_insert (capacity o) result o'

  unfoldable pub insert : OptiMap T → K → V → Run (Option V × OptiMap T)
  insert o k v = elim o.backend [
    | pinned_backend ↦ dispatch_insert o k v
    | auto_backend p ↦ insert_auto o k v
  ]

  -- `dispatch_mut!(self, reserve, additional)`
  unfoldable pub dispatch_reserve : OptiMap T → ℕ → Run (OptiMap T)
  dispatch_reserve o additional = do
    t ← (api o.inner.0).reserve o.inner.1 additional
    done (record o { inner = (o.inner.0, t) })

  unfoldable pub reserve : OptiMap T → ℕ → Run (OptiMap T)
  reserve o additional =
      let new_cap = len o + additional in
      elim o.backend [
        | pinned_backend ↦ dispatch_reserve o additional
        | auto_backend p ↦
            if not (same_type (backend_for p new_cap) (map_type o))
            then transition_to o (backend_for p new_cap) new_cap
            else dispatch_reserve o additional
      ]
