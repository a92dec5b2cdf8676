-- ===== src/Policy.antt =====
-- The policy that picks a backend for a capacity: `MapType`, `Hint` and `Policy` of src/optimap.rs.
pub mod Bands
use optimap.Prelude.{
  ℕ, zero, suc, ◌-◌, ltb, leb, ◌==◌, if◌then◌else◌, Option, none, some, List, [], ◌∷◌,
}

pub data MapType : Type 0 where
  ufm splitsies ipo tomb gaps ipo64 flat_btree : MapType

pub data Hint : Type 0 where
  auto_hint read_heavy write_heavy miss_heavy low_latency churn iteration sorted : Hint

-- `Policy { bands }`
abbrev pub Policy : Type 0
Policy = List (ℕ × MapType)

-- The result of `slice::binary_search_by_key`: the index of the key, or where to insert it. On a
-- sorted slice without duplicates the search has no other freedom.
pub data SearchResult : Type 0 where
  ok err : ℕ → SearchResult

pub after_one : SearchResult → SearchResult
after_one (ok i) = ok (suc i)
after_one (err i) = err (suc i)

unfoldable pub binary_search : Policy → ℕ → SearchResult
unfolding after_one
binary_search [] c = err 0
binary_search ((k, b) ∷ bs) c =
    let rest = after_one (binary_search bs c) in
    if k == c then ok 0 else (if ltb k c then rest else err 0)

-- `bands[i].1 = backend`
unfoldable pub set_backend : Policy → ℕ → MapType → Policy
set_backend [] i backend = []
set_backend ((k, b) ∷ bs) zero backend = (k, backend) ∷ bs
set_backend ((k, b) ∷ bs) (suc i) backend = (k, b) ∷ set_backend bs i backend

-- `bands.insert(i, (min_capacity, backend))`
unfoldable pub insert_band : Policy → ℕ → ℕ → MapType → Policy
insert_band bs zero c backend = (c, backend) ∷ bs
insert_band [] (suc i) c backend = (c, backend) ∷ []
insert_band ((k, b) ∷ bs) (suc i) c backend = (k, b) ∷ insert_band bs i c backend

-- The two arms of the `match`.
pub place : SearchResult → Policy → ℕ → MapType → Policy
place (ok i) bs c backend = set_backend bs i backend
place (err i) bs c backend = insert_band bs i c backend

unfoldable pub band : Policy → ℕ → MapType → Policy
unfolding place binary_search
band bs c backend = place (binary_search bs c) bs c backend

-- `slice::partition_point` of `|&(c, _)| c <= capacity` on a sorted slice.
unfoldable pub partition_point : Policy → ℕ → ℕ
partition_point [] capacity = 0
partition_point ((k, b) ∷ bs) capacity =
    let rest = partition_point bs capacity in if leb k capacity then suc rest else 0

unfoldable pub get_band : Policy → ℕ → Option MapType
get_band [] i = none
get_band ((k, b) ∷ bs) zero = some b
get_band ((k, b) ∷ bs) (suc i) = get_band bs i

unfoldable pub or_splitsies : Option MapType → MapType
or_splitsies none = splitsies
or_splitsies (some b) = b

unfoldable pub backend_for : Policy → ℕ → MapType
unfolding partition_point get_band or_splitsies
backend_for bs capacity = or_splitsies (get_band bs (partition_point bs capacity - 1))

unfoldable pub pinned : MapType → Policy
pinned backend = (0, backend) ∷ []

unfoldable pub auto : Policy
unfolding pinned
auto = pinned tomb

unfoldable pub for_hint : Hint → Policy
unfolding auto
for_hint auto_hint = auto
for_hint read_heavy = pinned tomb
for_hint write_heavy = pinned tomb
for_hint miss_heavy = pinned ipo
for_hint low_latency = pinned flat_btree
for_hint churn = pinned splitsies
for_hint iteration = pinned gaps
for_hint sorted = pinned flat_btree
