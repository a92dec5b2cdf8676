-- ===== src/Policy/Bands.antt =====
-- The bands of a policy, as a map from capacities: `band` and `backend_for` of src/optimap.rs.
use optimap.Prelude.{
  ℕ, suc, ◌-◌, ◌≤◌, ◌<◌, ◌==◌, ◌≡◌, ltb, leb, if◌then◌else◌, true, false, Option, none, some, [],
  ◌∷◌, refl, sym, ◌∙◌, arith, Bool-cases, inl, inr,
}
use optimap.Policy.{
  MapType, Policy, SearchResult, ok, err, after_one, binary_search, set_backend, insert_band, place,
  band, partition_point, get_band, or_splitsies, backend_for,
}

-- The bands are sorted, without duplicates, from the capacity `low` on.
pub data Ascending : ℕ → Policy → Type 0 where
  no_band : {low : ℕ} → Ascending low []
  and_band :
      {low k : ℕ} {b : MapType} {bs : Policy}
      → low ≤ k
      → Ascending (suc k) bs
      → Ascending low ((k, b) ∷ bs)

-- The backend that a policy has for exactly this capacity.
unfoldable pub backend_at : Policy → ℕ → Option MapType
backend_at [] c = none
backend_at ((k, b) ∷ bs) c = let rest = backend_at bs c in if k == c then some b else rest

place_after :
    (r : SearchResult) (k : ℕ) (b : MapType) (bs : Policy) (c : ℕ) (backend : MapType)
    → place (after_one r) ((k, b) ∷ bs) c backend ≡ (k, b) ∷ place r bs c backend
unfolding place after_one set_backend insert_band
place_after (ok i) k b bs c backend = refl
place_after (err i) k b bs c backend = refl

-- `band` by clauses.
module _ (k : ℕ) (b : MapType) (bs : Policy) (c : ℕ) (backend : MapType) where
  band_here : (k == c) ≡ true → band ((k, b) ∷ bs) c backend ≡ (k, backend) ∷ bs
  unfolding band place binary_search set_backend
  band_here e = rw e refl

  band_later :
      (k == c) ≡ false → ltb k c ≡ true → band ((k, b) ∷ bs) c backend ≡ (k, b) ∷ band bs c backend
  unfolding band binary_search
  band_later e f = rw (e, f) (place_after (binary_search bs c) k b bs c backend)

  band_before :
      (k == c) ≡ false → ltb k c ≡ false → band ((k, b) ∷ bs) c backend ≡ (c, backend) ∷ (k, b) ∷ bs
  unfolding band place binary_search insert_band
  band_before e f = rw (e, f) refl

band-nil : (c : ℕ) (backend : MapType) → band [] c backend ≡ (c, backend) ∷ []
unfolding band place binary_search insert_band
band-nil c backend = refl

band-Ascending_from :
    (low : ℕ) (bs : Policy) (c : ℕ) (backend : MapType)
    → low ≤ c
    → Ascending low bs
    → Ascending low (band bs c backend)
band-Ascending_from low [] c backend p no_band = rw (band-nil c backend) (and_band p no_band)
band-Ascending_from low ((k, b) ∷ bs) c backend p (and_band q a) = elim (Bool-cases (k == c)) [
  | inl e ↦ rw (band_here k b bs c backend e) (and_band q a)
  | inr e ↦ elim (Bool-cases (ltb k c)) [
    | inl f ↦
        rw (band_later k b bs c backend e f)
          (and_band q (band-Ascending_from (suc k) bs c backend (ground arith) a))
    | inr f ↦ rw (band_before k b bs c backend e f) (and_band p (and_band (ground arith) a))
  ]
]

backend_at-band_from :
    (bs : Policy) (c : ℕ) (backend : MapType) (d : ℕ)
    → backend_at (band bs c backend) d ≡ (if c == d then some backend else backend_at bs d)
unfolding backend_at
backend_at-band_from [] c backend d = rw (band-nil c backend) refl
backend_at-band_from ((k, b) ∷ bs) c backend d = elim (Bool-cases (k == c)) [
  | inl e ↦ rw (band_here k b bs c backend e) (ground arith)
  | inr e ↦ elim (Bool-cases (ltb k c)) [
    | inl f ↦
        rw (band_later k b bs c backend e f) (ground (arith, backend_at-band_from bs c backend d))
    | inr f ↦ rw (band_before k b bs c backend e f) refl
  ]
]

-- Adding a band to a sorted policy keeps it sorted, gives the band's capacity the new backend,
-- replacing the one that it had, and leaves the backends of all other capacities.
pub band-backend_at :
    (bs : Policy) (c : ℕ) (backend : MapType)
    → Ascending 0 bs
    → Ascending 0 (band bs c backend)
      × ((d : ℕ)
          → backend_at (band bs c backend) d ≡ (if c == d then some backend else backend_at bs d))
band-backend_at bs c backend a =
    (band-Ascending_from 0 bs c backend (omega arith) a, backend_at-band_from bs c backend)

-- `b` is the backend of the largest band of `bs` at or below the capacity.
pub record Chosen (bs : Policy) (capacity : ℕ) (b : MapType) : Type 0 where
  pub start : ℕ
  pub at : backend_at bs start ≡ some b
  pub below : start ≤ capacity
  pub largest : (c : ℕ) (b' : MapType) → backend_at bs c ≡ some b' → c ≤ capacity → c ≤ start

at-le :
    (low : ℕ) (bs : Policy) (c : ℕ) (b : MapType)
    → Ascending low bs
    → backend_at bs c ≡ some b
    → low ≤ c
unfolding backend_at
at-le low [] c b a e = cc e
at-le low ((k, b') ∷ bs) c b (and_band p a) e = elim (Bool-cases (k == c)) [
  | inl f ↦ ground arith
  | inr f ↦ let q = at-le (suc k) bs c b a (rw f at e) in omega arith
]

at_here : (k : ℕ) (b : MapType) (bs : Policy) → backend_at ((k, b) ∷ bs) k ≡ some b
unfolding backend_at
at_here k b bs = let same : (k == k) ≡ true = ground arith in rw same refl

at_later :
    (k : ℕ) (b : MapType) (bs : Policy) (c : ℕ)
    → k < c
    → backend_at ((k, b) ∷ bs) c ≡ backend_at bs c
unfolding backend_at
at_later k b bs c p = let other : (k == c) ≡ false = ground arith in rw other refl

-- A band at or below the capacity, followed by bands above it.
chosen_here :
    (k : ℕ) (b : MapType) (bs : Policy) (capacity : ℕ)
    → k ≤ capacity
    → Ascending (suc capacity) bs
    → Chosen ((k, b) ∷ bs) capacity b
chosen_here k b bs capacity p a = record {
  start = k;
  at = at_here k b bs;
  below = p;
  largest = λ c b' e q. elim (Bool-cases (leb c k)) [
    | inl f ↦ ground arith
    | inr f ↦
        let r = at-le (suc capacity) bs c b' a (sym (at_later k b bs c (ground arith)) ∙ e) in
        absurd (omega (arith, r, q))
  ];
}

-- The choice among the later bands, when the next one is at or below the capacity too.
chosen_later :
    (k : ℕ) (b b' : MapType) (bs : Policy) (capacity : ℕ)
    → Ascending (suc k) bs
    → Chosen bs capacity b'
    → Chosen ((k, b) ∷ bs) capacity b'
chosen_later k b b' bs capacity a c =
    let above = at-le (suc k) bs c.start b' a c.at in
    record {
      start = c.start;
      at = at_later k b bs c.start above ∙ c.at;
      below = c.below;
      largest = λ d x e q. elim (Bool-cases (leb d k)) [
        | inl f ↦ ground (arith, above)
        | inr f ↦ c.largest d x (sym (at_later k b bs d (ground arith)) ∙ e) q
      ];
    }

raise :
    (low capacity k : ℕ) (b : MapType) (bs : Policy)
    → leb k capacity ≡ false
    → Ascending low ((k, b) ∷ bs)
    → Ascending (suc capacity) ((k, b) ∷ bs)
raise low capacity k b bs e (and_band p a) = and_band (ground arith) a

chosen_from :
    (k : ℕ) (b : MapType) (bs : Policy) (capacity : ℕ)
    → k ≤ capacity
    → Ascending (suc k) bs
    → Chosen
        ((k, b) ∷ bs)
        capacity
        (or_splitsies (get_band ((k, b) ∷ bs) (partition_point bs capacity)))
unfolding partition_point get_band or_splitsies
chosen_from k b [] capacity p a = chosen_here k b [] capacity p no_band
chosen_from k b ((k2, b2) ∷ bs) capacity p a = elim (Bool-cases (leb k2 capacity)) [
  | inl e ↦ rw e (
      chosen_later k b _ ((k2, b2) ∷ bs) capacity a
        (chosen_from k2 b2 bs capacity (ground arith) (rest a)))
  | inr e ↦ rw e (chosen_here k b ((k2, b2) ∷ bs) capacity p (raise (suc k) capacity k2 b2 bs e a))
]
  where
    rest :
        {low k : ℕ} {b : MapType} {bs : Policy} → Ascending low ((k, b) ∷ bs) → Ascending (suc k) bs
    rest (and_band p a) = a

-- In a sorted policy with a band at or below the capacity, `backend_for` returns the backend of the
-- largest such band.
pub backend_for-Chosen :
    (bs : Policy) (capacity c : ℕ) (b : MapType)
    → Ascending 0 bs
    → backend_at bs c ≡ some b
    → c ≤ capacity
    → Chosen bs capacity (backend_for bs capacity)
unfolding backend_for partition_point backend_at
backend_for-Chosen [] capacity c b a e p = cc e
backend_for-Chosen ((k, b') ∷ bs) capacity c b (and_band q a) e p =
    let low : k ≤ capacity =
      omega (arith, at-le k ((k, b') ∷ bs) c b (and_band (omega arith) a) e) in
    let on : leb k capacity ≡ true = ground arith in
    let back : suc (partition_point bs capacity) - 1 ≡ partition_point bs capacity = omega arith in
    rw (on, back) (chosen_from k b' bs capacity low a)
