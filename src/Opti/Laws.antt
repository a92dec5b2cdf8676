-- ===== src/Opti/Laws.antt =====
-- What `OptiMap` of src/optimap.rs asks of its maps, as laws over an abstract map, and what an
-- `OptiMap` over such maps models.
use optimap.Prelude.{ℕ, ◌+◌, ◌≤◌, ◌≡◌, ◌==◌, true, if◌then◌else◌, some, refl, sym, ap, ◌∙◌, arith}
use optimap.Opti.{
  MapApi, Backend, auto_backend, pinned_backend, variant, same_type, OptiMap, map_type, len,
}
use optimap.Policy.{MapType, ufm, splitsies, ipo, tomb, gaps, ipo64, flat_btree, backend_for}
use optimap.Raw.Api.{Assoc, put, nothing, most, most_reserved}
use optimap.Raw.Pairs.{length, put_all}
use optimap.Raw.Key.{Key}
use optimap.Raw.Run.{done, Returns}

-- The laws of a map. `Models t m` says that `t` is in order and holds the pairs of `m`.
pub record MapLaws {ℓ} {K V T : Type ℓ} ⦃key : Key K⦄ (api : MapApi K V T)
    (Models : T → Assoc K V → Type ℓ) : Type ℓ where
  pub with_capacity_law :
      (c : ℕ)
      → c ≤ most_reserved
      → Models (api.with_capacity c) nothing × (api.len (api.with_capacity c) ≡ 0)
  pub get_law : (t : T) (m : Assoc K V) (k : K) → Models t m → api.get t k ≡ done (m k)
  pub insert_law :
      (t : T) (m : Assoc K V) (k : K) (v : V)
      → Models t m
      → api.len t ≤ most
      → Returns
          (api.insert t k v)
          (λ r. (r.0 ≡ m k) × Models r.1 (put k (some v) m) × (api.len r.1 ≤ api.len t + 1))
  pub reserve_law :
      (t : T) (m : Assoc K V) (additional : ℕ)
      → Models t m
      → api.len t + additional ≤ most_reserved
      → Returns (api.reserve t additional) (λ r. Models r m × (api.len r ≡ api.len t))
  pub drain_law :
      (t : T) (m : Assoc K V)
      → Models t m
      → Returns (api.drain t) (λ es. (put_all es nothing ≡ m) × (length es ≡ api.len t))

of_variant : ℕ → MapType
of_variant n =
    if n == 0
    then ufm
    else if n == 1
    then splitsies
    else if n == 2
    then ipo
    else if n == 3
    then tomb
    else if n == 4
    then gaps
    else if n == 5
    then ipo64
    else flat_btree

of_variant-variant : (b : MapType) → of_variant (variant b) ≡ b
unfolding variant of_variant
of_variant-variant ufm = refl
of_variant-variant splitsies = refl
of_variant-variant ipo = refl
of_variant-variant tomb = refl
of_variant-variant gaps = refl
of_variant-variant ipo64 = refl
of_variant-variant flat_btree = refl

pub same_type-equal : (a b : MapType) → same_type a b ≡ true → a ≡ b
unfolding same_type
same_type-equal a b e =
    let p : variant a ≡ variant b = ground arith in
    sym (of_variant-variant a) ∙ (ap of_variant p ∙ of_variant-variant b)

module _ {ℓ} {K V : Type ℓ} ⦃key : Key K⦄ {T : MapType → Type ℓ}
    (api : (b : MapType) → MapApi K V (T b)) (Models : (b : MapType) → T b → Assoc K V → Type ℓ)
    (Used : MapType → Type 0) where
  -- A policy picks used map types only.
  abbrev pub Picks : Backend → Type 0
  Picks pinned_backend = Unit {0}
  Picks (auto_backend p) = (n : ℕ) → Used (backend_for p n)

  -- The active map is of a used type and models the abstract map, and so is every map that the
  -- policy may pick.
  pub record OptiModels (o : OptiMap T) (m : Assoc K V) : Type ℓ where
    pub used : Used o.inner.0
    pub models : Models o.inner.0 o.inner.1 m
    pub picks : Picks o.backend

  -- The map type for `n` pairs: a pinned map keeps its own.
  abbrev pub chosen : Backend → MapType → ℕ → MapType
  chosen pinned_backend b n = b
  chosen (auto_backend p) b n = backend_for p n

  -- The abstract map of a result, its length at most `n`, and its backend and map type.
  abbrev pub Filled : Assoc K V → ℕ → Backend → MapType → OptiMap T → Type ℓ
  Filled m n backend b r =
      OptiModels r m × (len api r ≤ n) × (r.backend ≡ backend) × (map_type api r ≡ b)

  -- The abstract map of a result, its length at most `n`, and its backend.
  abbrev pub Kept : Assoc K V → ℕ → Backend → OptiMap T → Type ℓ
  Kept m n backend r = OptiModels r m × (len api r ≤ n) × (r.backend ≡ backend)
