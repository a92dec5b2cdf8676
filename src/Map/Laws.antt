-- ===== src/Map/Laws.antt =====
-- The operations of `GenericMap` (src/generic_map.rs) on the abstract map of its backend.
use optimap.Prelude.{ℕ, ◌≤◌, ◌≡◌, true, false, Option, none, some, refl, sym, ap, ◌∙◌, inl, inr}
use optimap.Map.{get, contains_key, index, remove}
use optimap.Raw.Api.{
  RawTableApi, RawTableLaws, Assoc, put, put-same, put-other, key_cases, pair_of, Located,
}
use optimap.Raw.Key.{Key}
use optimap.Raw.Run.{Run, done, panic, Returns, ◌>>=◌}

module _ {ℓ} {K V : Type ℓ} ⦃key : Key K⦄ (k : K) (o : Option V) (m : Assoc K V) (e : m k ≡ o) where
  same_value : (x : K) → put k o m x ≡ m x
  same_value x = elim (key_cases k x) [
    | inl p ↦ ap (put k o m) p ∙ (put-same k o m ∙ (sym e ∙ ap m (sym p)))
    | inr ne ↦ put-other k x o m ne
  ]

  -- Putting in the value that a key has changes nothing.
  pub put-id : put k o m ≡ m
  put-id = λ d x. same_value x d

module _ {ℓ} {K V T : Type ℓ} ⦃key : Key K⦄ (api : RawTableApi K V T) (Slot : T → ℕ → ℕ → Type 0)
    (Models : T → Assoc K V → Type ℓ) (laws : RawTableLaws api Slot Models) where
  module _ (t : T) (m : Assoc K V) (k : K) (mo : Models t m) where
    -- `get` reads the abstract map.
    pub get-value : get api t k ≡ done (m k)
    unfolding get
    get-value = let (r, run, found) = laws.find_law t m k mo in rw (run, ◌>>=◌) (go r found)
      where
        go :
            (r : Option (ℕ × ℕ))
            → Located (Slot t) (api.bucket t) m k r
            → (elim r [
              | none ↦ done none
              | some (gi, si) ↦ elim (api.bucket t gi si) [
                | none ↦ done none
                | some (k', v) ↦ done (some v)
              ]
            ])
              ≡ done (m k)
        go none e = ap done (sym e)
        go (some (gi, si)) (inside, v, b, e) = rw b (ap done (sym e))

    pub contains_key-value :
        contains_key api t k ≡ done (elim (m k) [ none ↦ false | some v ↦ true ])
    unfolding contains_key
    contains_key-value = rw (get-value, ◌>>=◌) refl

    -- Indexing panics for a key without a value.
    pub index-value :
        index api t k ≡ (elim (m k) as (λ o. Run V) [ none ↦ panic | some v ↦ done v ])
    unfolding index
    index-value = rw (get-value, ◌>>=◌) refl

    -- What a removal returns and leaves.
    pub remove-value :
        Returns
          (remove api t k)
          (λ r. (r.0 ≡ m k) × Models r.1 (put k none m) × (api.len r.1 ≤ api.len t))
    unfolding remove
    remove-value =
        let (r, run, (a, b, c)) = laws.remove_law t m k mo in
        (
          (_, r.1),
          rw (run, ◌>>=◌) refl,
          (
            ap (λ o. elim o as (λ p. Option V) [ none ↦ none | some (x, v) ↦ some v ]) a
                ∙ value_of (m k),
            b,
            c,
          ),
        )
      where
        value_of :
            (o : Option V)
            → (elim (pair_of k o) as (λ p. Option V) [ none ↦ none | some (x, v) ↦ some v ]) ≡ o
        value_of none = refl
        value_of (some v) = refl
