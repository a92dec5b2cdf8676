-- ===== src/Raw/Pairs.antt =====
-- Pairs put into an abstract map one after the other, as `drain` gives them and `transition_to` of
-- src/optimap.rs inserts them.
use optimap.Prelude.{ℕ, ◌+◌, ◌≡◌, some, List, [], ◌∷◌, refl, ap}
use optimap.Raw.Api.{Assoc, put}
use optimap.Raw.Key.{Key}

unfoldable pub length {ℓ} : {A : Type ℓ} → List A → ℕ
length [] = 0
length (a ∷ rest) = 1 + length rest

-- `Vec::push`
unfoldable pub snoc {ℓ} : {A : Type ℓ} → List A → A → List A
snoc [] e = e ∷ []
snoc (x ∷ es) e = x ∷ snoc es e

pub length-snoc {ℓ} : {A : Type ℓ} (es : List A) (e : A) → length (snoc es e) ≡ 1 + length es
unfolding length snoc
length-snoc [] e = refl
length-snoc (x ∷ es) e = ap (λ (n : ℕ). 1 + n) (length-snoc es e)

module _ {ℓ} {K V : Type ℓ} ⦃key : Key K⦄ where
  -- The pairs put into the map, the first of them first.
  unfoldable pub put_all : List (K × V) → Assoc K V → Assoc K V
  put_all [] m = m
  put_all ((k, v) ∷ es) m = put_all es (put k (some v) m)

  pub put_all-snoc :
      (es : List (K × V)) (k : K) (v : V) (m : Assoc K V)
      → put_all (snoc es (k, v)) m ≡ put k (some v) (put_all es m)
  unfolding put_all snoc
  put_all-snoc [] k v m = refl
  put_all-snoc (x ∷ es) k v m = put_all-snoc es k v (put x.0 (some x.1) m)
