-- ===== src/Tomb/View.antt =====
-- The abstract map of a tombstone table (src/in_place_overflow/raw/mod.rs), and how the writes of
-- the table change it.
use optimap.Prelude.{
  ℕ, ◌<◌, ◌≡◌, ◌≢◌, ◌↔◌, Option, none, some, refl, sym, ap, ◌∙◌, arith, inl, inr, subst, some_pair,
}
use mathlib.Core.Path.{ap₂}
use optimap.Raw.Api.{Assoc, put, put-same, put-other, key_cases}
use optimap.Raw.Key.{Key}
use optimap.Raw.Tag.{TombstoneKind, reduced_hash}
use optimap.Tomb.{Table, max_load_for_capacity}
use optimap.Tomb.Fill.{Holds-new, Holds-old, Holds-cases, fill-IsPlaced, fill-live, fill-used}
use optimap.Tomb.Inv.{cell, Holds, Absent, IsPlaced, IsSound}
use optimap.Tomb.Place.{Free, Filled}

module _ {ℓ} {K V : Type ℓ} (tag : TombstoneKind) ⦃key : Key K⦄ where
  -- The table has the key with the value, or does not have it.
  abbrev pub Agrees : Table K V → K → Option V → Type ℓ
  Agrees t k none = Absent t k
  Agrees t k (some v) = Holds t k v

  -- The table is sound and holds exactly the pairs of the abstract map.
  pub record Models (t : Table K V) (m : Assoc K V) : Type ℓ where
    pub sound : IsSound tag t
    pub agrees : (k : K) → Agrees t k (m k)

  module _ (t : Table K V) where
    -- A key has one value.
    Holds-inj : IsPlaced tag t → (k : K) (v w : V) → Holds t k v → Holds t k w → v ≡ w
    Holds-inj s k v w h g =
        let (a, b) = s.once h.group h.slot g.group g.slot k v w h.inside g.inside h.pair g.pair in
        (some_pair (sym h.pair ∙ (ap₂ (cell t) a b ∙ g.pair))).1

    module _ (m : Assoc K V) (mo : Models t m) (k : K) where
      pub Holds-value : (v : V) → Holds t k v → m k ≡ some v
      Holds-value v h = go (m k) (mo.agrees k)
        where
          go : (o : Option V) → Agrees t k o → o ≡ some v
          go none gone = absurd (gone v h)
          go (some w) g = ap some (Holds-inj mo.sound.placed k w v g h)

      pub Absent-value : Absent t k → m k ≡ none
      Absent-value gone = go (m k) (mo.agrees k)
        where
          go : (o : Option V) → Agrees t k o → o ≡ none
          go none a = refl
          go (some w) g = absurd (gone w g)

      pub value-Holds : (v : V) → m k ≡ some v → Holds t k v
      value-Holds v e = subst (Agrees t k) e (mo.agrees k)

      pub value-Absent : m k ≡ none → Absent t k
      value-Absent e = subst (Agrees t k) e (mo.agrees k)

  -- Tables with the same pairs model the same map.
  pub Models-keeps :
      (t u : Table K V) (m : Assoc K V)
      → IsSound tag u
      → ((x : K) (y : V) → Holds t x y ↔ Holds u x y)
      → Models t m
      → Models u m
  Models-keeps t u m s keeps mo = record { sound = s; agrees = λ k. go k (m k) (mo.agrees k) }
    where
      go : (k : K) (o : Option V) → Agrees t k o → Agrees u k o
      go k none gone = λ v h. gone v ((keeps k v).1 h)
      go k (some v) h = (keeps k v).0 h

  -- Only the value of one key has changed.
  pub Models-put :
      (t u : Table K V) (m : Assoc K V) (k : K) (o : Option V)
      → IsSound tag u
      → Models t m
      → Agrees u k o
      → ((x : K) (y : V) → x ≢ k → Holds t x y ↔ Holds u x y)
      → Models u (put k o m)
  Models-put t u m k o s mo here others = record {
    sound = s;
    agrees = λ x. elim (key_cases k x) [
      | inl e ↦
          subst (λ z. Agrees u z (put k o m z)) (sym e)
            (subst (Agrees u k) (sym (put-same k o m)) here)
      | inr ne ↦ subst (Agrees u x) (sym (put-other k x o m ne)) (go x ne (m x) (mo.agrees x))
    ];
  }
    where
      go : (x : K) → x ≢ k → (p : Option V) → Agrees t x p → Agrees u x p
      go x ne none gone = λ y h. gone y ((others x y ne).1 h)
      go x ne (some y) h = (others x y ne).0 h

  -- A map with the value that a key has anyway.
  pub Models-same :
      (t : Table K V) (m : Assoc K V)
      → Models t m
      → (k : K) (o : Option V) → m k ≡ o
      → Models t (put k o m)
  Models-same t m mo k o e =
      Models-put t t m k o mo.sound mo (subst (Agrees t k) e (mo.agrees k))
        (λ x y ne. (λ h. h, λ h. h))

  -- A pair of a new key was put into a free slot.
  module _ (t u : Table K V) (m : Assoc K V) (k : K) (v : V) (gi si : ℕ) (mo : Models t m)
      (gone : Absent t k) (left : 0 < t.growth_left) (free : Free t (key.hash k) gi si)
      (f : Filled t u (reduced_hash tag (key.hash k)) k v gi si) where
    Filled-IsSound : IsSound tag u
    unfolding max_load_for_capacity
    Filled-IsSound =
        let s = mo.sound.placed in
        let r = reduced_hash tag (key.hash k) in
        record {
          placed = fill-IsPlaced tag t u gi si s k v r refl f.written free.unused gone free.way;
          counted = omega (
            arith,
            f.len,
            mo.sound.counted,
            fill-live tag t u gi si s k v r refl f.written free.unused,
          );
          room = omega (
            arith,
            f.growth,
            mo.sound.room,
            fill-used tag t u gi si s k v r refl f.written free.unused,
            f.written.mask,
          );
          unallocated =
              λ e. absurd (omega (arith, left, (mo.sound.unallocated (sym f.max_load ∙ e)).1));
        }

    pub Models-fill : Models u (put k (some v) m)
    Models-fill =
        let s = mo.sound.placed in
        let r = reduced_hash tag (key.hash k) in
        Models-put t u m k (some v) Filled-IsSound mo
          (Holds-new tag t u gi si s k v r refl f.written free.unused)
          (λ x y ne. (
            Holds-old tag t u gi si s k v r refl f.written free.unused x y,
            λ h. elim (Holds-cases tag t u gi si s k v r refl f.written free.unused x y h) [
              | inl (a, b) ↦ absurd (ne (sym a))
              | inr g ↦ g
            ],
          ))
