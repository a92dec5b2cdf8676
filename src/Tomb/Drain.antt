-- ===== src/Tomb/Drain.antt =====
-- `drain` of a tombstone table, collected: `drain_impl`, `into_iter_impl` and `IntoIter::next` of
-- src/in_place_overflow/raw/mod.rs.
use optimap.Prelude.{
  ℕ, ◌+◌, ◌-◌, ◌<◌, ◌≡◌, not, if◌then◌else◌, some, List, [], refl, sym, ap, ◌∙◌, arith, inl, inr,
  Option-cases, Bool-cases, none-ne-some,
}
use optimap.Raw.Api.{Assoc, put, put-same, put-other, key_cases, nothing}
use optimap.Raw.Key.{Key}
use optimap.Raw.Pairs.{length, snoc, put_all, put_all-snoc, length-snoc}
use optimap.Raw.Run.{Run, done, Returns, ◌>>=◌}
use optimap.Raw.Tag.{TombstoneKind}
use optimap.Raw.Transfer.{transfer_groups}
use optimap.Raw.Transfer.Moved.{Added, transfer_groups-all}
use optimap.Tomb.{Table, is_allocated, bucket_index, minus, group_size}
use optimap.Tomb.Fresh.{len_zero-Holds, not_allocated}
use optimap.Tomb.Inv.{cell, Holds, live}
use optimap.Tomb.Moved.{slots-Scan}
use optimap.Tomb.Place.{minus-done}
use optimap.Tomb.Rehash.{occupied_slots}
use optimap.Tomb.View.{Models, value-Holds, Holds-value}

module _ {ℓ} {K V : Type ℓ} where
  -- A pair is read and yielded: `self.table.len -= 1`, and it is pushed to the result. The slot is
  -- marked EMPTY, which no later round reads again.
  unfoldable pub yield_pair : List (K × V) × ℕ → K → V → Run (List (K × V) × ℕ)
  yield_pair (es, len) k v = do left ← minus len 1; done (snoc es (k, v), left)

  -- All that the iterator yields, in its order: the occupied slots of one group after the other.
  unfoldable pub drain : Table K V → Run (List (K × V))
  drain t = if not (is_allocated t) then done [] else (do
    (es, left) ←
        transfer_groups (λ gi si. t.buckets (bucket_index gi si)) (occupied_slots t) yield_pair 0
          (t.mask + 1) ([], t.len)
    done es)

  module _ ⦃key : Key K⦄ (total : ℕ) where
    -- The map of the pairs that have been yielded, and how many they are.
    abbrev Has : List (K × V) × ℕ → K → V → Type ℓ
    Has u k v = put_all u.0 nothing k ≡ some v

    abbrev Yielded : List (K × V) × ℕ → ℕ → Type ℓ
    Yielded u n = Unit {ℓ} × (length u.0 ≡ n) × (u.1 + n ≡ total)

    yield_pair-Yielded :
        (u : List (K × V) × ℕ) (k : K) (v : V) (n : ℕ)
        → Yielded u n
        → n < total
        → ((y : V) → Has u k y → ⊥)
        → Returns (yield_pair u k v) (λ r. Yielded r (n + 1) × Added Has u r k v)
    unfolding yield_pair
    yield_pair-Yielded (es, len) k v n (tt', a, b) lt gone = (
      (snoc es (k, v), len - 1),
      rw (minus-done len 1 (omega (arith, b)), ◌>>=◌) refl,
      (
        (tt', omega (arith, a, length-snoc es (k, v)), omega (arith, b, lt)),
        record {
          new = now k ∙ put-same k (some v) (put_all es nothing);
          old = λ x y h. elim (key_cases k x) [
            | inl p ↦ absurd (gone y (ap (put_all es nothing) (sym p) ∙ h))
            | inr ne ↦ now x ∙ (put-other k x (some v) (put_all es nothing) ne ∙ h)
          ];
          cases = λ x y h. elim (key_cases k x) [
            | inl p ↦ inl (sym p, same x y p (sym (now x) ∙ h))
            | inr ne ↦ inr (sym (now x ∙ put-other k x (some v) (put_all es nothing) ne) ∙ h)
          ];
        },
      ),
    )
      where
        now : (x : K) → put_all (snoc es (k, v)) nothing x ≡ put k (some v) (put_all es nothing) x
        now x = ap (λ m. m x) (put_all-snoc es k v nothing)

        some_inj : {x y : V} → some x ≡ some y → x ≡ y
        some_inj e = cc

        same : (x : K) (y : V) → x ≡ k → put k (some v) (put_all es nothing) x ≡ some y → v ≡ y
        same x y p h = some_inj (
            sym (put-same k (some v) (put_all es nothing))
            ∙ (ap (put k (some v) (put_all es nothing)) (sym p) ∙ h))

  module _ (tag : TombstoneKind) ⦃key : Key K⦄ (t : Table K V) (m : Assoc K V)
      (mo : Models tag t m) where
    -- The yielded pairs make up the map, each once.
    abbrev pub Drained : List (K × V) → Type ℓ
    Drained es = (put_all es nothing ≡ m) × (length es ≡ t.len)

    same_map :
        (f : Assoc K V)
        → ((x : K) (y : V) → f x ≡ some y → Holds t x y)
        → ((x : K) (y : V) → Holds t x y → f x ≡ some y)
        → f ≡ m
    same_map f from into = λ d x. at x d
      where
        at : (x : K) → f x ≡ m x
        at x = elim (Option-cases (m x)) [
          | inr (y, e) ↦ into x y (value-Holds tag t m mo x y e) ∙ sym e
          | inl e ↦ elim (Option-cases (f x)) [
            | inl g ↦ g ∙ sym e
            | inr (y, g) ↦ absurd (none-ne-some (sym e ∙ Holds-value tag t m mo x y (from x y g)))
          ]
        ]

    -- Draining a tombstone table that models an abstract map ends without a panic, and the pairs that
    -- it yields, put into the empty map one after the other, give back the abstract map; they are as
    -- many as the table counts.
    pub drain-Drained : Returns (drain t) Drained
    unfolding drain length put_all
    drain-Drained = elim (Bool-cases (is_allocated t)) [
      | inr e ↦
          let z = (mo.sound.unallocated (not_allocated t e)).0 in
          (
            [],
            rw e refl,
            (
              same_map nothing (λ x y h. absurd (none-ne-some h))
                  (λ x y h. absurd (len_zero-Holds tag t mo.sound z x y h)),
              sym z,
            ),
          )
      | inl e ↦
          let (r, run, ((u, a, b), from, into)) =
            transfer_groups-all (cell t) (t.mask + 1) group_size (Has (live t)) (Yielded (live t))
              (λ gi si gj sj k v y p q p' q' e f.
                mo.sound.placed.once gi si gj sj k v y (omega arith, q) (omega arith, q') e f)
              yield_pair (yield_pair-Yielded (live t)) (occupied_slots t)
              (λ gi p. slots-Scan tag t mo.sound gi (omega arith)) ([], t.len)
              (tt, refl, omega (arith, mo.sound.counted)) (λ x y h. absurd (none-ne-some h)) in
          (
            r.0,
            rw (e, run, ◌>>=◌) refl,
            (
              same_map (put_all r.0 nothing)
                  (λ x y h.
                    let (gj, sj, p, q, c) = from x y h in
                    record { group = gj; slot = sj; inside = (omega arith, q); pair = c })
                  (λ x y h. into h.group h.slot x y (omega (arith, h.inside.0)) h.inside.1 h.pair),
              a ∙ sym mo.sound.counted,
            ),
          )
    ]
