-- ===== src/Tomb/Laws.antt =====
-- The tombstone table as a backend: `impl RawTableApi for RawTable` of
-- src/in_place_overflow/raw/mod.rs.
use optimap.Prelude.{
  ℕ, ◌≤◌, ◌<◌, ◌==◌, ◌≡◌, true, false, Option, none, some, refl, sym, ap, ◌∙◌, arith, Bool-cases,
  inl, inr, if◌then◌else◌,
}
use optimap.Raw.Api.{Assoc, put, pair_of, most}
use optimap.Raw.Key.{Key}
use optimap.Raw.Run.{done, Returns, ◌>>=◌}
use optimap.Raw.Tag.{TombstoneKind}
use optimap.Tomb.{Table, allocate, is_allocated, bucket_index}
use optimap.Tomb.Erase.{erase_slot-Models}
use optimap.Tomb.Fresh.{
  allocate-IsSound, allocate-Blank, allocate-fields, Blank-Holds, len_zero-Holds, not_allocated,
}
use optimap.Tomb.Inv.{Holds}
use optimap.Tomb.Ops.{insert_fast, insert_or_replace, remove_by_hash, replace_or_insert, erase_slot}
use optimap.Tomb.Search.{Found, find_by_hash-Found}
use optimap.Tomb.Store.{IsSound-HasEmpty, Stored, replace_or_insert-Stored, insert_fast-Stored}
use optimap.Tomb.View.{Models, Models-same, Models-keeps, Holds-value, Absent-value}

module _ {ℓ} {K V : Type ℓ} (tag : TombstoneKind) ⦃key : Key K⦄ where
  -- A first allocation of one group does not change the map.
  pub allocate-Models :
      (t : Table K V) (m : Assoc K V)
      → Models tag t m
      → is_allocated t ≡ false
      → Models tag (allocate t 1) m × (t.len ≡ 0)
  allocate-Models t m mo e =
      let z = (mo.sound.unallocated (not_allocated t e)).0 in
      (
        Models-keeps tag t (allocate t 1) m (allocate-IsSound tag t 0 (omega arith) z)
            (λ x y. (
              λ h. absurd (len_zero-Holds tag t mo.sound z x y h),
              λ h. absurd (Blank-Holds tag _ (allocate-Blank t 0 (omega arith)) x y h),
            ))
            mo,
        z,
      )

  -- The part of `insert_or_replace` after the allocation.
  after_allocation :
      (t : Table K V) (m : Assoc K V) (k : K) (v : V)
      → Models tag t m
      → t.len ≤ most
      → Returns
          (if t.growth_left == 0 then replace_or_insert tag t k v true else insert_fast tag t k v)
          (Stored tag t m k v)
  after_allocation t m k v mo few = elim (Bool-cases (t.growth_left == 0)) [
    | inl e ↦ rw e (replace_or_insert-Stored tag t m k v few mo true (λ z. cc))
    | inr e ↦ rw e (insert_fast-Stored tag t m k v few mo (positive t.growth_left e))
  ]
    where
      positive : (n : ℕ) → (n == 0) ≡ false → 0 < n
      positive n e = ground arith

  -- `insert_or_replace` on a table of at most 2 ^ 62 pairs that models an abstract map ends without
  -- a panic, on every path: a value replaced, a slot filled, a tombstone used again, the table
  -- allocated, doubled or cleaned of tombstones. It returns the key's old value, and the table that
  -- it leaves models the map with the new value.
  pub insert_or_replace-Stored :
      (t : Table K V) (m : Assoc K V) (k : K) (v : V)
      → Models tag t m
      → t.len ≤ most
      → Returns (insert_or_replace tag t k v) (Stored tag t m k v)
  unfolding insert_or_replace
  insert_or_replace-Stored t m k v mo few = elim (Bool-cases (is_allocated t)) [
    | inl e ↦ rw (insert_or_replace, e) (after_allocation t m k v mo few)
    | inr e ↦
        let (ma, z) = allocate-Models t m mo e in
        let n : (allocate t 1).len ≡ t.len = (allocate-fields t 1).1 in
        let (r, run, (a, b, c)) =
          after_allocation (allocate t 1) m k v ma (omega (arith, n, few)) in
        (r, rw (insert_or_replace, e) run, (a, b, omega (arith, n, c)))
  ]

  -- The result and the table of a removal: the key's pair, and the map without the key.
  abbrev pub Removed : Table K V → Assoc K V → K → Option (K × V) × Table K V → Type ℓ
  Removed t m k r = (r.0 ≡ pair_of k (m k)) × Models tag r.1 (put k none m) × (r.1.len ≤ t.len)

  -- `remove_by_hash` on a table that models an abstract map ends without a panic. It returns the
  -- key's pair, or none if the map has no value for the key, and the table that it leaves models the
  -- map without the key.
  pub remove_by_hash-Models :
      (t : Table K V) (m : Assoc K V) (k : K)
      → Models tag t m
      → Returns (remove_by_hash tag t (key.hash k) (key.equal k)) (Removed t m k)
  unfolding remove_by_hash
  remove_by_hash-Models t m k mo =
      let (r, run, found) =
        find_by_hash-Found tag t mo.sound.placed k (IsSound-HasEmpty tag t mo.sound) in
      rw (run, ◌>>=◌) (go r found)
    where
      go :
          (r : Option (ℕ × ℕ))
          → Found t k r
          → Returns
              (elim r [
                | none ↦ done (none, t)
                | some (gi, si) ↦ do
                  t' ← erase_slot t gi si
                  done (t.buckets (bucket_index gi si), t')
              ])
              (Removed t m k)
      go none gone =
          let e = Absent-value tag t m mo k gone in
          ((none, t), refl, (sym (ap (pair_of k) e), Models-same tag t m mo k none e, omega arith))
      go (some (gi, si)) (inside, (v, e)) =
          let (u, run, (a, b)) = erase_slot-Models tag t m mo gi si k v inside e in
          let h : Holds t k v = record { group = gi; slot = si; inside = inside; pair = e } in
          (
            (t.buckets (bucket_index gi si), u),
            rw (run, ◌>>=◌) refl,
            (e ∙ sym (ap (pair_of k) (Holds-value tag t m mo k v h)), a, omega (arith, b)),
          )
