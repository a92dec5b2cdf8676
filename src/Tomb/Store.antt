-- ===== src/Tomb/Store.antt =====
-- `insert_or_replace` of src/in_place_overflow/raw/mod.rs, on the abstract map.
use optimap.Prelude.{
  ℕ, ◌+◌, ◌≤◌, ◌<◌, ◌==◌, ◌≡◌, Bool, true, false, Option, none, some, refl, sym, ap, ◌∙◌, arith,
  Option-cases, inl, inr, if◌then◌else◌,
}
use optimap.Raw.Api.{Assoc, put, most, Located}
use optimap.Raw.Bitmask.{to_list, lowest_set_bit}
use optimap.Raw.Group.{first_where}
use optimap.Raw.Key.{Key}
use optimap.Raw.Probe.{visited}
use optimap.Raw.Run.{done, Returns, ◌>>=◌, bind_assoc}
use optimap.Raw.Tag.{TombstoneKind, reduced_hash}
use optimap.Tomb.{Table, group_index, meta_ptr, max_load_for_capacity}
use optimap.Tomb.Erase.{replace_value-Models}
use optimap.Tomb.Find.{find_by_hash, key_test}
use optimap.Tomb.Group.{match_byte, match_empty, match_byte_and_empty}
use optimap.Tomb.Insert.{insert_no_check}
use optimap.Tomb.Inv.{cell, InTable, Holds, Absent, walk-le, IsSound}
use optimap.Tomb.Moved.{used-HasEmpty}
use optimap.Tomb.Ops.{replace_value, replace_or_insert, insert_fast}
use optimap.Tomb.Place.{fill_slot-Filled, insert_no_check-Placed, empty-Free}
use optimap.Tomb.Regrow.{grow_or_rehash-Grown}
use optimap.Tomb.Rehash.{grow_or_rehash}
use optimap.Tomb.Search.{
  HasEmpty, Found, find_by_hash-Found, match-some, match-none, lowest_empty-some, Passed-zero,
  Passed-Absent,
}
use optimap.Tomb.View.{Models, Models-keeps, Models-fill, Holds-value, Absent-value}
use optimap.Tomb.Write.{cell_here}

module _ {ℓ} {K V : Type ℓ} (tag : TombstoneKind) ⦃key : Key K⦄ where
  -- An eighth of the slots of a sound table is EMPTY.
  pub IsSound-HasEmpty : (t : Table K V) → IsSound tag t → HasEmpty t
  unfolding max_load_for_capacity
  IsSound-HasEmpty t s = used-HasEmpty t (omega (arith, s.room))

  -- A search ends, and tells the key's value in the abstract map: in a table that models the map,
  -- the slot that it returns holds the key with that value, and it returns none only if the map has
  -- no value for the key.
  pub find_by_hash-Located :
      (t : Table K V) (m : Assoc K V) (k : K)
      → Models tag t m
      → Returns (find_by_hash tag t (key.hash k) (key.equal k)) (Located (InTable t) (cell t) m k)
  find_by_hash-Located t m k mo =
      let (r, run, found) =
        find_by_hash-Found tag t mo.sound.placed k (IsSound-HasEmpty t mo.sound) in
      (r, run, located r found)
    where
      located : (r : Option (ℕ × ℕ)) → Found t k r → Located (InTable t) (cell t) m k r
      located none gone = Absent-value tag t m mo k gone
      located (some (gi, si)) (inside, (v, e)) = (
        inside,
        v,
        e,
        Holds-value tag t m mo k v (record { group = gi; slot = si; inside = inside; pair = e }),
      )

  -- The result and the table of an insertion: the key's old value, and the map with the new one.
  abbrev pub Stored : Table K V → Assoc K V → K → V → Option V × Table K V → Type ℓ
  Stored t m k v r = (r.0 ≡ m k) × Models tag r.1 (put k (some v) m) × (r.1.len ≤ t.len + 1)

  module _ (t : Table K V) (m : Assoc K V) (mo : Models tag t m) (k : K) (v : V) where
    replaced :
        (gi si : ℕ) (old : V)
        → InTable t gi si
        → cell t gi si ≡ some (k, old)
        → Stored t m k v (replace_value t gi si v)
    replaced gi si old inside e =
        let (a, b, c, d) = replace_value-Models tag t m mo gi si k old inside e v in
        let h : Holds t k old = record { group = gi; slot = si; inside = inside; pair = e } in
        (a ∙ sym (Holds-value tag t m mo k old h), b, omega (arith, c))

    -- `insert_no_check` on a table that does not hold the key and may lose an EMPTY slot.
    pub insert_no_check-Stores :
        Absent t k
        → 0 < t.growth_left
        → Returns (insert_no_check tag t (key.hash k) k v) (λ r.
          Models tag r.0 (put k (some v) m)
          × (r.0.len ≡ t.len + 1)
          × (cell r.0 r.1.0 r.1.1 ≡ some (k, v)))
    insert_no_check-Stores gone left =
        let s = mo.sound.placed in
        let (r, run, (filled, free)) =
          insert_no_check-Placed t (key.hash k) s.exponent s.groups s.small tag k v left
            (IsSound-HasEmpty t mo.sound) in
        (
          r,
          run,
          (
            Models-fill tag t r.0 m k v r.1.0 r.1.1 mo gone left free filled,
            filled.len,
            cell_here t r.0 r.1.0 r.1.1 (reduced_hash tag (key.hash k)) (some (k, v))
                filled.written,
          ),
        )

  -- Making room, then the insertion.
  pub grow_insert :
      (t : Table K V) (m : Assoc K V) (k : K) (v : V) (grow : Bool)
      → Models tag t m
      → t.len ≤ most
      → Absent t k
      → (grow ≡ false → 0 < t.growth_left)
      → Returns
          ((if grow then grow_or_rehash tag t else done t) >>= λ u.
            insert_no_check tag u (key.hash k) k v)
          (λ r.
            Models tag r.0 (put k (some v) m)
            × (r.0.len ≡ t.len + 1)
            × (cell r.0 r.1.0 r.1.1 ≡ some (k, v)))
  grow_insert t m k v false mo few gone left = insert_no_check-Stores t m mo k v gone (left refl)
  grow_insert t m k v true mo few gone left =
      let (u, run, (n, h, more)) = grow_or_rehash-Grown tag t mo.sound few in
      let mu = Models-keeps tag t u m h.sound h.keeps mo in
      let (r, run', (a, b, c)) =
        insert_no_check-Stores u m mu k v (λ w g. gone w ((h.keeps k w).1 g)) more in
      (r, rw (run, ◌>>=◌) run', (a, b ∙ ap (λ n. n + 1) h.len, c))

  module _ (t : Table K V) (m : Assoc K V) (k : K) (v : V) (few : t.len ≤ most)
      (mo : Models tag t m) where
    pub replace_or_insert-Stored :
        (grow : Bool)
        → (grow ≡ false → 0 < t.growth_left)
        → Returns (replace_or_insert tag t k v grow) (Stored t m k v)
    unfolding replace_or_insert
    replace_or_insert-Stored grow left =
        let (r, run, found) =
          find_by_hash-Found tag t mo.sound.placed k (IsSound-HasEmpty t mo.sound) in
        rw (run, ◌>>=◌) (go r found)
      where
        go :
            (r : Option (ℕ × ℕ))
            → Found t k r
            → Returns
                (elim r [
                  | some (gi, si) ↦ done (replace_value t gi si v)
                  | none ↦ do
                    t' ← if grow then grow_or_rehash tag t else done t
                    (t'', pos) ← insert_no_check tag t' (key.hash k) k v
                    done (none, t'')
                ])
                (Stored t m k v)
        go (some (gi, si)) (inside, (old, e)) =
            (replace_value t gi si v, refl, replaced t m mo k v gi si old inside e)
        go none gone =
            let (r, run, (a, b, c)) = grow_insert t m k v grow mo few gone left in
            (
              (none, r.0),
              sym (
                    bind_assoc (if grow then grow_or_rehash tag t else done t)
                      (λ u. insert_no_check tag u (key.hash k) k v) (λ p. done (none, p.0)))
                  ∙ ap (λ x. x >>= λ p. done (none, p.0)) run,
              (sym (Absent-value tag t m mo k gone), a, omega (arith, b)),
            )

    -- The fast path, where a slot may still lose the tag EMPTY.
    pub insert_fast-Stored : 0 < t.growth_left → Returns (insert_fast tag t k v) (Stored t m k v)
    unfolding insert_fast match_byte_and_empty visited
    insert_fast-Stored left =
        let s = mo.sound.placed in
        let h = key.hash k in
        let g = group_index t h in
        let reduced = reduced_hash tag h in
        let inside : g ≤ t.mask = walk-le t s.exponent s.groups s.small h 0 in
        elim (Option-cases (
          first_where (to_list (match_byte t.ctrl (meta_ptr g) reduced))
            (key_test tag t (key.equal k) g))) [
              | inr (si, e) ↦
                  let (lt, (old, c)) = match-some tag t k reduced g si e in
                  (
                    replace_value t g si v,
                    rw (insert_fast, match_byte_and_empty, e) refl,
                    replaced t m mo k v g si old (inside, lt) c,
                  )
              | inl e ↦
                  let missing = match-none tag t s k g inside e in
                  elim (Option-cases (lowest_set_bit (match_empty t.ctrl (meta_ptr g)))) [
                    | inl f ↦
                        let (r, run, st) =
                          replace_or_insert-Stored (t.growth_left == 0) (λ z. left) in
                        (r, rw (insert_fast, match_byte_and_empty, e, f) run, st)
                    | inr (si, f) ↦
                        let (lt, z) = lowest_empty-some t g si f in
                        let gone =
                          Passed-Absent tag t s k 0 si (Passed-zero tag t s k) missing lt z in
                        let free =
                          empty-Free t h s.exponent s.groups s.small 0 si (omega arith)
                            (λ j p. absurd (omega arith)) lt z in
                        let (u, run, filled) =
                          fill_slot-Filled t g si reduced k v true (inside, lt) (is_empty z) left in
                        (
                          (none, u),
                          rw (insert_fast, match_byte_and_empty, e, f, run, ◌>>=◌) refl,
                          (
                            sym (Absent-value tag t m mo k gone),
                            Models-fill tag t u m k v g si mo gone left free filled,
                            omega (arith, filled.len),
                          ),
                        )
                  ]
            ]
      where
        is_empty : {x : ℕ} → x ≡ 0 → true ≡ (x == 0)
        is_empty e = rw e refl
