-- ===== src/Tomb/Backend.antt =====
-- The tombstone table as an implementation of `RawTableApi`, with the entry searches: `impl
-- RawTableApi for RawTable` of src/in_place_overflow/raw/mod.rs.
use optimap.Prelude.{
  ℕ, ◌+◌, ◌≤◌, ◌<◌, ◌==◌, ◌≡◌, Bool, false, Option, none, some, refl, arith, Bool-cases,
  Option-cases, inl, inr,
}
use optimap.Raw.Api.{
  RawTableApi, EntryProbe, entry_found, vacant, Assoc, most, EntryLocated, StoredAt,
}
use optimap.Raw.Bitmask.{to_list, lowest_set_bit}
use optimap.Raw.Group.{first_where, get_meta}
use optimap.Raw.Key.{Key}
use optimap.Raw.Probe.{visited}
use optimap.Raw.Run.{done, Returns, ◌>>=◌}
use optimap.Raw.Tag.{TombstoneKind, reduced_hash}
use optimap.Tomb.{Table, new, group_index, meta_ptr, is_allocated}
use optimap.Tomb.Find.{find_by_hash, key_test}
use optimap.Tomb.Group.{match_byte, match_empty, match_byte_and_empty}
use optimap.Tomb.Insert.{insert_no_check, insert_at}
use optimap.Tomb.Inv.{cell, InTable, Holds, Absent, walk-le}
use optimap.Tomb.Locate.{ProbeResult, find_for_entry, to_entry_probe}
use optimap.Tomb.Ops.{
  replace_value, insert_or_replace, remove_by_hash, clear, reserve, ensure_capacity,
}
use optimap.Tomb.Place.{Free, fill_slot-Filled, empty-Free}
use optimap.Tomb.Probing.{Probed, find_or_locate-Probed}
use optimap.Tomb.Search.{
  Found, find_by_hash-Found, match-some, match-none, lowest_empty-some, Passed-zero, Passed-Absent,
}
use optimap.Tomb.Store.{IsSound-HasEmpty, grow_insert}
use optimap.Tomb.View.{Models, Models-fill, Models-keeps, Holds-value, Absent-value}
use optimap.Tomb.Regrow.{grow_or_rehash-Grown}
use optimap.Tomb.Write.{cell_here}

module _ {ℓ} {K V : Type ℓ} (tag : TombstoneKind) ⦃key : Key K⦄ where
  -- The operations of the table. Reads and writes through the pointers of a slot are those of its
  -- bucket.
  abbrev pub tombstone_api : RawTableApi K V (Table K V)
  tombstone_api = record {
    new = new;
    len = λ t. t.len;
    is_allocated = is_allocated;
    bucket = cell;
    write_value = replace_value;
    clear = clear;
    find_by_hash = find_by_hash tag;
    insert_or_replace = insert_or_replace tag;
    find_for_entry = find_for_entry tag;
    insert_at = insert_at tag;
    insert_no_check = insert_no_check tag;
    ensure_capacity = ensure_capacity tag;
    remove_by_hash = remove_by_hash tag;
    reserve = reserve tag;
  }

  -- `ensure_capacity` keeps the pairs.
  pub ensure_capacity-Same :
      (t : Table K V) (m : Assoc K V)
      → Models tag t m
      → t.len ≤ most
      → Returns (ensure_capacity tag t) (λ r. Models tag r m × (r.len ≡ t.len))
  unfolding ensure_capacity
  ensure_capacity-Same t m mo few = elim (Bool-cases (t.growth_left == 0)) [
    | inr e ↦ (t, rw e refl, (mo, refl))
    | inl e ↦
        let (r, run, (n, h, more)) = grow_or_rehash-Grown tag t mo.sound few in
        (r, rw e run, (Models-keeps tag t r m h.sound h.keeps mo, h.len))
  ]

  module _ (t : Table K V) (m : Assoc K V) (k : K) (mo : Models tag t m) where
    abbrev Entry : EntryProbe → Type ℓ
    Entry = EntryLocated tombstone_api InTable (Models tag) t m k

    located-Entry :
        (gi si : ℕ)
        → InTable t gi si
        → ((v : V) × (cell t gi si ≡ some (k, v)))
        → Entry (entry_found gi si)
    located-Entry gi si inside (v, e) =
        let h : Holds t k v = record { group = gi; slot = si; inside = inside; pair = e } in
        (inside, v, e, Holds-value tag t m mo k v h)

    -- `insert_at` on a free slot of a table that may lose an EMPTY slot.
    insert_at-StoredAt :
        (gi si mask : ℕ) (v : V)
        → Absent t k
        → 0 < t.growth_left
        → Free t (key.hash k) gi si
        → Returns
            (insert_at tag t (key.hash k) gi si k v mask)
            (λ r. StoredAt tombstone_api InTable (Models tag) t m k v (r, (gi, si)))
    unfolding insert_at get_meta
    insert_at-StoredAt gi si mask v gone left free =
        let reduced = reduced_hash tag (key.hash k) in
        let (u, run, filled) =
          fill_slot-Filled t gi si reduced k v (cell_empty) free.inside refl left in
        (
          u,
          run,
          (
            Models-fill tag t u m k v gi si mo gone left free filled,
            cell_here t u gi si reduced (some (k, v)) filled.written,
            omega (arith, filled.len),
          ),
        )
      where
        cell_empty : Bool
        cell_empty = t.ctrl (meta_ptr gi + si) == 0

    vacant-Entry :
        (gi si mask : ℕ)
        → Absent t k
        → 0 < t.growth_left
        → Free t (key.hash k) gi si
        → Entry (vacant (some (gi, si, mask)))
    vacant-Entry gi si mask gone left free =
        (Absent-value tag t m mo k gone, λ v. insert_at-StoredAt gi si mask v gone left free)

    -- `ensure_capacity` and `insert_no_check` put in a key that the table does not hold.
    pub put_in-StoredAt :
        t.len ≤ most
        → Absent t k
        → (v : V)
        → Returns
            (ensure_capacity tag t >>= λ u. insert_no_check tag u (key.hash k) k v)
            (StoredAt tombstone_api InTable (Models tag) t m k v)
    unfolding ensure_capacity
    put_in-StoredAt few gone v =
        let (r, run, (a, b, c)) =
          grow_insert tag t m k v (t.growth_left == 0) mo few gone (not_full t.growth_left) in
        (r, run, (a, c, omega (arith, b)))
      where
        not_full : (n : ℕ) → (n == 0) ≡ false → 0 < n
        not_full n f = ground arith

    full-Entry : t.len ≤ most → Absent t k → Entry (vacant none)
    full-Entry few gone = (Absent-value tag t m mo k gone, put_in-StoredAt few gone)

    Probed-Entry :
        (r : ProbeResult)
        → 0 < t.growth_left
        → Probed tag t mo.sound.placed k r
        → Entry (to_entry_probe r)
    unfolding to_entry_probe
    Probed-Entry (ProbeResult.found gi si) left (inside, p) = located-Entry gi si inside p
    Probed-Entry (ProbeResult.insert_slot gi si mask) left (gone, free) =
        vacant-Entry gi si mask gone left free
    Probed-Entry ProbeResult.not_found left p = absurd (p refl)

    roomy-Entry :
        (t.growth_left == 0) ≡ false
        → 0 < t.growth_left
        → Returns (find_for_entry tag t (key.hash k) (key.equal k)) Entry
    unfolding find_for_entry match_byte_and_empty visited
    roomy-Entry test left =
        let s = mo.sound.placed in
        let h = key.hash k in
        let g = group_index t h in
        let reduced = reduced_hash tag h in
        let start : g ≤ t.mask = walk-le t s.exponent s.groups s.small h 0 in
        elim (Option-cases (
          first_where (to_list (match_byte t.ctrl (meta_ptr g) reduced))
            (key_test tag t (key.equal k) g))) [
              | inr (si, e) ↦
                  let (lt, p) = match-some tag t k reduced g si e in
                  (
                    entry_found g si,
                    rw (find_for_entry, match_byte_and_empty, test, e) refl,
                    located-Entry g si (start, lt) p,
                  )
              | inl e ↦
                  let missing = match-none tag t s k g start e in
                  elim (Option-cases (lowest_set_bit (match_empty t.ctrl (meta_ptr g)))) [
                    | inr (si, f) ↦
                        let (lt, z) = lowest_empty-some t g si f in
                        (
                          vacant (some (g, si, 0)),
                          rw (find_for_entry, match_byte_and_empty, test, e, f) refl,
                          vacant-Entry g si 0
                              (Passed-Absent tag t s k 0 si (Passed-zero tag t s k) missing lt z)
                              left
                              (empty-Free t h s.exponent s.groups s.small 0 si (omega arith)
                                (λ j p. absurd (omega arith)) lt z),
                        )
                    | inl f ↦
                        let (r, run, p) =
                          find_or_locate-Probed tag t s k (IsSound-HasEmpty tag t mo.sound) in
                        (
                          to_entry_probe r,
                          rw (find_for_entry, match_byte_and_empty, test, e, f, run, ◌>>=◌) refl,
                          Probed-Entry r left p,
                        )
                  ]
            ]

    -- `find_for_entry` on a table of at most 2 ^ 62 pairs that models an abstract map ends. If it
    -- finds the key, the slot holds the key with its value. Otherwise the map has no value for the
    -- key, and what the entry does next with any value ends, leaves a table that models the map with
    -- that value, and returns the slot of the pair: `insert_at` at the slot that it names, or, if it
    -- names none, `ensure_capacity` and `insert_no_check`.
    pub find_for_entry-Located :
        t.len ≤ most
        → Returns
            (find_for_entry tag t (key.hash k) (key.equal k))
            (EntryLocated tombstone_api InTable (Models tag) t m k)
    unfolding find_for_entry
    find_for_entry-Located few = elim (Bool-cases (t.growth_left == 0)) [
      | inr e ↦ roomy-Entry e (positive t.growth_left e)
      | inl e ↦
          let (r, run, found) =
            find_by_hash-Found tag t mo.sound.placed k (IsSound-HasEmpty tag t mo.sound) in
          rw (find_for_entry, e, run, ◌>>=◌) (go r found)
    ]
      where
        go :
            (r : Option (ℕ × ℕ))
            → Found t k r
            → Returns
                (elim r [ some (gi, si) ↦ done (entry_found gi si) | none ↦ done (vacant none) ])
                Entry
        go none gone = (vacant none, refl, full-Entry few gone)
        go (some (gi, si)) (inside, p) = (entry_found gi si, refl, located-Entry gi si inside p)

        positive : (n : ℕ) → (n == 0) ≡ false → 0 < n
        positive n e = ground arith
