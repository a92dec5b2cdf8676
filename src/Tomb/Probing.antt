-- ===== src/Tomb/Probing.antt =====
-- `find_or_locate` of src/in_place_overflow/raw/mod.rs: the key's slot, or the slot that may take
-- it.
use optimap.Prelude.{
  ℕ, zero, suc, ◌+◌, ◌≤◌, ◌<◌, ◌==◌, ◌≡◌, ◌≢◌, Bool, true, false, Option, none, some, refl, sym, ap,
  ◌∙◌, arith, Bool-cases, Option-cases, inl, inr,
}
use optimap.Raw.Bitmask.{to_list, lowest_set_bit, any_set}
use optimap.Raw.Group.{first_where}
use optimap.Raw.Key.{Key}
use optimap.Raw.Probe.{visited}
use optimap.Raw.Run.{Returns}
use optimap.Raw.Tag.{TombstoneKind, reduced_hash}
use optimap.Tomb.{Table, group_index, meta_ptr, group_size, tombstone}
use optimap.Tomb.Find.{key_test}
use optimap.Tomb.Group.{match_byte, match_empty, match_byte_and_empty}
use optimap.Tomb.Insert.{track_tombstone}
use optimap.Tomb.Inv.{
  cell, tag_at, InTable, Full, Absent, walk, walk_step, walk-le, walk_onto, IsPlaced,
}
use optimap.Tomb.Locate.{
  ProbeResult, track_available, to_probe_result, locate_loop, find_or_locate_overflow,
  find_or_locate,
}
use optimap.Tomb.Place.{Free, Tracked, track-Tracked, tombstone-Free, empty-Free}
use optimap.Tomb.Search.{
  HasEmpty, NoKey, match-some, match-none, lowest_empty-some, lowest_empty-none, not_any-Full,
  still_ahead, Passed, Passed-zero, Passed-step, Passed-Absent,
}

module _ {ℓ} {K V : Type ℓ} (tag : TombstoneKind) ⦃key : Key K⦄ (t : Table K V) (s : IsPlaced tag t)
    (k : K) where
  -- A slot with the key, or one that may take it when the table does not have it.
  abbrev pub Probed : ProbeResult → Type ℓ
  Probed (ProbeResult.found gi si) = InTable t gi si × ((v : V) × (cell t gi si ≡ some (k, v)))
  Probed (ProbeResult.insert_slot gi si mask) = Absent t k × Free t (key.hash k) gi si
  Probed ProbeResult.not_found = k ≢ k

  abbrev Available : Option (ℕ × ℕ) → Type 0
  Available none = Unit
  Available (some (gi, si)) = Free t (key.hash k) gi si

  Tracked-Available : (o : Option (ℕ × ℕ)) → Tracked t (key.hash k) o → Available o
  Tracked-Available none a = tt
  Tracked-Available (some p) a = a.0

  module _ (i : ℕ) (p : i ≤ t.mask) (passed : Passed tag t s k i) where
    Full-before : (j : ℕ) → j < i → Full t (walk t (key.hash k) j)
    Full-before j q = (passed j q).0

    -- After the round the first available slot is known, if the group has an EMPTY slot.
    track-Available :
        (o : Option (ℕ × ℕ))
        → Available o
        → Available (
            track_available t
              (walk t (key.hash k) i)
              (match_empty t.ctrl (meta_ptr (walk t (key.hash k) i)))
              o)
    unfolding track_available
    track-Available (some q) a = a
    track-Available none a =
        let h = key.hash k in
        let g = walk t h i in
        elim (Option-cases (lowest_set_bit (match_byte t.ctrl (meta_ptr g) tombstone))) [
          | inr (si, e) ↦
              rw (track_available, e)
                (tombstone-Free t h s.exponent s.groups s.small i si p Full-before e).0
          | inl e ↦ elim (Option-cases (lowest_set_bit (match_empty t.ctrl (meta_ptr g)))) [
            | inl f ↦ rw (track_available, e, f) tt
            | inr (si, f) ↦
                let (lt, z) = lowest_empty-some t g si f in
                rw (track_available, e, f)
                  (empty-Free t h s.exponent s.groups s.small i si p Full-before lt z)
          ]
        ]

    track-some :
        (o : Option (ℕ × ℕ)) (si : ℕ)
        → lowest_set_bit (match_empty t.ctrl (meta_ptr (walk t (key.hash k) i))) ≡ some si
        → (q : ℕ × ℕ) × (track_available t
              (walk t (key.hash k) i)
              (match_empty t.ctrl (meta_ptr (walk t (key.hash k) i)))
              o
            ≡ some q)
    unfolding track_available
    track-some (some q) si f = (q, refl)
    track-some none si f =
        elim (Option-cases
          (lowest_set_bit (match_byte t.ctrl (meta_ptr (walk t (key.hash k) i)) tombstone))) [
            | inr (sj, e) ↦ ((walk t (key.hash k) i, sj), rw (track_available, e) refl)
            | inl e ↦ ((walk t (key.hash k) i, si), rw (track_available, e, f) refl)
          ]

    -- The end of the search, at a group with an EMPTY slot and without the key.
    finish :
        (o : Option (ℕ × ℕ))
        → Available o
        → NoKey t k (walk t (key.hash k) i)
        → any_set (match_empty t.ctrl (meta_ptr (walk t (key.hash k) i))) ≡ true
        → Probed (
            to_probe_result (
              track_available t
                (walk t (key.hash k) i)
                (match_empty t.ctrl (meta_ptr (walk t (key.hash k) i)))
                o))
    unfolding to_probe_result
    finish o a missing z =
        let g = walk t (key.hash k) i in
        let (si, f) = optimap.Tomb.Group.any_set-some (match_empty t.ctrl (meta_ptr g)) z in
        let (lt, e) = lowest_empty-some t g si f in
        let (q, r) = track-some o si f in
        go (track_available t g (match_empty t.ctrl (meta_ptr g)) o) q r (track-Available o a)
          (Passed-Absent tag t s k i si passed missing lt e)
      where
        go :
            (x : Option (ℕ × ℕ)) (q : ℕ × ℕ)
            → x ≡ some q
            → Available x
            → Absent t k
            → Probed (to_probe_result x)
        go none q r b gone = absurd (optimap.Prelude.none-ne-some r)
        go (some y) q r b gone = (gone, b)

  locate_loop-Probed :
      (i f j si : ℕ) (o : Option (ℕ × ℕ))
      → Passed tag t s k i
      → Available o
      → i ≤ j
      → j ≤ t.mask
      → j < i + f
      → si < group_size
      → tag_at t (walk t (key.hash k) j) si ≡ 0
      → Returns
          (locate_loop tag t
            (key.equal k)
            (reduced_hash tag (key.hash k))
            o
            f
            (walk t (key.hash k) i)
            i)
          Probed
  unfolding locate_loop match_byte_and_empty
  locate_loop-Probed i zero j si o passed a lo le hi q e = absurd (omega arith)
  locate_loop-Probed i (suc f) j si o passed a lo le hi q e =
      let h = key.hash k in
      let g = walk t h i in
      let reduced = reduced_hash tag h in
      let inside = walk-le t s.exponent s.groups s.small h i in
      let o' = track_available t g (match_empty t.ctrl (meta_ptr g)) o in
      elim (Option-cases (
        first_where (to_list (match_byte t.ctrl (meta_ptr g) reduced))
          (key_test tag t (key.equal k) g))) [
            | inr (sj, m) ↦
                let (x, y) = match-some tag t k reduced g sj m in
                (
                  ProbeResult.found g sj,
                  rw (locate_loop, match_byte_and_empty, m) refl,
                  ((inside, x), y),
                )
            | inl m ↦
                let missing = match-none tag t s k g inside m in
                elim (Bool-cases (any_set (match_empty t.ctrl (meta_ptr g)))) [
                  | inl z ↦ (
                    to_probe_result o',
                    rw (locate_loop, match_byte_and_empty, m, z) refl,
                    finish i (omega arith) passed o a missing z,
                  )
                  | inr z ↦
                      let full = not_any-Full t g z in
                      let (r, run, p) =
                        locate_loop-Probed (suc i) f j si o'
                          (Passed-step tag t s k i passed full missing)
                          (track-Available i (omega arith) passed o a)
                          (still_ahead t h i j si full q e lo) le (omega arith) q e in
                      (
                        r,
                        rw (locate_loop, match_byte_and_empty, m, z, walk_step t h i)
                            (ap (locate_loop tag t (key.equal k) reduced o' f (walk t h (suc i)))
                                (omega arith)
                              ∙ run),
                        p,
                      )
                ]
          ]

  -- While the table has an EMPTY slot, `find_or_locate` ends, and never in `NotFound`: it returns
  -- the slot of the key, or, when the table does not hold the key, a slot on the key's probe sequence
  -- that is free and has no EMPTY slot before its group.
  pub find_or_locate-Probed :
      HasEmpty t → Returns (find_or_locate tag t (key.hash k) (key.equal k)) Probed
  unfolding find_or_locate find_or_locate_overflow match_byte_and_empty visited
  find_or_locate-Probed (gi, si, (inside, q), e) =
      let h = key.hash k in
      let g = group_index t h in
      let reduced = reduced_hash tag h in
      let start : g ≤ t.mask = walk-le t s.exponent s.groups s.small h 0 in
      let none_yet = Passed-zero tag t s k in
      elim (Option-cases (
        first_where (to_list (match_byte t.ctrl (meta_ptr g) reduced))
          (key_test tag t (key.equal k) g))) [
            | inr (sj, m) ↦
                let (x, y) = match-some tag t k reduced g sj m in
                (
                  ProbeResult.found g sj,
                  rw (find_or_locate, match_byte_and_empty, m) refl,
                  ((start, x), y),
                )
            | inl m ↦
                let missing = match-none tag t s k g start m in
                elim (Option-cases (lowest_set_bit (match_empty t.ctrl (meta_ptr g)))) [
                  | inr (sj, f) ↦
                      let (lt, z) = lowest_empty-some t g sj f in
                      let gone = Passed-Absent tag t s k 0 sj none_yet missing lt z in
                      elim (Option-cases
                        (lowest_set_bit (match_byte t.ctrl (meta_ptr g) tombstone))) [
                          | inr (tj, b) ↦ (
                            ProbeResult.insert_slot g tj 0,
                            rw (find_or_locate, match_byte_and_empty, m, f, b) refl,
                            (
                              gone,
                              (tombstone-Free t h s.exponent s.groups s.small 0 tj (omega arith)
                                  (Full-before 0 (omega arith) none_yet) b).0,
                            ),
                          )
                          | inl b ↦ (
                            ProbeResult.insert_slot g sj 0,
                            rw (find_or_locate, match_byte_and_empty, m, f, b) refl,
                            (
                              gone,
                              empty-Free t h s.exponent s.groups s.small 0 sj (omega arith)
                                  (Full-before 0 (omega arith) none_yet) lt z,
                            ),
                          )
                        ]
                  | inl f ↦
                      let full = lowest_empty-none t g f in
                      let (j, le, at) = walk_onto t s.exponent s.groups s.small h gi inside in
                      let here = ap (λ g. tag_at t g si) at ∙ e in
                      let (r, run, p) =
                        locate_loop-Probed 1 t.mask j si (track_tombstone t g none)
                          (Passed-step tag t s k 0 none_yet full missing)
                          (Tracked-Available (track_tombstone t g none) (
                            track-Tracked t h s.exponent s.groups s.small 0 none (omega arith)
                              (Full-before 0 (omega arith) none_yet) tt))
                          (still_ahead t h 0 j si full q here (omega arith)) le (omega arith) q
                          here in
                      (
                        r,
                        rw (find_or_locate, match_byte_and_empty, m, f, find_or_locate_overflow)
                            run,
                        p,
                      )
                ]
          ]
