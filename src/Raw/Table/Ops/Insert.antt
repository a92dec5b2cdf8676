-- ===== src/Raw/Table/Ops/Insert.antt =====
-- The table that `insert_or_replace` of src/raw/overflow_table.rs leaves, on each of its paths.
use optimap.Prelude.{
  ℕ, suc, ◌+◌, ◌*◌, ◌^◌, ◌≤◌, ◌<◌, ◌==◌, ◌≡◌, leb, if◌then◌else◌, true, false, Option, none, some,
  refl, sym, ap, ◌∙◌, arith, Option-cases, Bool-cases, inl, inr, subst,
}
use optimap.Raw.Group.{match_byte, match_empty, match_byte_and_empty}
use optimap.Raw.Key.{Key}
use optimap.Raw.Layout.{Layout, IsLayout}
use optimap.Raw.Layout.Memory.{tag_at, has_at}
use optimap.Raw.Layout.Slots.{empty_some}
use optimap.Raw.Run.{done, Returns}
use optimap.Raw.Table.{Table, allocate, fill_slot, group_index}
use optimap.Raw.Table.Find.{match_in_group, find_by_hash, find_loop}
use optimap.Raw.Table.Find.Laws.{match-Holds, step_stop}
use optimap.Raw.Table.Fresh.{allocate-IsSound, allocate-Absent, allocate-has_at}
use optimap.Raw.Table.Insert.{empty_in_group}
use optimap.Raw.Table.Insert.Laws.{Inserted, Inserted-fill, Marked-start}
use optimap.Raw.Table.Inv.{Absent, IsSound}
use optimap.Raw.Table.Ops.{
  replace_value, insert_overflow, insert_at_capacity, insert_fast, insert_or_replace,
}
use optimap.Raw.Table.Ops.Cold.{Stores, replace-Stores, replace_or_insert-Stores, Inserted-Stores}
use optimap.Raw.Table.Ops.Valid.{Stops, Reads, IsValid, find-none-Absent, len-zero-Absent}
use optimap.Raw.Table.Walk.{group_index-lt, walk_start}
use optimap.Raw.Tag.{tag}

module _ {ℓ} {K V : Type ℓ} ⦃key : Key K⦄ (l : Layout) (t : Table K V) (k : K) (v : V) where
  home : ℕ
  home = group_index l t (key.hash k)

  -- The ends of the fast path.
  fast_found :
      (si : ℕ)
      → match_in_group l t
          (tag l.feature l.tag_kind (key.hash k))
          (key.equal k)
          (group_index l t (key.hash k))
        ≡ some si
      → insert_fast l t k v ≡ done (replace_value l t (group_index l t (key.hash k)) si v)
  unfolding insert_fast match_in_group match_byte_and_empty match_byte
  fast_found si e = rw (e, insert_fast) refl

  fast_filled :
      (si : ℕ)
      → match_in_group l t
          (tag l.feature l.tag_kind (key.hash k))
          (key.equal k)
          (group_index l t (key.hash k))
        ≡ none
      → empty_in_group l t (group_index l t (key.hash k)) ≡ some si
      → has_at l t.mask t.ctrl (group_index l t (key.hash k)) (key.hash k) ≡ false
      → insert_fast l t k v
        ≡ done (
          none,
          fill_slot l t
              (group_index l t (key.hash k))
              si
              (tag l.feature l.tag_kind (key.hash k))
              k
              v,
        )
  unfolding insert_fast match_in_group match_byte_and_empty match_byte empty_in_group match_empty
  fast_filled si e f g = rw (e, f, g, insert_fast) refl

  fast_full :
      match_in_group l t
          (tag l.feature l.tag_kind (key.hash k))
          (key.equal k)
          (group_index l t (key.hash k))
        ≡ none
      → empty_in_group l t (group_index l t (key.hash k)) ≡ none
      → insert_fast l t k v ≡ insert_overflow l t k v
  unfolding insert_fast match_in_group match_byte_and_empty match_byte empty_in_group match_empty
  fast_full e f = rw (e, f, insert_fast) refl

  fast_marked :
      (si : ℕ)
      → match_in_group l t
          (tag l.feature l.tag_kind (key.hash k))
          (key.equal k)
          (group_index l t (key.hash k))
        ≡ none
      → empty_in_group l t (group_index l t (key.hash k)) ≡ some si
      → has_at l t.mask t.ctrl (group_index l t (key.hash k)) (key.hash k) ≡ true
      → insert_fast l t k v ≡ insert_overflow l t k v
  unfolding insert_fast match_in_group match_byte_and_empty match_byte empty_in_group match_empty
  fast_marked si e f g = rw (e, f, g, insert_fast) refl

module _ {ℓ} {K V : Type ℓ} ⦃key : Key K⦄ (l : Layout) (ok : IsLayout l) where
  -- A key that its home group does not match is absent, when that group has no overflow bit.
  home-Absent :
      (t : Table K V) (k : K)
      → IsSound l t
      → match_in_group l t
          (tag l.feature l.tag_kind (key.hash k))
          (key.equal k)
          (group_index l t (key.hash k))
        ≡ none
      → has_at l t.mask t.ctrl (group_index l t (key.hash k)) (key.hash k) ≡ false
      → Absent l t k
  unfolding find_by_hash
  home-Absent t k s e b =
      let one : t.mask + 1 ≡ suc t.mask = omega arith in
      let start = sym (walk_start l t (key.hash k)) in
      find-none-Absent l ok t k s (
        ap (λ n. find_loop l t (key.hash k) (key.equal k) n (group_index l t (key.hash k)) 0) one
        ∙ (ap (λ g. find_loop l t (key.hash k) (key.equal k) (suc t.mask) g 0) start
            ∙ step_stop l ok t (key.hash k) (key.equal k) t.mask 0
                (ap (match_in_group l t (tag l.feature l.tag_kind (key.hash k)) (key.equal k))
                    (sym start)
                  ∙ e)
                (ap (λ g. has_at l t.mask t.ctrl g (key.hash k)) (sym start) ∙ b)))

  -- The write of the fast path is an insertion after no round.
  fill-Inserted :
      (t : Table K V) (k : K) (v : V) (si : ℕ)
      → IsSound l t
      → empty_in_group l t (group_index l t (key.hash k)) ≡ some si
      → Inserted l t
          (fill_slot l t
            (group_index l t (key.hash k))
            si
            (tag l.feature l.tag_kind (key.hash k))
            k
            v)
          (key.hash k)
          k
          v
          (group_index l t (key.hash k))
          si
  unfolding empty_in_group
  fill-Inserted t k v si s e =
      let (p, free) = empty_some l ok t.ctrl (group_index l t (key.hash k)) si e in
      let start = walk_start l t (key.hash k) in
      subst
        (λ g.
          Inserted l t (fill_slot l t g si (tag l.feature l.tag_kind (key.hash k)) k v) (key.hash k)
            k v g si)
        start
        (Inserted-fill l ok t s.exponent s.groups s.small (key.hash k) k v 0 t.ctrl si (omega arith)
          (Marked-start l t (key.hash k) s.bytes) p (ap (λ g. tag_at l t.ctrl g si) start ∙ free))

  -- Below the load limit.
  insert_fast-Stores :
      (t : Table K V) (k : K) (v : V)
      → IsValid l t
      → Stops l t (key.hash k)
      → t.len < t.max_load
      → (t.mask + 1) * 2 ≤ 2 ^ 62
      → Returns (insert_fast l t k v) (Stores l ok t k v)
  unfolding insert_overflow
  insert_fast-Stores t k v valid stops less small =
      let g = group_index l t (key.hash k) in
      elim (Option-cases
        (match_in_group l t (tag l.feature l.tag_kind (key.hash k)) (key.equal k) g)) [
          | inr (si, e) ↦
              let (old, p, b) = match-Holds l ok t k g si e in
              (
                _,
                fast_found l t k v si e,
                replace-Stores l ok t g si k old v valid (home_inside, p) b,
              )
          | inl e ↦ elim (Option-cases (empty_in_group l t g)) [
            | inl full ↦ let (r, run, st) = overflow in (r, fast_full l t k v e full ∙ run, st)
            | inr (si, found) ↦ elim (Bool-cases (has_at l t.mask t.ctrl g (key.hash k))) [
              | inl on ↦
                  let (r, run, st) = overflow in (r, fast_marked l t k v si e found on ∙ run, st)
              | inr off ↦ (
                _,
                fast_filled l t k v si e found off,
                Inserted-Stores l ok t _ k v g si valid.sound less valid.limit
                    (home-Absent t k valid.sound e off) (fill-Inserted t k v si valid.sound found),
              )
            ]
          ]
        ]
    where
      home_inside : group_index l t (key.hash k) ≤ t.mask
      home_inside = omega (
        arith,
        group_index-lt l t valid.sound.exponent valid.sound.groups valid.sound.small (key.hash k),
        valid.sound.groups,
      )

      overflow : Returns (insert_overflow l t k v) (Stores l ok t k v)
      overflow =
          replace_or_insert-Stores l ok t k v (leb t.max_load t.len) valid stops (omega arith) small
            (λ e. less)

  -- At any load of an allocated table.
  allocated-Stores :
      (t : Table K V) (k : K) (v : V)
      → IsValid l t
      → Stops l t (key.hash k)
      → 0 < t.max_load
      → (t.mask + 1) * 2 ≤ 2 ^ 62
      → Returns
          (if leb t.max_load t.len then insert_at_capacity l t k v else insert_fast l t k v)
          (Stores l ok t k v)
  unfolding insert_at_capacity
  allocated-Stores t k v valid stops alive small = elim (Bool-cases (leb t.max_load t.len)) [
    | inl full ↦ rw full (
        replace_or_insert-Stores l ok t k v true valid stops alive small
          (λ e. absurd (ground arith)))
    | inr less ↦ rw less (insert_fast-Stores t k v valid stops (ground arith) small)
  ]

  -- An insertion into the table that the first insertion allocates.
  first-Stores :
      (t : Table K V) (k : K) (v : V)
      → IsValid l t
      → t.max_load ≡ 0
      → (r : Option V × Table K V) → Stores l ok (allocate l t 1) k v r
      → Stores l ok t k v r
  first-Stores t k v valid e (o, r) st = record {
    valid = st.valid;
    stored = λ x w. (
      λ h. elim ((st.stored x w).0 h) [
        | inl same ↦ inl same
        | inr (ne, h') ↦ absurd (
            allocate-Absent l ok t 0 (omega arith) (omega arith) x h'.group h'.slot w h'.inside
              h'.pair)
      ],
      λ c. elim c [
        | inl same ↦ (st.stored x w).1 (inl same)
        | inr (ne, h) ↦ absurd (gone x h.group h.slot w h.inside h.pair)
      ],
    );
    returns = reads o st.returns;
  }
    where
      gone : (x : K) → Absent l t x
      gone = len-zero-Absent l ok t valid.sound (omega (arith, valid.within))

      reads : (o : Option V) → Reads l (allocate l t 1) k o → Reads l t k o
      reads none h = gone k
      reads (some w) h =
          absurd (
            allocate-Absent l ok t 0 (omega arith) (omega arith) k h.group h.slot w h.inside h.pair)

  allocate-IsValid : (t : Table K V) → t.len ≡ 0 → IsValid l (allocate l t 1)
  unfolding allocate
  allocate-IsValid t e = record {
    sound = allocate-IsSound l ok t 0 (omega arith) (omega arith) e;
    within = omega arith;
    limit = omega arith;
  }

  allocate-load : (t : Table K V) → 0 < (allocate l t 1).max_load
  unfolding allocate
  allocate-load t =
      let one : 1 * l.group_size ≡ l.group_size = omega arith in rw one (omega (arith, ok.load_pos))

  allocate-mask : (t : Table K V) → (allocate l t 1).mask ≡ 0
  unfolding allocate
  allocate-mask t = refl

  -- On a valid table in which the search for the key comes to an end, `insert_or_replace` ends. The
  -- table that it leaves is valid again and within its load limit, whether a value was replaced, a
  -- slot filled or the table allocated or doubled. It holds the new pair, and of the other keys
  -- exactly what it held before. The result is the key's old value, or none if it had none. The
  -- condition on the number of groups keeps the doubled table within 2 ^ 62 groups.
  pub insert_or_replace-Stores :
      (t : Table K V) (k : K) (v : V)
      → IsValid l t
      → Stops l t (key.hash k)
      → (t.mask + 1) * 2 ≤ 2 ^ 62
      → Returns (insert_or_replace l t k v) (Stores l ok t k v)
  unfolding insert_or_replace
  insert_or_replace-Stores t k v valid stops small = elim (Bool-cases (t.max_load == 0)) [
    | inr some_load ↦ rw some_load (allocated-Stores t k v valid stops (ground arith) small)
    | inl no_load ↦
        let zero_load : t.max_load ≡ 0 = ground arith in
        let one : (allocate l t 1).mask ≡ 0 = allocate-mask t in
        let free =
          allocate-has_at l ok t 0 (omega arith) (omega arith) 0 (key.hash k) (omega arith) in
        let (r, run, st) =
          allocated-Stores (allocate l t 1) k v (allocate-IsValid t (omega (arith, valid.within)))
            (0, omega arith, free) (allocate-load t) (rw one (omega arith)) in
        (r, rw no_load run, first-Stores t k v valid zero_load r st)
  ]
