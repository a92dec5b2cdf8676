-- ===== src/Raw/Table/Insert/Laws.antt =====
-- What `insert_no_check_impl` of src/raw/overflow_table.rs changes in a table.
use optimap.Prelude.{
  ℕ, zero, suc, ◌+◌, ◌^◌, ◌≤◌, ◌<◌, ◌==◌, ◌≡◌, ◌≢◌, ◌&&◌, ◌||◌, if◌then◌else◌, Bool, true, none,
  some, refl, sym, ap, ◌∙◌, arith, Option-cases, inl, inr, false,
}
use native.Mathlib.Decide.{ℕ_discrete}
use optimap.Raw.Layout.{Layout, IsLayout}
use optimap.Raw.Group.{Bytes}
use optimap.Raw.Layout.Memory.{
  IsBytes, tag_at, has_at, put_overflow, tag_at-put_tag, tag_at-put_overflow, has_at-put_tag,
  has_at-put_overflow, IsBytes-put_tag, IsBytes-put_overflow, same_bit, shares,
}
use optimap.Raw.Overflow.{OverflowStrategy, byte_separate, bit_separate, embedded}
use optimap.Raw.Layout.Slots.{empty_some, empty_none}
use optimap.Raw.Run.{done, Returns}
use optimap.Raw.Table.{Table, fill_slot, mark_overflow}
use optimap.Raw.Table.Walk.{walk, walk_step, walk_start, walk-le, walk_onto}
use optimap.Raw.Table.Insert.{empty_in_group, insert_no_check_loop, insert_no_check}
use optimap.Raw.Table.Inv.{bucket_at, InTable, set_bucket-at}
use optimap.Raw.Tag.{tag}
use optimap.Raw.Tag.Bounds.{tag_bounds}

or_none : (a s : Bool) → a ≡ a || (false && s)
or_none a s = ground arith

or_twice : (a p q s : Bool) → (a || (p && s)) || (q && s) ≡ a || ((p || q) && s)
or_twice a p q s = ground arith

module _ {ℓ} {K V : Type ℓ} (l : Layout) where
  -- One of the first `i` groups of the probe sequence is the group `g`.
  pub passed : Table K V → ℕ → ℕ → ℕ → Bool
  passed t h zero g = false
  passed t h (suc i) g = passed t h i g || walk l t h i == g

  -- `r` is `t` with the pair of hash `h` put into a slot that was empty, and the overflow bit of
  -- the hash set on the groups that the probe sequence passes over on the way, and no other bit.
  pub record Inserted (t r : Table K V) (h : ℕ) (k : K) (v : V) (gi si : ℕ) : Type ℓ where
    pub inside : InTable l t gi si
    pub was_empty : tag_at l t.ctrl gi si ≡ 0
    pub mask : r.mask ≡ t.mask
    pub shift : r.shift ≡ t.shift
    pub max_load : r.max_load ≡ t.max_load
    pub len : r.len ≡ t.len + 1
    pub bytes : IsBytes r.ctrl
    pub buckets :
        (gj sj : ℕ)
        → InTable l t gj sj
        → bucket_at l r gj sj ≡ (if gi == gj && si == sj then some (k, v) else bucket_at l t gj sj)
    pub tags :
        (gj sj : ℕ)
        → InTable l t gj sj
        → tag_at l r.ctrl gj sj
          ≡ (if gi == gj && si == sj then tag l.feature l.tag_kind h else tag_at l t.ctrl gj sj)
    pub mono :
        (gj h' : ℕ)
        → gj ≤ t.mask
        → has_at l t.mask t.ctrl gj h' ≡ true
        → has_at l r.mask r.ctrl gj h' ≡ true
    pub steps : ℕ
    pub steps_inside : steps ≤ t.mask
    pub arrives : walk l t h steps ≡ gi
    pub bits :
        (gj h' : ℕ)
        → gj ≤ t.mask
        → has_at l r.mask r.ctrl gj h'
          ≡ has_at l t.mask t.ctrl gj h' || (passed t h steps gj && same_bit l h h')
    pub marked : (i : ℕ) → i < steps → has_at l r.mask r.ctrl (walk l t h i) h ≡ true

  -- The bytes after `i` rounds of the loop over full groups.
  pub record Marked (t : Table K V) (h i : ℕ) (c : Bytes) : Type 0 where
    pub bytes : IsBytes c
    pub tags : (gj sj : ℕ) → InTable l t gj sj → tag_at l c gj sj ≡ tag_at l t.ctrl gj sj
    pub mono :
        (gj h' : ℕ)
        → gj ≤ t.mask
        → has_at l t.mask t.ctrl gj h' ≡ true
        → has_at l t.mask c gj h' ≡ true
    pub bits :
        (gj h' : ℕ)
        → gj ≤ t.mask
        → has_at l t.mask c gj h'
          ≡ has_at l t.mask t.ctrl gj h' || (passed t h i gj && same_bit l h h')
    pub path : (j : ℕ) → j < i → has_at l t.mask c (walk l t h j) h ≡ true

  pub Marked-start : (t : Table K V) (h : ℕ) → IsBytes t.ctrl → Marked t h 0 t.ctrl
  unfolding passed
  Marked-start t h b = record {
    bytes = b;
    tags = λ gj sj p. refl;
    mono = λ gj h' p e. e;
    bits = λ gj h' p. or_none _ (same_bit l h h');
    path = λ j p. absurd (omega arith);
  }

shares_self : (o : OverflowStrategy) (c : ℕ) → shares o c c ≡ true
unfolding shares
shares_self byte_separate c = ground arith
shares_self bit_separate c = refl
shares_self embedded c = ground arith

pub same_bit_self : (l : Layout) (h : ℕ) → same_bit l h h ≡ true
unfolding same_bit
same_bit_self l h = shares_self l.overflow _

or_left : (a b : Bool) → a ≡ true → a || b ≡ true
or_left a b e = ground arith

module _ {ℓ} {K V : Type ℓ} (l : Layout) (ok : IsLayout l) (t : Table K V) (k : ℕ)
    (groups : t.mask + 1 ≡ 2 ^ k) (small : 2 ^ k ≤ 2 ^ 62) where
  -- Setting the bit of the group of round `i`.
  pub Marked-step :
      (h i : ℕ) (c : Bytes)
      → Marked l t h i c
      → Marked l t h (suc i) (put_overflow l t.mask c (walk l t h i) h)
  unfolding passed
  Marked-step h i c m =
      let g = walk l t h i in
      let p : g ≤ t.mask = walk-le l t k groups small h i in
      record {
        bytes = IsBytes-put_overflow l ok t.mask c g h m.bytes;
        tags = λ gj sj q. tag_at-put_overflow l ok t.mask c g gj sj h p q.0 q.1 ∙ m.tags gj sj q;
        mono = λ gj h' q e.
            has_at-put_overflow l ok t.mask c g gj h h' m.bytes ∙ or_left _ _ (m.mono gj h' q e);
        bits = λ gj h' q.
            has_at-put_overflow l ok t.mask c g gj h h' m.bytes
            ∙ (ap (λ b. b || (g == gj && same_bit l h h')) (m.bits gj h' q)
                ∙ or_twice _ (passed l t h i gj) (g == gj) (same_bit l h h'));
        path = λ j q.
            has_at-put_overflow l ok t.mask c g (walk l t h j) h h m.bytes ∙ path_step h i c m j q;
      }
    where
      path_step :
          (h i : ℕ) (c : Bytes)
          → Marked l t h i c
          → (j : ℕ) → j < suc i
          → has_at l t.mask c (walk l t h j) h || (walk l t h i == walk l t h j && same_bit l h h)
            ≡ true
      path_step h i c m j q = elim (ℕ_discrete i j) [
        | yes e ↦ rw (e, same_bit_self l h) (ground arith)
        | no ne ↦ or_left _ _ (m.path j (omega arith))
      ]

  module _ (h : ℕ) (key : K) (v : V) where
    -- The write at the end of the loop.
    pub Inserted-fill :
        (i : ℕ) (c : Bytes) (si : ℕ)
        → i ≤ t.mask
        → Marked l t h i c
        → si < l.group_size
        → tag_at l c (walk l t h i) si ≡ 0
        → Inserted l t
            (fill_slot l
              (record t { ctrl = c })
              (walk l t h i)
              si
              (tag l.feature l.tag_kind h)
              key
              v)
            h
            key
            v
            (walk l t h i)
            si
    unfolding fill_slot
    Inserted-fill i c si p m q e =
        let g = walk l t h i in
        let r = tag l.feature l.tag_kind h in
        let w : g ≤ t.mask = walk-le l t k groups small h i in
        record {
          inside = (w, q);
          was_empty = sym (m.tags g si (w, q)) ∙ e;
          mask = refl;
          shift = refl;
          max_load = refl;
          len = refl;
          bytes =
              IsBytes-put_tag l ok t.mask c g si r (tag_bounds l.feature l.tag_kind h).1 m.bytes;
          buckets = λ gj sj o. set_bucket-at l ok t.buckets (some (key, v)) g si gj sj q o.1;
          tags = λ gj sj o.
              tag_at-put_tag l ok t.mask c g si r gj sj q o.1
              ∙ ap (λ x. if g == gj && si == sj then r else x) (m.tags gj sj o);
          mono = λ gj h' o b. has_at-put_tag l ok t.mask c g si r gj h' w o q ∙ m.mono gj h' o b;
          bits = λ gj h' o. has_at-put_tag l ok t.mask c g si r gj h' w o q ∙ m.bits gj h' o;
          steps = i;
          steps_inside = p;
          arrives = refl;
          marked = λ j o.
              has_at-put_tag l ok t.mask c g si r (walk l t h j) h w
                (walk-le l t k groups small h j) q
              ∙ m.path j o;
        }

    empty_slot :
        (c : Bytes) (gi si : ℕ)
        → empty_in_group l (record t { ctrl = c }) gi ≡ some si
        → (si < l.group_size) × (tag_at l c gi si ≡ 0)
    unfolding empty_in_group
    empty_slot c gi si e = empty_some l ok c gi si e

    no_empty_slot :
        (c : Bytes) (gi : ℕ)
        → empty_in_group l (record t { ctrl = c }) gi ≡ none
        → (si : ℕ) → si < l.group_size
        → tag_at l c gi si ≢ 0
    unfolding empty_in_group
    no_empty_slot c gi e = empty_none l ok c gi e

    -- Round `i` at a group with an empty slot, and at a full group.
    module _ (f i : ℕ) (c : Bytes) where
      round_fill :
          (si : ℕ)
          → empty_in_group l (record t { ctrl = c }) (walk l t h i) ≡ some si
          → insert_no_check_loop l (record t { ctrl = c }) h key v (suc f) (walk l t h i) i
            ≡ done (
              fill_slot l
                  (record t { ctrl = c })
                  (walk l t h i)
                  si
                  (tag l.feature l.tag_kind h)
                  key
                  v,
              (walk l t h i, si),
            )
      unfolding insert_no_check_loop
      round_fill si e = rw (e, insert_no_check_loop)

      round_next :
          empty_in_group l (record t { ctrl = c }) (walk l t h i) ≡ none
          → insert_no_check_loop l (record t { ctrl = c }) h key v (suc f) (walk l t h i) i
            ≡ insert_no_check_loop l
                (record t { ctrl = put_overflow l t.mask c (walk l t h i) h })
                h
                key
                v
                f
                (walk l t h (suc i))
                (suc i)
      unfolding insert_no_check_loop mark_overflow
      round_next e =
          rw (e, walk_step l t h i, insert_no_check_loop)
            (ap
              (insert_no_check_loop l (record t { ctrl = put_overflow l t.mask c (walk l t h i) h })
                h key v f (walk l t h (suc i)))
              (omega arith))

    -- With an empty slot `d` rounds ahead the loop ends.
    insert_loop :
        (d i f : ℕ) (c : Bytes) (si : ℕ)
        → Marked l t h i c
        → i + d ≤ t.mask
        → si < l.group_size
        → tag_at l t.ctrl (walk l t h (i + d)) si ≡ 0
        → d < f
        → Returns
            (insert_no_check_loop l (record t { ctrl = c }) h key v f (walk l t h i) i)
            (λ r. Inserted l t r.0 h key v r.1.0 r.1.1)
    insert_loop d i zero c si m p q e lt = absurd (omega arith)
    insert_loop zero i (suc f) c si m p q e lt =
        elim (Option-cases (empty_in_group l (record t { ctrl = c }) (walk l t h i))) [
          | inr (sj, found) ↦
              let (x, y) = empty_slot c (walk l t h i) sj found in
              (_, round_fill f i c sj found, Inserted-fill i c sj (omega arith) m x y)
          | inl full ↦
              let here : i + 0 ≡ i = omega arith in
              let w = walk-le l t k groups small h i in
              absurd (
                no_empty_slot c (walk l t h i) full si q
                  (m.tags (walk l t h i) si (w, q) ∙ rw here at e))
        ]
    insert_loop (suc d) i (suc f) c si m p q e lt =
        elim (Option-cases (empty_in_group l (record t { ctrl = c }) (walk l t h i))) [
          | inr (sj, found) ↦
              let (x, y) = empty_slot c (walk l t h i) sj found in
              (_, round_fill f i c sj found, Inserted-fill i c sj (omega arith) m x y)
          | inl full ↦
              let ahead : i + suc d ≡ suc i + d = omega arith in
              let (r, run, inserted) =
                insert_loop d (suc i) f (put_overflow l t.mask c (walk l t h i) h) si
                  (Marked-step h i c m) (omega arith) q (rw ahead at e) (omega arith) in
              (r, round_next f i c full ∙ run, inserted)
        ]

    -- While a slot of the table is free, `insert_no_check` ends, and it has put the pair into a
    -- slot that was free, on the probe sequence of the hash. The overflow bits are those of before and
    -- the bit of the hash on the groups before the slot's group, and no others; the count is one more,
    -- and the other slots, the mask, the shift and the load limit have not changed.
    pub insert_no_check-Inserted :
        (gi si : ℕ)
        → IsBytes t.ctrl
        → InTable l t gi si
        → tag_at l t.ctrl gi si ≡ 0
        → Returns (insert_no_check l t h key v) (λ r. Inserted l t r.0 h key v r.1.0 r.1.1)
    unfolding insert_no_check
    insert_no_check-Inserted gi si b p e =
        let (j, q, at) = walk_onto l t k groups small h gi p.0 in
        rw (← walk_start l t h) (
          insert_loop j 0 (t.mask + 1) t.ctrl si (Marked-start l t h b) (omega arith) p.1
            (ap (λ g. tag_at l t.ctrl g si) (ap (walk l t h) (omega arith) ∙ at) ∙ e) (omega arith))
