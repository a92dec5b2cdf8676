-- ===== src/Raw/Table/Ops/Remove.antt =====
-- The table that `remove_by_hash` of src/raw/overflow_table.rs leaves.
use optimap.Prelude.{
  ℕ, ◌≤◌, ◌==◌, ◌≡◌, ◌≢◌, ◌&&◌, if◌then◌else◌, to_nat, true, false, Option, none, some, refl, sym,
  ap, ◌∙◌, arith, Bool-cases, inl, inr, none-ne-some, some_pair,
}
use mathlib.Core.Path.{ap₂}
use optimap.Raw.Group.{empty}
use optimap.Raw.Key.{Key}
use optimap.Raw.Layout.{Layout, IsLayout}
use optimap.Raw.Layout.Memory.{tag_at, has_at, tag_at-put_tag, has_at-put_tag, IsBytes-put_tag}
use optimap.Raw.Run.{done, Returns, ◌>>=◌}
use optimap.Raw.Table.{Table, group_index}
use optimap.Raw.Table.Find.{find_by_hash}
use optimap.Raw.Table.Inv.{
  bucket_at, is_live, InTable, Holds, Absent, IsSound, live_change, same_slot, set_bucket-at,
}
use optimap.Raw.Table.Ops.{vacate, erase_slot, remove_by_hash}
use optimap.Raw.Table.Ops.Cold.{find_cases}
use optimap.Raw.Table.Ops.Valid.{IsValid, Removed, Stops, len-zero-Absent}
use optimap.Raw.Table.Walk.{walk-le}
use optimap.Raw.Tag.{tag}

module _ {ℓ} {K V : Type ℓ} ⦃key : Key K⦄ (l : Layout) (ok : IsLayout l) (t : Table K V)
    (s : IsSound l t) (gi si : ℕ) (inside : InTable l t gi si) (k : K) (old : V)
    (e : bucket_at l t gi si ≡ some (k, old)) where
  -- The table without the pair.
  abbrev erased : Table K V
  erased = vacate l t (key.hash k) gi si

  now :
      (gj sj : ℕ)
      → InTable l t gj sj
      → bucket_at l erased gj sj ≡ (if gi == gj && si == sj then none else bucket_at l t gj sj)
  unfolding vacate
  now gj sj p = set_bucket-at l ok t.buckets none gi si gj sj inside.1 p.1

  now_tag :
      (gj sj : ℕ)
      → InTable l t gj sj
      → tag_at l erased.ctrl gj sj ≡ (if gi == gj && si == sj then 0 else tag_at l t.ctrl gj sj)
  unfolding vacate
  now_tag gj sj p = tag_at-put_tag l ok t.mask t.ctrl gi si empty gj sj inside.1 p.1

  now_bit :
      (gj h : ℕ) → gj ≤ t.mask → has_at l t.mask erased.ctrl gj h ≡ has_at l t.mask t.ctrl gj h
  unfolding vacate
  now_bit gj h p = has_at-put_tag l ok t.mask t.ctrl gi si empty gj h inside.0 p inside.1

  -- A pair that is left stood where it stands.
  kept :
      (gj sj : ℕ) (x : K) (w : V)
      → InTable l t gj sj
      → bucket_at l erased gj sj ≡ some (x, w)
      → ((gi == gj && si == sj) ≡ false) × (bucket_at l t gj sj ≡ some (x, w))
  kept gj sj x w p f = elim (Bool-cases (gi == gj && si == sj)) [
    | inl here ↦ absurd (none-ne-some (sym (rw here at (now gj sj p)) ∙ f))
    | inr there ↦ (there, sym (rw there at (now gj sj p)) ∙ f)
  ]

  still_vacant :
      (gj sj : ℕ)
      → InTable l t gj sj
      → bucket_at l erased gj sj ≡ none
      → tag_at l erased.ctrl gj sj ≡ 0
  still_vacant gj sj p f = elim (Bool-cases (gi == gj && si == sj)) [
    | inl here ↦ rw here at (now_tag gj sj p)
    | inr there ↦
        rw there at (now_tag gj sj p) ∙ s.vacant gj sj p (sym (rw there at (now gj sj p)) ∙ f)
  ]

  still_tagged :
      (gj sj : ℕ) (x : K) (w : V)
      → InTable l t gj sj
      → bucket_at l erased gj sj ≡ some (x, w)
      → tag_at l erased.ctrl gj sj ≡ tag l.feature l.tag_kind (key.hash x)
  still_tagged gj sj x w p f =
      let (there, f') = kept gj sj x w p f in
      rw there at (now_tag gj sj p) ∙ s.tagged gj sj x w p f'

  -- The overflow bits stay, so every pair that is left is still reached.
  pub erase-IsSound : IsSound l erased
  unfolding vacate group_index
  erase-IsSound = record {
    exponent = s.exponent;
    groups = s.groups;
    small = s.small;
    bytes = IsBytes-put_tag l ok t.mask t.ctrl gi si empty (omega arith) s.bytes;
    vacant = still_vacant;
    tagged = still_tagged;
    reached = λ gj sj x w p f.
        let r = s.reached gj sj x w p (kept gj sj x w p f).1 in
        record {
          steps = r.steps;
          inside = r.inside;
          arrives = r.arrives;
          marked = λ i q.
              now_bit _ (key.hash x) (walk-le l t s.exponent s.groups s.small (key.hash x) i)
              ∙ r.marked i q;
        };
    once = λ gj sj gm sm x w z p q f g.
        s.once gj sj gm sm x w z p q (kept gj sj x w p f).1 (kept gm sm x z q g).1;
    counted = omega (
      arith,
      s.counted,
      live_change l ok t erased none gi si inside now refl,
      ap (λ b. to_nat (is_live b)) e,
    );
  }

  pub erase-Removed : Removed l t erased k
  unfolding vacate
  erase-Removed x w = (
    λ h.
        let (there, f) = kept h.group h.slot x w h.inside h.pair in
        (
          λ same. other_slot h.group h.slot x w h.inside f there same,
          record { group = h.group; slot = h.slot; inside = h.inside; pair = f },
        ),
    λ c. record {
      group = c.1.group;
      slot = c.1.slot;
      inside = c.1.inside;
      pair = stays c.1.group c.1.slot x w c.1.inside c.1.pair c.0;
    },
  )
    where
      other_slot :
          (gj sj : ℕ) (x : K) (w : V)
          → InTable l t gj sj
          → bucket_at l t gj sj ≡ some (x, w)
          → (gi == gj && si == sj) ≡ false
          → k ≡ x
          → ⊥
      other_slot gj sj x w p f there same =
          let (a, b) =
            s.once gi si gj sj k old w inside p e (f ∙ ap (λ y. some (y, w)) (sym same)) in
          absurd (clash a b there)
        where
          clash : {a b c d : ℕ} → a ≡ b → c ≡ d → (a == b && c == d) ≡ false → ⊥
          clash p q r = ground arith

      stays :
          (gj sj : ℕ) (x : K) (w : V)
          → InTable l t gj sj
          → bucket_at l t gj sj ≡ some (x, w)
          → k ≢ x
          → bucket_at l erased gj sj ≡ some (x, w)
      stays gj sj x w p f ne = elim (Bool-cases (gi == gj && si == sj)) [
        | inr there ↦ now gj sj p ∙ rw there f
        | inl here ↦
            let (a, b) = same_slot gi gj si sj here in
            absurd (ne (some_pair (sym e ∙ (ap₂ (λ g z. bucket_at l t g z) a b ∙ f))).0)
      ]

  -- The count and the limit go down together, or the limit stays.
  pub erase-IsValid : IsValid l t → IsValid l erased
  unfolding vacate
  erase-IsValid valid = record {
    sound = erase-IsSound;
    within = ground (arith, valid.within);
    limit = ground (arith, valid.limit);
  }

module _ {ℓ} {K V : Type ℓ} ⦃key : Key K⦄ (l : Layout) (ok : IsLayout l) where
  -- What a removal returns: the pair that it took out, or none for an absent key.
  abbrev pub Takes : Table K V → K → Option (K × V) → Type ℓ
  Takes t k none = Absent l t k
  Takes t k (some (x, v)) = (x ≡ k) × Holds l t k v

  pub record Removes (t : Table K V) (k : K) (r : Option (K × V) × Table K V) : Type ℓ where
    pub valid : IsValid l r.1
    pub removed : Removed l t r.1 k
    pub returns : Takes t k r.0

  remove_found :
      (t : Table K V) (k : K) (gi si : ℕ)
      → (t.len == 0) ≡ false
      → find_by_hash l t (key.hash k) (key.equal k) ≡ done (some (gi, si))
      → remove_by_hash l t (key.hash k) (key.equal k)
        ≡ done (bucket_at l t gi si, vacate l t (key.hash k) gi si)
  unfolding remove_by_hash erase_slot
  remove_found t k gi si some_len e = rw (e, some_len, ◌>>=◌) refl

  -- A table that holds a pair counts one.
  counted_pair :
      (t : Table K V)
      → IsValid l t
      → (gi si : ℕ) (k : K) (v : V) → InTable l t gi si
      → bucket_at l t gi si ≡ some (k, v)
      → (t.len == 0) ≡ false
  counted_pair t valid gi si k v p b = elim (Bool-cases (t.len == 0)) [
    | inr e ↦ e
    | inl e ↦ absurd (len-zero-Absent l ok t valid.sound (is_zero t.len e) k gi si v p b)
  ]
    where
      is_zero : (n : ℕ) → (n == 0) ≡ true → n ≡ 0
      is_zero n e = ground arith

  remove_missed :
      (t : Table K V) (k : K)
      → find_by_hash l t (key.hash k) (key.equal k) ≡ done none
      → remove_by_hash l t (key.hash k) (key.equal k) ≡ done (none, t)
  unfolding remove_by_hash
  remove_missed t k e = rw (e, ◌>>=◌) refl

  -- On a valid table in which the search for the key comes to an end, `remove_by_hash` ends. It
  -- returns the key with its value if the table holds it, and none if it does not. The table that
  -- it leaves is valid again, with the load limit lowered or not, and holds exactly the pairs of
  -- the other keys.
  pub remove_by_hash-Removes :
      (t : Table K V) (k : K)
      → IsValid l t
      → Stops l t (key.hash k)
      → Returns (remove_by_hash l t (key.hash k) (key.equal k)) (Removes t k)
  remove_by_hash-Removes t k valid stops = elim (find_cases l ok t k valid.sound stops) [
    | inl (gi, si, v, p, b, e) ↦ (
      (some (k, v), vacate l t (key.hash k) gi si),
      remove_found t k gi si (counted_pair t valid gi si k v p b) e
          ∙ ap (λ o. done (o, vacate l t (key.hash k) gi si)) b,
      record {
        valid = erase-IsValid l ok t valid.sound gi si p k v b valid;
        removed = erase-Removed l ok t valid.sound gi si p k v b;
        returns = (refl, record { group = gi; slot = si; inside = p; pair = b });
      },
    )
    | inr (gone, e) ↦ (
      (none, t),
      remove_missed t k e,
      record {
        valid = valid;
        removed = λ x w. (
          λ h. (
            λ same. gone h.group h.slot w h.inside (h.pair ∙ ap (λ y. some (y, w)) (sym same)),
            h,
          ),
          λ c. c.1,
        );
        returns = gone;
      },
    )
  ]
