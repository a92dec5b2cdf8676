-- ===== src/Raw/Table/Ops/Cold.antt =====
-- `insert_overflow` and `insert_at_capacity` of src/raw/overflow_table.rs: search, then grow if need
-- be, then insert.
use optimap.Prelude.{
  ℕ, suc, ◌+◌, ◌*◌, ◌/◌, ◌^◌, ◌≤◌, ◌<◌, ◌==◌, ◌≡◌, ◌≢◌, ◌⊎◌, Bool, true, false, Option, none, some,
  refl, sym, ap, ◌∙◌, arith, inl, inr, subst,
}
use native.Mathlib.Nat.{pow-suc, mul-le-mul_right}
use mathlib.Core.Path.{subst₂}
use optimap.Raw.Key.{Key}
use optimap.Raw.Layout.{Layout, IsLayout}
use optimap.Raw.Run.{Run, done, spin, panic, Returns, ◌>>=◌}
use optimap.Raw.Table.{Table}
use optimap.Raw.Table.Find.{find_by_hash}
use optimap.Raw.Table.Find.Laws.{find_by_hash-hit, find_by_hash-Holds}
use optimap.Raw.Table.Find.Miss.{find_by_hash-miss}
use optimap.Raw.Table.Insert.{insert_no_check}
use optimap.Raw.Table.Insert.Laws.{Inserted, insert_no_check-Inserted}
use optimap.Raw.Table.Insert.Sound.{Inserted-IsSound, Holds-new, Holds-old, Holds-cases}
use optimap.Raw.Table.Inv.{bucket_at, InTable, Holds, Absent, IsSound, live_room}
use optimap.Raw.Table.Ops.{replace_value, replace_or_insert}
use optimap.Raw.Table.Ops.Replace.{replace-IsSound, replace-Stored, replace_value-eq}
use optimap.Raw.Table.Ops.Valid.{
  Stops, Reads, Stored, IsValid, find-none-Absent, len-lt-slots, load_double,
}
use optimap.Raw.Table.Rehash.{grow_and_rehash, rehash_with}
use optimap.Raw.Table.Rehash.Laws.{Rehashed, rehash_with-Rehashed}

-- The three ends of a call.
Run-cases {ℓ} : {A : Type ℓ} (r : Run A) → ((a : A) × (r ≡ done a)) ⊎ ((r ≡ spin) ⊎ (r ≡ panic))
Run-cases (done a) = inl (a, refl)
Run-cases spin = inr (inl refl)
Run-cases panic = inr (inr refl)

module _ {ℓ} {K V : Type ℓ} ⦃key : Key K⦄ (l : Layout) (ok : IsLayout l) where
  -- What an insertion of the pair `k`, `v` into `t` results in: the table stays valid and holds
  -- the pair besides its other pairs, and the result is the value that the key had.
  pub record Stores (t : Table K V) (k : K) (v : V) (r : Option V × Table K V) : Type ℓ where
    pub valid : IsValid l r.1
    pub stored : Stored l t r.1 k v
    pub returns : Reads l t k r.0

  -- A search that may end, ends at the key or finds that it is absent.
  pub find_cases :
      (t : Table K V) (k : K)
      → IsSound l t
      → Stops l t (key.hash k)
      → ((gi : ℕ) × (si : ℕ) × (v : V) × InTable l t gi si
          × (bucket_at l t gi si ≡ some (k, v))
          × (find_by_hash l t (key.hash k) (key.equal k) ≡ done (some (gi, si))))
        ⊎ (Absent l t k × (find_by_hash l t (key.hash k) (key.equal k) ≡ done none))
  find_cases t k s (g, p, off) = elim (Run-cases (find_by_hash l t (key.hash k) (key.equal k))) [
    | inl (none, e) ↦ inr (find-none-Absent l ok t k s e, e)
    | inl (some (gi, si), e) ↦
        let (v, inside, b) = find_by_hash-Holds l ok t s k gi si e in inl (gi, si, v, inside, b, e)
    | inr e ↦ absurd (ends e)
  ]
    where
      -- No other end: it would tell that the key is absent, and then the search ends.
      gone :
          ((a : Option (ℕ × ℕ)) → find_by_hash l t (key.hash k) (key.equal k) ≢ done a)
          → Absent l t k
      gone never gi si v q e = never (some (gi, si)) (find_by_hash-hit l ok t s k v gi si q e)

      ends :
          (find_by_hash l t (key.hash k) (key.equal k) ≡ spin)
            ⊎ (find_by_hash l t (key.hash k) (key.equal k) ≡ panic)
          → ⊥
      ends (inl e) = cc (e, find_by_hash-miss l ok t s k (gone (λ a q. cc (e, q))) g p off)
      ends (inr e) = cc (e, find_by_hash-miss l ok t s k (gone (λ a q. cc (e, q))) g p off)

  -- What an insertion of an absent key below the load limit has done.
  pub Inserted-Stores :
      (u r : Table K V) (k : K) (v : V) (gm sm : ℕ)
      → IsSound l u
      → u.len < u.max_load
      → u.max_load ≤ (u.mask + 1) * l.group_size * l.load_factor_num / l.load_factor_den
      → Absent l u k
      → Inserted l u r (key.hash k) k v gm sm
      → Stores u k v (none, r)
  Inserted-Stores u r k v gm sm s p lim gone ins = record {
    valid = record {
      sound = Inserted-IsSound l ok u r k v gm sm s ins gone;
      within = omega (arith, ins.len, ins.max_load);
      limit =
          let width =
            ap (λ m. (m + 1) * l.group_size * l.load_factor_num / l.load_factor_den) ins.mask in
          omega (arith, width, ins.max_load, lim);
    };
    stored = λ x w. (
      λ h. elim (Holds-cases l ok u r k v gm sm s ins x w h) [
        | inl same ↦ inl same
        | inr h' ↦
            inr
              (λ e. gone h'.group h'.slot w h'.inside (h'.pair ∙ ap (λ y. some (y, w)) (sym e)), h')
      ],
      λ c. elim c [
        | inl (a, b) ↦ subst₂ (λ y z. Holds l r y z) a b (Holds-new l ok u r k v gm sm s ins)
        | inr (ne, h) ↦ Holds-old l ok u r k v gm sm s ins x w h
      ],
    );
    returns = gone;
  }

  insert_no_check-Stores :
      (u : Table K V) (k : K) (v : V)
      → IsSound l u
      → u.len < u.max_load
      → u.max_load ≤ (u.mask + 1) * l.group_size * l.load_factor_num / l.load_factor_den
      → Absent l u k
      → Returns (insert_no_check l u (key.hash k) k v) (λ r. Stores u k v (none, r.0))
  insert_no_check-Stores u k v s p lim gone =
      let valid : IsValid l u = record { sound = s; within = omega arith; limit = lim } in
      let (g, z, inside, free) =
        live_room l ok u (omega (arith, s.counted, len-lt-slots l ok u valid)) in
      let (r, run, ins) =
        insert_no_check-Inserted l ok u s.exponent s.groups s.small (key.hash k) k v g z s.bytes
          inside (s.vacant g z inside free) in
      (r, run, Inserted-Stores u r.0 k v r.1.0 r.1.1 s p lim gone ins)

  -- The invariant and the pairs after the write of a value.
  pub replace-Stores :
      (t : Table K V) (gi si : ℕ) (k : K) (old v : V)
      → IsValid l t
      → InTable l t gi si
      → bucket_at l t gi si ≡ some (k, old)
      → Stores t k v (replace_value l t gi si v)
  replace-Stores t gi si k old v valid p e =
      rw (replace_value-eq l ok t valid.sound gi si p k old v e) (record {
        valid = record {
          sound = replace-IsSound l ok t valid.sound gi si p k old v e;
          within = valid.within;
          limit = valid.limit;
        };
        stored = replace-Stored l ok t valid.sound gi si p k old v e;
        returns = record { group = gi; slot = si; inside = p; pair = e };
      })

  -- What holds of the pairs of a rehashed table holds of the pairs of the table.
  keep-Absent : (t u : Table K V) (n : ℕ) (k : K) → Rehashed l t u n → Absent l t k → Absent l u k
  keep-Absent t u n k r gone gi si v p e =
      let h = (r.keeps k v).1 (record { group = gi; slot = si; inside = p; pair = e }) in
      gone h.group h.slot v h.inside h.pair

  keep-Stored :
      (t u w : Table K V) (n : ℕ) (k : K) (v : V)
      → Rehashed l t u n
      → Stored l u w k v
      → Stored l t w k v
  keep-Stored t u w n k v r st x y = (
    λ h. elim ((st x y).0 h) [ inl same ↦ inl same | inr (ne, h') ↦ inr (ne, (r.keeps x y).1 h') ],
    λ c. elim c [
      | inl same ↦ (st x y).1 (inl same)
      | inr (ne, h) ↦ (st x y).1 (inr (ne, (r.keeps x y).0 h))
    ],
  )

  pub grow_and_rehash-eq :
      (t : Table K V) → 0 < t.max_load → grow_and_rehash l t ≡ rehash_with l t ((t.mask + 1) * 2)
  unfolding grow_and_rehash
  grow_and_rehash-eq t p = let no : (t.max_load == 0) ≡ false = ground arith in rw no refl

  -- The three ends of the cold paths.
  module _ (t : Table K V) (k : K) (v : V) where
    cold_found :
        (grow : Bool) (gi si : ℕ)
        → find_by_hash l t (key.hash k) (key.equal k) ≡ done (some (gi, si))
        → replace_or_insert l t k v grow ≡ done (replace_value l t gi si v)
    unfolding replace_or_insert
    cold_found grow gi si e = rw (e, ◌>>=◌) refl

    cold_stay :
        (r : Table K V × (ℕ × ℕ))
        → find_by_hash l t (key.hash k) (key.equal k) ≡ done none
        → insert_no_check l t (key.hash k) k v ≡ done r
        → replace_or_insert l t k v false ≡ done (none, r.0)
    unfolding replace_or_insert
    cold_stay r e f = rw (e, ◌>>=◌, f) refl

    cold_grow :
        (u : Table K V) (r : Table K V × (ℕ × ℕ))
        → find_by_hash l t (key.hash k) (key.equal k) ≡ done none
        → grow_and_rehash l t ≡ done u
        → insert_no_check l u (key.hash k) k v ≡ done r
        → replace_or_insert l t k v true ≡ done (none, r.0)
    unfolding replace_or_insert
    cold_grow u r e g f = rw (e, ◌>>=◌, g, f) refl

  -- Doubling a valid table ends, in a table with room for one more pair.
  pub grow-Rehashed :
      (t : Table K V)
      → IsValid l t
      → 0 < t.max_load
      → (t.mask + 1) * 2 ≤ 2 ^ 62
      → Returns
          (grow_and_rehash l t)
          (λ r. Rehashed l t r ((t.mask + 1) * 2) × (r.len < r.max_load))
  grow-Rehashed t valid alive small =
      let s = valid.sound in
      let twice : 2 ^ suc s.exponent ≡ (t.mask + 1) * 2 =
        rw (pow-suc 2 s.exponent, s.groups) (omega arith) in
      let small' : 2 ^ suc s.exponent ≤ 2 ^ 62 = omega (arith, twice, small) in
      let fits : t.len ≤ 2 ^ suc s.exponent * l.group_size =
        rw twice (omega (arith, len-lt-slots l ok t valid, doubled (t.mask + 1) l.group_size)) in
      let (r, run, re) = rehash_with-Rehashed l ok t (suc s.exponent) s alive small' fits in
      let re' = subst (λ n. Rehashed l t r n) twice re in
      (r, grow_and_rehash-eq t alive ∙ (ap (rehash_with l t) (sym twice) ∙ run), (re', room r re'))
    where
      doubled : (a b : ℕ) → a * b ≤ a * 2 * b
      doubled a b = mul-le-mul_right b (omega arith)

      room : (r : Table K V) → Rehashed l t r ((t.mask + 1) * 2) → r.len < r.max_load
      room r re = omega (
        arith,
        re.len,
        re.max_load,
        valid.within,
        valid.limit,
        load_double (t.mask + 1) l.group_size l.load_factor_num l.load_factor_den (omega arith)
            (omega (arith, ok.num_lt_den)) ok.load_pos,
      )

  -- Both cold paths: they end with the pair stored.
  pub replace_or_insert-Stores :
      (t : Table K V) (k : K) (v : V) (grow : Bool)
      → IsValid l t
      → Stops l t (key.hash k)
      → 0 < t.max_load
      → (t.mask + 1) * 2 ≤ 2 ^ 62
      → (grow ≡ false → t.len < t.max_load)
      → Returns (replace_or_insert l t k v grow) (Stores t k v)
  replace_or_insert-Stores t k v grow valid stops alive small room =
      elim (find_cases t k valid.sound stops) [
        | inl (gi, si, old, p, b, e) ↦
            (_, cold_found t k v grow gi si e, replace-Stores t gi si k old v valid p b)
        | inr (gone, e) ↦ inserted gone e grow refl
      ]
    where
      inserted :
          Absent l t k
          → find_by_hash l t (key.hash k) (key.equal k) ≡ done none
          → (g : Bool) → grow ≡ g
          → Returns (replace_or_insert l t k v grow) (Stores t k v)
      inserted gone e false q =
          let (r, run, st) = insert_no_check-Stores t k v valid.sound (room q) valid.limit gone in
          ((none, r.0), ap (replace_or_insert l t k v) q ∙ cold_stay t k v r e run, st)
      inserted gone e true q =
          let (u, grown, (re, less)) = grow-Rehashed t valid alive small in
          let width =
            ap (λ m. m * l.group_size * l.load_factor_num / l.load_factor_den) re.groups in
          let (r, run, st) =
            insert_no_check-Stores u k v re.sound less (omega (arith, re.max_load, width))
              (keep-Absent t u _ k re gone) in
          (
            (none, r.0),
            ap (replace_or_insert l t k v) q ∙ cold_grow t k v u r e grown run,
            record {
              valid = st.valid;
              stored = keep-Stored t u r.0 _ k v re st.stored;
              returns = gone;
            },
          )
