-- ===== src/Map/Entries.antt =====
-- The entry API of `GenericMap` (src/generic_map.rs) on the abstract map of its backend.
use optimap.Prelude.{
  ℕ, ◌+◌, ◌≤◌, ◌≡◌, Option, none, some, refl, sym, ap, arith, Bool-cases, inl, inr, subst,
}
use optimap.Map.{TryInsert, ok, err, entry, vacant_insert, entry_or_insert, or_insert, try_insert}
use optimap.Map.Laws.{put-id}
use optimap.Raw.Api.{
  RawTableApi, RawTableLaws, EntryProbe, entry_found, vacant, Assoc, put, most, EntryLocated,
}
use optimap.Raw.Key.{Key}
use optimap.Raw.Run.{done, Returns, ◌>>=◌}

-- The value of an entry after `or_insert`.
abbrev pub or_default {ℓ} : {V : Type ℓ} → Option V → V → V
or_default none default = default
or_default (some v) default = v

module _ {ℓ} {K V T : Type ℓ} ⦃key : Key K⦄ (api : RawTableApi K V T) (Slot : T → ℕ → ℕ → Type 0)
    (Models : T → Assoc K V → Type ℓ) (laws : RawTableLaws api Slot Models) (t : T) (m : Assoc K V)
    (k : K) (mo : Models t m) (few : api.len t ≤ most) where
  -- The table after the search for the entry, and what the search has found.
  abbrev Entered : EntryProbe × T → Type ℓ
  Entered r = Models r.1 m × (api.len r.1 ≡ api.len t) × EntryLocated api Slot Models r.1 m k r.0

  entry-Entered : Returns (entry api t k) Entered
  unfolding entry
  entry-Entered = elim (Bool-cases (api.is_allocated t)) [
    | inl e ↦
        let (r, run, p) = laws.entry_law t m k mo few in
        ((r, t), rw (entry, e, run, ◌>>=◌) refl, (mo, refl, p))
    | inr e ↦
        let (u, run, (mu, n)) = laws.first_reserve_law t m mo e in
        let (r, run', p) = laws.entry_law u m k mu (omega (arith, n, few)) in
        ((r, u), rw (entry, e, run, run', ◌>>=◌) refl, (mu, n, p))
  ]

  -- What `or_insert` and `try_insert` leave.
  abbrev pub Inserted : V → T × (ℕ × ℕ) → Type ℓ
  Inserted v r =
      Models r.0 (put k (some v) m)
      × (api.bucket r.0 r.1.0 r.1.1 ≡ some (k, v))
      × (api.len r.0 ≤ api.len t + 1)

  vacant-Inserted :
      (u : T) (slot : Option (ℕ × ℕ × ℕ)) (v : V)
      → api.len u ≡ api.len t
      → EntryLocated api Slot Models u m k (vacant slot)
      → Returns (vacant_insert api u k slot v) (Inserted v) × (m k ≡ none)
  unfolding vacant_insert
  vacant-Inserted u (some (gi, si, mask)) v n (gone, put_in) =
      let (r, run, (a, b, c)) = put_in v in
      (((r, (gi, si)), rw (run, ◌>>=◌) refl, (a, b, omega (arith, n, c))), gone)
  vacant-Inserted u none v n (gone, put_in) =
      let (r, run, (a, b, c)) = put_in v in ((r, run, (a, b, omega (arith, n, c))), gone)

  entry_or_insert-Inserted :
      (u : T) (probe : EntryProbe) (default : V)
      → Entered (probe, u)
      → Returns (entry_or_insert api u k probe default) (Inserted (or_default (m k) default))
  unfolding entry_or_insert
  entry_or_insert-Inserted u (entry_found gi si) default (mu, n, (inside, v, b, e)) =
      let same : or_default (m k) default ≡ v = ap (λ o. or_default o default) e in
      (
        (u, (gi, si)),
        refl,
        rw same (subst (Models u) (sym (put-id k (some v) m e)) mu, b, omega (arith, n)),
      )
  entry_or_insert-Inserted u (vacant slot) default (mu, n, p) =
      let ((r, run, q), gone) = vacant-Inserted u slot default n p in
      let same : or_default (m k) default ≡ default = ap (λ o. or_default o default) gone in
      (r, run, rw same q)

  -- Over a backend that keeps the laws of RawTableLaws, as the tombstone table does,
  -- `entry(key).or_insert(default)` ends without a panic: the map then has for the key the value that
  -- it had, or else the default, and the slot that is returned holds the pair of the key and this
  -- value. The table has at most 2 ^ 62 pairs.
  pub or_insert-Inserted :
      (default : V) → Returns (or_insert api t k default) (Inserted (or_default (m k) default))
  unfolding or_insert
  or_insert-Inserted default =
      let (r, run, p) = entry-Entered in
      let (r', run', q) = entry_or_insert-Inserted r.1 r.0 default p in
      (r', rw (or_insert, run, ◌>>=◌) run', q)

  -- What `try_insert` returns and leaves, by the key's value in the map.
  abbrev pub Tried : V → Option V → TryInsert K V × T → Type ℓ
  Tried v none r = (r.0 ≡ ok) × Models r.1 (put k (some v) m)
  Tried v (some old) r = (r.0 ≡ err k v) × Models r.1 m

  -- Over a backend that keeps the laws of RawTableLaws, as the tombstone table does, `try_insert`
  -- ends without a panic. If the map has a value for the key, it fails, gives the key
  -- and the value back and leaves the map as it was; otherwise it succeeds and puts the value in. The
  -- table has at most 2 ^ 62 pairs.
  pub try_insert-Tried : (v : V) → Returns (try_insert api t k v) (Tried v (m k))
  unfolding try_insert
  try_insert-Tried v = let (r, run, p) = entry-Entered in rw (try_insert, run, ◌>>=◌) (go r.0 r.1 p)
    where
      go :
          (probe : EntryProbe) (u : T)
          → Entered (probe, u)
          → Returns
              (elim probe [
                | entry_found gi si ↦ done (err k v, u)
                | vacant slot ↦ do (t'', pos) ← vacant_insert api u k slot v; done (ok, t'')
              ])
              (Tried v (m k))
      go (entry_found gi si) u (mu, n, (inside, old, b, e)) = ((err k v, u), refl, rw e (refl, mu))
      go (vacant slot) u (mu, n, p) =
          let ((r, run, (a, b, c)), gone) = vacant-Inserted u slot v n p in
          ((ok, r.0), rw (run, ◌>>=◌) refl, rw gone (refl, a))
