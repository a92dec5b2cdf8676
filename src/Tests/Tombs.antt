-- ===== src/Tests/Tombs.antt =====
-- Concrete tombstone tables, and the theorems about src/in_place_overflow/raw/mod.rs and
-- src/generic_map.rs at them.
use optimap.Prelude.{ℕ, ◌≤◌, ◌≡◌, Option, some, List, [], ◌∷◌, refl, sym, ap, arith, subst}
use optimap.Tests.{number_key}
use optimap.Map.{or_insert, try_insert}
use optimap.Map.Entries.{Inserted, or_default, Tried, or_insert-Inserted, try_insert-Tried}
use optimap.Map.Tombstone.{tombstone_calls-spec_calls}
use optimap.Map.Trace.{
  calls, Call, call_get, call_insert, call_remove, call_or_insert, run_calls, spec_calls,
  run_calls-spec_calls,
}
use optimap.Raw.Api.{RawTableLaws, Assoc, put, most, nothing, Located, EntryLocated}
use optimap.Raw.Run.{Run, done, spin, panic, Returns}
use optimap.Raw.Tag.{TombstoneKind}
use optimap.Tomb.{Table, new}
use optimap.Tomb.Backend.{tombstone_api, find_for_entry-Located}
use optimap.Tomb.Drain.{drain, Drained, drain-Drained}
use optimap.Tomb.Find.{find_by_hash}
use optimap.Tomb.Inv.{InTable, cell}
use optimap.Tomb.Laws.{insert_or_replace-Stored, remove_by_hash-Models, Removed}
use optimap.Tomb.Locate.{find_or_locate, find_for_entry}
use optimap.Tomb.Ops.{insert_or_replace, remove_by_hash}
use optimap.Tomb.Probing.{Probed, find_or_locate-Probed}
use optimap.Tomb.Refines.{tombstone-RawTableLaws}
use optimap.Tomb.Regrow.{Grown, Refilled, rehash_with-Refilled, grow_or_rehash-Grown}
use optimap.Tomb.Rehash.{rehash_with, grow_or_rehash}
use optimap.Tomb.Store.{Stored, find_by_hash-Located, IsSound-HasEmpty}
use optimap.Tomb.View.{Models}

abbrev kind : TombstoneKind
kind = TombstoneKind.high_tomb

abbrev start : Table ℕ ℕ
start = new

abbrev pub no_pairs : Assoc ℕ ℕ
no_pairs = nothing

abbrev pub one_map : Assoc ℕ ℕ
one_map = put 5 (some 50) no_pairs

abbrev script : List (Call ℕ ℕ)
script = call_insert 5 50 ∷ call_remove 5 ∷ call_get 5 ∷ []

abbrev more : List (Call ℕ ℕ)
more = call_or_insert 6 60 ∷ call_get 5 ∷ []

abbrev table_of : Run (Option ℕ × Table ℕ ℕ) → Table ℕ ℕ
table_of (done (o, t)) = t
table_of spin = new
table_of panic = new

-- The table with the one pair 5, 50.
abbrev pub one_pair : Table ℕ ℕ
one_pair = table_of (insert_or_replace kind start 5 50)

laws : RawTableLaws {K = ℕ} {V = ℕ} (tombstone_api kind) InTable (Models kind)
laws = tombstone-RawTableLaws kind

new-Stored : Returns (insert_or_replace kind start 5 50) (Stored kind start no_pairs 5 50)
unfolding new
new-Stored = insert_or_replace-Stored kind start no_pairs 5 50 (laws.new_law).0 (omega arith)

pub one_pair-Models : Models kind one_pair one_map
one_pair-Models =
    let (r, run, (a, b, c)) = new-Stored in
    subst (λ t. Models kind t one_map) (sym (ap table_of run)) b

pub one_pair-len : one_pair.len ≤ 1
unfolding new
one_pair-len =
    let (r, run, (a, b, c)) = new-Stored in
    subst (λ (t : Table ℕ ℕ). t.len ≤ 1) (sym (ap table_of run)) c

one_pair-few : one_pair.len ≤ most
one_pair-few = omega (arith, one_pair-len)

script-calls : (calls script ≡ 3) × (calls more ≡ 2)
unfolding calls
script-calls = (refl, refl)

tombstone_calls-spec_calls_example :
    Returns
      (run_calls (tombstone_api kind) start script)
      (λ r. r.0 ≡ (spec_calls no_pairs script).0)
unfolding number_key
tombstone_calls-spec_calls_example =
    tombstone_calls-spec_calls kind script (omega (arith, script-calls.0))

run_calls-spec_calls_example :
    Returns
      (run_calls (tombstone_api kind) one_pair more)
      (λ r. (r.0 ≡ (spec_calls one_map more).0) × Models kind r.1 (spec_calls one_map more).1)
run_calls-spec_calls_example =
    run_calls-spec_calls (tombstone_api kind) InTable (Models kind) laws more one_pair one_map
      one_pair-Models (omega (arith, one_pair-len, script-calls.1))

tombstone-RawTableLaws_example :
    RawTableLaws {K = ℕ} {V = ℕ} (tombstone_api kind) InTable (Models kind)
tombstone-RawTableLaws_example = tombstone-RawTableLaws kind

insert_or_replace-Stored_example :
    Returns (insert_or_replace kind one_pair 5 51) (Stored kind one_pair one_map 5 51)
insert_or_replace-Stored_example =
    insert_or_replace-Stored kind one_pair one_map 5 51 one_pair-Models one_pair-few

remove_by_hash-Models_example :
    Returns
      (remove_by_hash kind one_pair (number_key.hash 5) (number_key.equal 5))
      (Removed kind one_pair one_map 5)
remove_by_hash-Models_example = remove_by_hash-Models kind one_pair one_map 5 one_pair-Models

find_by_hash-Located_example :
    Returns
      (find_by_hash kind one_pair (number_key.hash 5) (number_key.equal 5))
      (Located (InTable one_pair) (cell one_pair) one_map 5)
find_by_hash-Located_example = find_by_hash-Located kind one_pair one_map 5 one_pair-Models

grow_or_rehash-Grown_example :
    Returns (grow_or_rehash kind one_pair) (Grown kind one_pair one_pair-Models.sound)
grow_or_rehash-Grown_example = grow_or_rehash-Grown kind one_pair one_pair-Models.sound one_pair-few

rehash_with-Refilled_example :
    Returns (rehash_with kind one_pair 2) (λ r. Refilled kind one_pair one_pair-Models.sound r 2)
rehash_with-Refilled_example =
    rehash_with-Refilled kind one_pair one_pair-Models.sound 1 (omega arith)
      (omega (arith, one_pair-len))

find_or_locate-Probed_example :
    Returns
      (find_or_locate kind one_pair (number_key.hash 6) (number_key.equal 6))
      (Probed kind one_pair one_pair-Models.sound.placed 6)
find_or_locate-Probed_example =
    find_or_locate-Probed kind one_pair one_pair-Models.sound.placed 6
      (IsSound-HasEmpty kind one_pair one_pair-Models.sound)

find_for_entry-Located_example :
    Returns
      (find_for_entry kind one_pair (number_key.hash 6) (number_key.equal 6))
      (EntryLocated (tombstone_api kind) InTable (Models kind) one_pair one_map 6)
find_for_entry-Located_example =
    find_for_entry-Located kind one_pair one_map 6 one_pair-Models one_pair-few

try_insert-Tried_example : Returns (try_insert (tombstone_api kind) one_pair 5 51) (
    Tried
      (tombstone_api kind)
      InTable
      (Models kind)
      laws
      one_pair
      one_map
      5
      one_pair-Models
      one_pair-few
      51
      (one_map 5))
try_insert-Tried_example =
    try_insert-Tried (tombstone_api kind) InTable (Models kind) laws one_pair one_map 5
      one_pair-Models one_pair-few 51

or_insert-Inserted_example : Returns (or_insert (tombstone_api kind) one_pair 6 60) (
    Inserted
      (tombstone_api kind)
      InTable
      (Models kind)
      laws
      one_pair
      one_map
      6
      one_pair-Models
      one_pair-few
      (or_default (one_map 6) 60))
or_insert-Inserted_example =
    or_insert-Inserted (tombstone_api kind) InTable (Models kind) laws one_pair one_map 6
      one_pair-Models one_pair-few 60

drain-Drained_example : Returns (drain one_pair) (Drained kind one_pair one_map one_pair-Models)
drain-Drained_example = drain-Drained kind one_pair one_map one_pair-Models
