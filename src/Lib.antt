-- ===== src/Lib.antt =====
-- Verification of optimap's hash tables, of the map that wraps them and of the policy that picks a
-- backend.
--
-- The program. optimap is a family of hash maps behind one interface. Its core is `RawTable`
-- (src/raw/overflow_table.rs): groups of slots with one metadata byte each, probed in triangular
-- order, where an overflow bit of a group says that an insertion has passed over it. The table is
-- generic over a layout (src/raw/group_layout.rs), which fixes the width of a group, the strategy
-- for hash tags (src/raw/tag_strategy.rs), the storage of the overflow bits
-- (src/raw/overflow_strategy.rs) and the load factor. It reads its metadata by vector compares
-- (src/raw/generic_group.rs, group32.rs, group64.rs) whose masks it iterates (src/raw/bitmask.rs).
-- A second table (src/in_place_overflow/raw/mod.rs) has no overflow bits: a removal leaves a
-- tombstone, a search ends at a group with an EMPTY slot, and `growth_left` keeps some slots EMPTY.
-- Both implement `RawTableApi` (src/raw/table_api.rs), over which `GenericMap` (src/generic_map.rs)
-- is written. `OptiMap` (src/optimap.rs) holds one of several maps, picks it by a `Policy`, and moves
-- the pairs to another one when the map grows into the band of another.
--
-- The files.
--   Prelude            names of the libraries passed on, Boolean tests, bits, sums
--   Raw/Tag            `hash_tag` of src/lib.rs and the tag strategies
--   Raw/Bitmask        `BitMask`: `next`, `lowest_set_bit`, and their iteration
--   Raw/Group          `match_byte`, `match_empty`, `match_non_empty`, `set_meta` on a byte memory
--   Raw/Overflow       `ByteSeparate`, `BitSeparate` and `EmbeddedOverflow`
--   Raw/Layout         `GroupLayout`; Named has the layouts of the file, Memory the tags and
--                      overflow bits of a table in one byte memory, Slots the masks of a group
--   Raw/Probe          the probe sequence of every loop
--   Raw/Key            what the table asks of its keys: a lawful equality and a hash
--   Raw/Run            how a call ends: in a result, not in its rounds, or in a panic
--   Raw/Table          `RawTable`: the record, `new`, `allocate`, `group_index`
--   Raw/Table/Find     `find_by_hash_impl`
--   Raw/Table/Insert   `insert_no_check_impl`, `insert_at_impl`
--   Raw/Table/Rehash   `rehash_with_impl`, `grow_and_rehash`
--   Raw/Table/Entry    `find_or_locate_impl`, `find_or_locate_overflow`, `find_for_entry`
--   Raw/Table/Clone    `clone_table`
--   Raw/Table/Iter     `IntoIter`, `into_iter_impl`, `drain_impl`
--   Raw/Table/Ops      the other operations of `RawTableApi`, by their names in the source
--   Raw/Table/Inv      the invariant; Walk is the probe sequence of a hash in a table, Fresh a new
--                      allocation, Ops/Valid the invariant with the load limit
--   Raw/Api            `RawTableApi` as a record of operations, and the laws that a map asks of it
--   Raw/Pairs          pairs put into an abstract map one after the other
--   Raw/Transfer       the loops that move the pairs of a table to a new one
--   Tomb               `RawTable` of the tombstone table: the record, `new`, `allocate`
--   Tomb/Group         its group masks (src/in_place_overflow/raw/group.rs)
--   Tomb/Find          `find_by_hash`
--   Tomb/Insert        `insert_no_check`, `insert_after_resize`, `insert_at`
--   Tomb/Locate        `find_or_locate`, `find_or_locate_overflow`, `find_for_entry`
--   Tomb/Rehash        `rehash_with`, `grow_or_rehash`
--   Tomb/Ops           the other operations of `RawTableApi`, by their names in the source
--   Tomb/Inv           its invariant; Write, Fill and Change are about one slot write, Search, Place,
--                      Resize and Probing about the probe loops, Fresh, Moved and Regrow about
--                      allocation and growth, View, Erase, Store and Laws about the abstract map
--   Tomb/Reserve       `with_capacity` and `reserve`; Drain is its consuming iterator, collected
--   Tomb/Backend       the table as a `RawTableApi`; Refines has the laws
--   Map                `GenericMap`: Laws, Entries and Trace are about its operations, the entry API
--                      and sequences of calls, Tombstone about the map over the tombstone table
--   Policy             `MapType`, `Hint` and `Policy`
--   Opti               `OptiMap`: the enum of maps and the moves between them. Laws is what it asks
--                      of a map; Transition, Insert and Reserve are about its operations,
--                      Tombstone about OptiMap over the two tombstone maps
--   Tests              small tables, and each theorem at a concrete input
--
-- How the code is modelled. A table is a record that an operation takes and returns. `ctrl` is the
-- memory of the metadata and the overflow bytes, as a function from addresses to bytes, so that the
-- layout's address arithmetic is written out; `buckets` gives the pair of each bucket index, or
-- none where the storage holds no live pair. A new allocation has arbitrary bytes (0xa5) until the
-- code zeroes them. Machine words are numbers; `wrapping_add`, `wrapping_sub`, `wrapping_shr` and
-- the narrowing casts are written out, and the saturating subtractions are those of the numbers.
-- The products of `groups_for_capacity` wrap around at a word, as in a release build; those that
-- give the size and the load limit of an allocation are not cut to a word, which they fit in every
-- table that can be allocated. Groups are at most 2 ^ 62, where the triangular steps do not wrap around.
--
-- Loops. The probe loops of the source have no bound. Each takes a number of rounds, of which it is
-- given one for each group, and ends in `spin` when they are used up. The iterators take 64 rounds,
-- one for each bit of the widest mask, and `next_power_of_two` 64.
--
-- Hypotheses on the table. IsSound says that the number of groups is a power of two, that tags and
-- buckets agree, that a pair is reached from the home group of its hash over groups with the
-- overflow bit, that no key stands twice, and that the count is right. IsValid adds that the count
-- is within the load limit. Stops says that some group lacks the overflow bit of a hash: removals
-- leave overflow bits behind, and the code does not exclude that every group has the bit.
--
-- The abstract map. A table models a function from keys to optional values when it is sound and
-- holds exactly its pairs. The theorems on the tombstone table and on GenericMap say what an
-- operation does to that function. They ask for at most 2 ^ 62 pairs, so that a doubled table has at
-- most 2 ^ 62 groups; IsSound of the tombstone table says that `growth_left` and the slots that are
-- not EMPTY are together within the load limit, which is why every probe loop of it comes to an
-- EMPTY slot within its rounds. A subtraction from `len` or `growth_left` below 0 is a panic.
-- The maps of an OptiMap are parameters with the laws of MapLaws, which the two tombstone maps among
-- its variants, `Ipo` and `Tomb`, have; the theorems on OptiMap are about policies of these two. The
-- overflow-bit maps cannot have them, since their searches may never end. The other variants are
-- parameters without any law. Room is reserved for at most 2 ^ 60 pairs, where the products of
-- `groups_for_capacity` do not overflow.
--
-- Not modelled: raw allocation, alignment, prefetching and Drop; the key-value storages; the
-- borrowing iterator and the clone of the tombstone table, and its variant that counts probe
-- positions in bytes; the eight-slot tables (src/ipo64); the iterators, retain and the comparison of
-- GenericMap, and the sets; FlatBTree; perfect hashing; the entry API, the iterators and the ordered
-- operations of OptiMap.
pub mod Prelude
pub mod Raw
pub mod Tomb
pub mod Map
pub mod Policy
pub mod Opti
pub mod Tests
