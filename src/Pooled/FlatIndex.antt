-- ===== src/Pooled/FlatIndex.antt =====
-- book/pooled_order_book.hpp and pooled_order_book.cpp: `PooledOrderBook::FlatOrderIndex`, an
-- open-addressing map from order ids to node indices with linear probing and tombstones. The number of
-- entries is a power of two, so `& (entries_.size() - 1)` is the remainder by their number.
pub mod Path
pub mod Slots
pub mod Rehash
pub mod Map
pub mod Insert
pub mod Erase
pub mod Run
pub mod Load
use asterion.Prelude.{
  ℕ, zero, suc, ◌+◌, ◌-◌, ◌*◌, ◌%◌, ◌==◌, ltb, Bool, true, false, not, ◌&&◌, ◌||◌, Option, none,
  some, List, [], ◌∷◌, if◌then◌else◌, is_empty, length, replicate, get_or, set, max, map,
}
use asterion.Gateway.ClientOrderIds.{mix}

pub data SlotState : Type 0 where
  empty occupied deleted : SlotState

pub record Entry : Type 0 where
  pub order_id : ℕ
  pub node_index : ℕ
  pub state : SlotState

pub record FlatOrderIndex : Type 0 where
  pub entries : List Entry
  pub size : ℕ

-- `kNoIndex` is the largest 64-bit number, which no vector's index reaches.
abbrev pub no_index : ℕ
no_index = 18446744073709551615

abbrev pub empty_entry : Entry
empty_entry = record { order_id = 0; node_index = no_index; state = empty }

abbrev pub deleted_entry : Entry
deleted_entry = record { order_id = 0; node_index = no_index; state = deleted }

abbrev pub entry : ℕ → ℕ → Entry
entry order_id node_index = record {
  order_id = order_id;
  node_index = node_index;
  state = occupied;
}

abbrev pub new_index : FlatOrderIndex
new_index = record { entries = []; size = 0 }

abbrev pub is_empty_slot : SlotState → Bool
is_empty_slot empty = true
is_empty_slot _ = false

abbrev pub is_occupied : SlotState → Bool
is_occupied occupied = true
is_occupied _ = false

abbrev pub slot_at : List Entry → ℕ → Entry
slot_at entries index = get_or entries index empty_entry

abbrev pub holds : ℕ → Entry → Bool
holds order_id e = is_occupied e.state && (e.order_id == order_id)

unfoldable pub clear : FlatOrderIndex → FlatOrderIndex
clear x = record { entries = map (λ (e : Entry). empty_entry) x.entries; size = 0 }

unfoldable pub double_capacity : ℕ → ℕ → ℕ → ℕ
double_capacity zero target capacity = capacity
double_capacity (suc fuel) target capacity =
    let more = double_capacity fuel target (capacity * 2) in
    if ltb capacity target then more else capacity

unfoldable pub next_capacity : ℕ → ℕ
unfolding double_capacity
next_capacity expected_size =
    let target = max 8 (expected_size * 4) in double_capacity target target 8

unfoldable pub bucket : ℕ → List Entry → ℕ
unfolding mix
bucket order_id entries = mix order_id % length entries

-- The loop of `find` and of `erase`: the slot of the id, if it is met before an empty slot.
unfoldable pub locate : ℕ → List Entry → ℕ → ℕ → Option ℕ
locate order_id entries zero index = none
locate order_id entries (suc probes) index =
    let e = slot_at entries index in
    let further = locate order_id entries probes ((index + 1) % length entries) in
    if is_empty_slot e.state then none else if holds order_id e then some index else further

abbrev pub slot_of : ℕ → List Entry → Option ℕ
slot_of order_id entries = locate order_id entries (length entries) (bucket order_id entries)

unfoldable pub find : ℕ → FlatOrderIndex → Option ℕ
unfolding locate
find order_id x =
    if is_empty x.entries || (order_id == 0) then none else elim (slot_of order_id x.entries) [
      | none ↦ none
      | some index ↦ some (slot_at x.entries index).node_index
    ]

unfoldable pub erase : ℕ → FlatOrderIndex → FlatOrderIndex × Bool
unfolding locate
erase order_id x =
    if is_empty x.entries || (order_id == 0)
    then (x, false)
    else elim (slot_of order_id x.entries) [
      | none ↦ (x, false)
      | some index ↦
          (record { entries = set x.entries index deleted_entry; size = x.size - 1 }, true)
    ]

-- What the loop of `insert` finds: the id is there, the slot to write, or neither an empty nor a
-- deleted slot.
pub data Room : Type 0 where
  taken full : Room
  free : ℕ → Room

abbrev pub or_index : Option ℕ → ℕ → Option ℕ
or_index none index = some index
or_index (some first) index = some first

abbrev pub target : Option ℕ → ℕ → ℕ
target none index = index
target (some first) index = first

abbrev pub room_of : Option ℕ → Room
room_of none = full
room_of (some first) = free first

unfoldable pub find_room : ℕ → List Entry → Option ℕ → ℕ → ℕ → Room
find_room order_id entries first_deleted zero index = room_of first_deleted
find_room order_id entries first_deleted (suc probes) index = elim (slot_at entries index).state [
  | occupied ↦
      if (slot_at entries index).order_id == order_id
      then taken
      else find_room order_id entries first_deleted probes ((index + 1) % length entries)
  | deleted ↦
      find_room order_id entries (or_index first_deleted index) probes
        ((index + 1) % length entries)
  | empty ↦ free (target first_deleted index)
]

-- The loop of `insert_rehashed`, one turn for each entry.
unfoldable pub first_free : List Entry → ℕ → ℕ → Option ℕ
first_free entries zero index = none
first_free entries (suc probes) index =
    let further = first_free entries probes ((index + 1) % length entries) in
    if is_occupied (slot_at entries index).state then further else some index

unfoldable pub insert_rehashed : ℕ → ℕ → FlatOrderIndex → FlatOrderIndex
unfolding first_free
insert_rehashed order_id node_index x =
    elim (first_free x.entries (length x.entries) (bucket order_id x.entries)) [
      | none ↦ x
      | some index ↦ record {
        entries = set x.entries index (entry order_id node_index);
        size = suc x.size;
      }
    ]

unfoldable pub rehash_entries : List Entry → FlatOrderIndex → FlatOrderIndex
unfolding insert_rehashed
rehash_entries [] x = x
rehash_entries (e ∷ es) x =
    rehash_entries es (if is_occupied e.state then insert_rehashed e.order_id e.node_index x else x)

unfoldable pub rehash : ℕ → FlatOrderIndex → FlatOrderIndex
unfolding rehash_entries
rehash capacity x =
    rehash_entries x.entries (record { entries = replicate capacity empty_entry; size = 0 })

unfoldable pub reserve : ℕ → FlatOrderIndex → FlatOrderIndex
reserve expected_size x =
    let required_capacity = next_capacity expected_size in
    if ltb (length x.entries) required_capacity then rehash required_capacity x else x

-- Doubles the load's room where the index would be more than half full.
unfoldable pub with_room : FlatOrderIndex → FlatOrderIndex
with_room x =
    if is_empty x.entries || ltb (length x.entries) ((x.size + 1) * 2)
    then rehash (next_capacity (x.size + 1)) x
    else x

abbrev pub write_entry : ℕ → ℕ → ℕ → FlatOrderIndex → FlatOrderIndex
write_entry index order_id node_index x = record {
  entries = set x.entries index (entry order_id node_index);
  size = suc x.size;
}

-- `insert`; `retries` bounds the recursive call after a rehash of a full table.
unfoldable pub insert_with : ℕ → ℕ → ℕ → FlatOrderIndex → FlatOrderIndex × Bool
insert_with zero order_id node_index x = (x, false)
insert_with (suc retries) order_id node_index x =
    let roomy = with_room x in
    if order_id == 0
    then (x, false)
    else elim (find_room order_id roomy.entries none (length roomy.entries)
        (bucket order_id roomy.entries)) [
          | taken ↦ (roomy, false)
          | free index ↦ (write_entry index order_id node_index roomy, true)
          | full ↦ insert_with retries order_id node_index (rehash (length roomy.entries * 2) roomy)
        ]

unfoldable pub insert : ℕ → ℕ → FlatOrderIndex → FlatOrderIndex × Bool
unfolding insert_with
insert = insert_with 2
