-- ===== src/Gateway/ClientOrderIds.antt =====
-- risk/risk_gateway.hpp and risk_gateway.cpp: `RiskGateway::ClientOrderIdSet`, an open-addressing set
-- of ids with linear probing. An empty bucket holds 0; the id 0 itself has a flag. The number of
-- buckets is a power of two, so `& (buckets_.size() - 1)` is the remainder by their number.
-- A loop over the buckets runs on fuel, one turn for each bucket: Probe shows that this is enough.
pub mod Probe
pub mod Buckets
pub mod Reinsert
pub mod Members
use Prim.Native.Nat.{bit_xor}
use asterion.Prelude.{
  ℕ, zero, suc, ◌+◌, ◌*◌, ◌/◌, ◌%◌, ◌^◌, ◌==◌, ltb, leb, Bool, true, false, not, ◌||◌, Option, none,
  some, List, [], ◌∷◌, if◌then◌else◌, is_empty, length, replicate, get_or, set,
}

pub record ClientOrderIdSet : Type 0 where
  pub buckets : List ℕ
  pub size : ℕ
  pub contains_zero : Bool

abbrev pub empty_ids : ClientOrderIdSet
empty_ids = record { buckets = []; size = 0; contains_zero = false }

-- The loop of `bucket_count_for`: doubles until the target is reached.
unfoldable pub double_until : ℕ → ℕ → ℕ → ℕ
double_until zero target bucket_count = bucket_count
double_until (suc fuel) target bucket_count =
    let more = double_until fuel target (bucket_count * 2) in
    if ltb bucket_count target then more else bucket_count

unfoldable pub bucket_count_for : ℕ → ℕ
unfolding double_until
bucket_count_for expected_size =
    let target = if ltb expected_size 8 then 16 else expected_size * 2 in
    double_until target target 16

-- The 64-bit mix of the id.
unfoldable pub mix : ℕ → ℕ
mix id =
    let v1 = bit_xor id (id / 2 ^ 33) in
    let v2 = v1 * 0xff51afd7ed558ccd % 2 ^ 64 in
    let v3 = bit_xor v2 (v2 / 2 ^ 33) in
    let v4 = v3 * 0xc4ceb9fe1a85ec53 % 2 ^ 64 in bit_xor v4 (v4 / 2 ^ 33)

unfoldable pub bucket_index : ℕ → List ℕ → ℕ
unfolding mix
bucket_index id buckets = mix id % length buckets

-- `while (!stop(buckets_[index])) index = (index + 1) & (buckets_.size() - 1)`.
unfoldable pub probe : (ℕ → Bool) → List ℕ → ℕ → ℕ → Option ℕ
probe stop buckets zero index = none
probe stop buckets (suc fuel) index =
    let further = probe stop buckets fuel ((index + 1) % length buckets) in
    if stop (get_or buckets index 0) then some index else further

-- Where the loops of `contains` and `insert` end: at the id or at an empty bucket.
abbrev pub at_id : ℕ → ℕ → Bool
at_id id stored = (stored == id) || (stored == 0)

-- Where the loop of `rehash` ends.
abbrev pub at_empty : ℕ → Bool
at_empty stored = stored == 0

abbrev pub search_id : (ℕ → Bool) → ℕ → List ℕ → Option ℕ
search_id stop id buckets = probe stop buckets (length buckets) (bucket_index id buckets)

unfoldable pub contains : ℕ → ClientOrderIdSet → Bool
contains id s =
    if id == 0
    then s.contains_zero
    else if is_empty s.buckets
    then false
    else elim (search_id (at_id id) id s.buckets) [
      | none ↦ false
      | some index ↦ get_or s.buckets index 0 == id
    ]

-- One turn of the loop of `rehash` over the previous buckets.
unfoldable pub reinsert : ℕ → ClientOrderIdSet → ClientOrderIdSet
reinsert id s = if id == 0 then s else elim (search_id at_empty id s.buckets) [
  | none ↦ s
  | some index ↦ record s { buckets = set s.buckets index id; size = suc s.size }
]

unfoldable pub reinsert_all : List ℕ → ClientOrderIdSet → ClientOrderIdSet
unfolding reinsert
reinsert_all [] s = s
reinsert_all (id ∷ ids) s = reinsert_all ids (reinsert id s)

unfoldable pub rehash : ℕ → ClientOrderIdSet → ClientOrderIdSet
unfolding reinsert_all
rehash bucket_count s =
    reinsert_all s.buckets
      (record s { buckets = replicate bucket_count 0; size = if s.contains_zero then 1 else 0 })

unfoldable pub reserve : ℕ → ClientOrderIdSet → ClientOrderIdSet
reserve expected_size s =
    let bucket_count = bucket_count_for expected_size in
    if ltb (length s.buckets) bucket_count then rehash bucket_count s else s

-- The loop of `insert`, after the test that there is room.
unfoldable pub insert_at : ℕ → ClientOrderIdSet → ClientOrderIdSet
insert_at id s = elim (search_id (at_id id) id s.buckets) [
  | none ↦ s
  | some index ↦
      if get_or s.buckets index 0 == id
      then s
      else record s { buckets = set s.buckets index id; size = suc s.size }
]

-- Makes room where the set would be half full.
unfoldable pub with_room : ClientOrderIdSet → ClientOrderIdSet
with_room s =
    if is_empty s.buckets || leb (length s.buckets) ((s.size + 1) * 2)
    then rehash (bucket_count_for (s.size + 1)) s
    else s

unfoldable pub insert : ℕ → ClientOrderIdSet → ClientOrderIdSet
unfolding insert_at with_room
insert id s =
    if id == 0
    then if s.contains_zero then s else record s { contains_zero = true; size = suc s.size }
    else insert_at id (with_room s)
