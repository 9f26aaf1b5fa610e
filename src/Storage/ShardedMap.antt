-- ===== src/Storage/ShardedMap.antt =====
-- ShardedMap of storage.go. A method holds the lock of one shard for its one map access, so each
-- call is one step; the arrays of shards is a list of maps.
pub mod Refines
use Prim.Native.Nat.{bit_and}
use khaos.Prelude.{
  ℕ, zero, suc, ◌-◌, ◌≡◌, List, [], ◌∷◌, Option, none, some, true, false, GoString, GoMap, empty,
  update, delete, get_elem?, modify,
}
use khaos.Values.{Any, nil, Error}
use khaos.Storage.{Context, Lookup, StorageEngine}
use khaos.Storage.Fnv.{fnv1a}

abbrev pub num_shards : ℕ
num_shards = 256

abbrev pub shard_mask : ℕ
shard_mask = num_shards - 1

-- The maps of the shards, `shard.data`.
abbrev pub Shards : Type 0
Shards = List (GoMap Any)

unfoldable pub empty_shards : ℕ → Shards
empty_shards zero = []
empty_shards (suc n) = empty ∷ empty_shards n

unfoldable pub new_sharded_map : Shards
new_sharded_map = empty_shards num_shards

-- The index of the shard of a key, in shardFor.
unfoldable pub shard_index : GoString → ℕ
shard_index key = bit_and (fnv1a key) shard_mask

-- The map of the shard. The index is in range (shard_index-lt), so the default is never read.
unfoldable pub shard_for : Shards → GoString → GoMap Any
shard_for sm key = elim (get_elem? sm (shard_index key)) [ none ↦ empty | some m ↦ m ]

unfoldable pub found_or_nil : Option Any → Lookup
found_or_nil none = record { value = nil; found = false; err = none }
found_or_nil (some v) = record { value = v; found = true; err = none }

unfoldable pub get : Context → GoString → Shards → Lookup
unfolding found_or_nil
get (some e) key sm = record { value = nil; found = false; err = some e }
get none key sm = found_or_nil (shard_for sm key key)

unfoldable pub set : Context → GoString → Any → Shards → Shards × Option Error
set (some e) key value sm = (sm, some e)
set none key value sm = (modify (shard_index key) (update key (some value)) sm, none)

unfoldable pub delete_key : Context → GoString → Shards → Shards × Option Error
delete_key (some e) key sm = (sm, some e)
delete_key none key sm = (modify (shard_index key) (delete key) sm, none)

abbrev pub sharded_map : StorageEngine
sharded_map = record { State = Shards; get = get; set = set; delete = delete_key }
