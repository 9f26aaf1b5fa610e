-- ===== src/Tests/Storage.antt =====
-- The sharded map on a few keys.
use khaos.Prelude.{◌%◌, ◌<◌, ◌≡◌, refl, text, str_eq, none, some, if◌then◌else◌}
use khaos.Values.{Any, other}
use khaos.Storage.Fnv.{fnv1a}
use khaos.Storage.ShardedMap.{
  new_sharded_map, shard_index, found_or_nil, get, set, delete_key, num_shards,
}
use khaos.Storage.ShardedMap.Refines.{IsSharded, new-IsSharded, shard_index-eq-mod, get_after}

-- The published FNV-1a hash of "a".
fnv1a_a : fnv1a (text "a") ≡ 0xe40c292c
unfolding fnv1a
fnv1a_a = refl

abbrev seven : Any
seven = other (text "int") 7

shard_index-eq-mod_example :
    (shard_index (text "rider-1") ≡ fnv1a (text "rider-1") % num_shards)
    × (shard_index (text "rider-1") < num_shards)
shard_index-eq-mod_example = shard_index-eq-mod (text "rider-1")

get_after_example :
    (get none (text "b") (set none (text "a") seven new_sharded_map).0 ≡ (
      if str_eq (text "a") (text "b")
      then found_or_nil (some seven)
      else get none (text "b") new_sharded_map))
    × (get none (text "b") (delete_key none (text "a") new_sharded_map).0 ≡ (
        if str_eq (text "a") (text "b")
        then found_or_nil none
        else get none (text "b") new_sharded_map))
    × ((set none (text "a") seven new_sharded_map).1 ≡ none)
    × ((delete_key none (text "a") new_sharded_map).1 ≡ none)
    × IsSharded (set none (text "a") seven new_sharded_map).0
    × IsSharded (delete_key none (text "a") new_sharded_map).0
get_after_example = get_after (text "a") seven new_sharded_map (text "b") new-IsSharded
