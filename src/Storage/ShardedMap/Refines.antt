-- ===== src/Storage/ShardedMap/Refines.antt =====
-- The sharded map is one map: which shard holds a key does not show.
use khaos.Prelude.{
  ℕ, zero, suc, ◌%◌, ◌<◌, ◌≡◌, refl, ap, ◌∙◌, Bool, true, false, Option, none, some, GoString,
  GoMap, empty, update, delete, get_elem?, modify, get_elem?-modify, get_elem?-some, length,
  length-modify, str_eq, str_eq_iff, if◌then◌else◌, arith,
}
use khaos.Prelude.Bits.{bit_and_255}
use khaos.Values.{Any, Error}
use khaos.Storage.{IsKeyed}
use khaos.Storage.Fnv.{fnv1a}
use khaos.Storage.ShardedMap.{
  num_shards, Shards, empty_shards, new_sharded_map, shard_index, shard_for, found_or_nil, get, set,
  delete_key, sharded_map,
}

-- The masked hash is the hash modulo the number of shards, and it is the index of a shard.
pub shard_index-eq-mod :
    (key : GoString) → (shard_index key ≡ fnv1a key % num_shards) × (shard_index key < num_shards)
unfolding shard_index
shard_index-eq-mod key = let e = bit_and_255 (fnv1a key) in (e, omega (arith, e))

abbrev pub IsSharded : Shards → Type 0
IsSharded sm = length sm ≡ num_shards

-- The one map that the shards stand for.
abbrev pub contents : Shards → GoMap Any
contents sm key = shard_for sm key key

length-empty_shards : (n : ℕ) → length (empty_shards n) ≡ n
unfolding empty_shards
length-empty_shards zero = refl
length-empty_shards (suc n) = ap suc (length-empty_shards n)

contents-modify :
    (sm : Shards) (key : GoString) (o : Option Any) (j : GoString)
    → IsSharded sm
    → contents (modify (shard_index key) (update key o) sm) j
      ≡ (if str_eq key j then o else contents sm j)
unfolding shard_for
contents-modify sm key o j valid =
    let (x, e) = get_elem?-some sm (shard_index j) (omega (arith, (shard_index-eq-mod j).1)) in
    ground (
      arith,
      e,
      str_eq_iff key j,
      get_elem?-modify (shard_index key) (update key o) sm (shard_index j),
    )

empty_shards-empty :
    (n i : ℕ) (key : GoString)
    → (elim (get_elem? (empty_shards n) i) as (λ o. GoMap Any) [ none ↦ empty | some m ↦ m ]) key
      ≡ none
unfolding empty_shards
empty_shards-empty zero i key = refl
empty_shards-empty (suc n) zero key = refl
empty_shards-empty (suc n) (suc i) key = empty_shards-empty n i key

-- A new map is empty, and every operation acts on the one map as Go's map does.
pub contents-new : (key : GoString) → contents new_sharded_map key ≡ none
unfolding new_sharded_map shard_for
contents-new key = empty_shards-empty num_shards (shard_index key) key

pub set-contents :
    (key : GoString) (value : Any) (sm : Shards) (j : GoString)
    → IsSharded sm
    → contents (set none key value sm).0 j ≡ update key (some value) (contents sm) j
unfolding set
set-contents key value sm j valid = contents-modify sm key (some value) j valid

pub delete-contents :
    (key : GoString) (sm : Shards) (j : GoString)
    → IsSharded sm
    → contents (delete_key none key sm).0 j ≡ delete key (contents sm) j
unfolding delete_key
delete-contents key sm j valid = contents-modify sm key none j valid

pub set-IsSharded :
    (key : GoString) (value : Any) (sm : Shards)
    → IsSharded sm
    → IsSharded (set none key value sm).0
unfolding set
set-IsSharded key value sm valid =
    length-modify (shard_index key) (update key (some value)) sm ∙ valid

pub delete-IsSharded :
    (key : GoString) (sm : Shards) → IsSharded sm → IsSharded (delete_key none key sm).0
unfolding delete_key
delete-IsSharded key sm valid = length-modify (shard_index key) (delete key) sm ∙ valid

pub new-IsSharded : IsSharded new_sharded_map
unfolding new_sharded_map
new-IsSharded = length-empty_shards num_shards

pub get-contents : (key : GoString) (sm : Shards) → get none key sm ≡ found_or_nil (contents sm key)
unfolding get
get-contents key sm = refl

pub set-error : (key : GoString) (value : Any) (sm : Shards) → (set none key value sm).1 ≡ none
unfolding set
set-error key value sm = refl

pub delete-error : (key : GoString) (sm : Shards) → (delete_key none key sm).1 ≡ none
unfolding delete_key
delete-error key sm = refl

-- ShardedMap implements the interface: its cells are the entries of the one map.
abbrev pub sharded_map-IsKeyed : IsKeyed sharded_map
sharded_map-IsKeyed = record {
  Cell = Option Any;
  IsValid = IsSharded;
  cell = contents;
  get_cell = found_or_nil;
  set_cell = λ v c. (some v, none);
  delete_cell = λ c. (none, none);
  set-IsValid = set-IsSharded;
  delete-IsValid = delete-IsSharded;
  get_lem = λ k s valid. get-contents k s;
  set_error = λ k v s valid. set-error k v s;
  set_cells = set-contents;
  delete_error = λ k s valid. delete-error k s;
  delete_cells = delete-contents;
}

-- Under a context that has ended, Get finds nothing and returns the context's error, and Set and
-- Delete return it and leave the map as it was.
pub cancelled_calls :
    (e : Error) (key : GoString) (value : Any) (sm : Shards)
    → ((get (some e) key sm).err ≡ some e)
      × ((get (some e) key sm).found ≡ false)
      × (set (some e) key value sm ≡ (sm, some e))
      × (delete_key (some e) key sm ≡ (sm, some e))
unfolding get set delete_key
cancelled_calls e key value sm = (refl, refl, refl, refl)

-- Under a context that is not cancelled, on 256 shards: after Set(key, value) a Get of key finds
-- value, after Delete(key) it finds nothing, and in both cases a Get of any other key finds what it
-- found before; neither returns an error, and both keep the 256 shards.
pub get_after :
    (key : GoString) (value : Any) (sm : Shards) (j : GoString)
    → IsSharded sm
    → (get none j (set none key value sm).0
        ≡ (if str_eq key j then found_or_nil (some value) else get none j sm))
      × (get none j (delete_key none key sm).0
          ≡ (if str_eq key j then found_or_nil none else get none j sm))
      × ((set none key value sm).1 ≡ none)
      × ((delete_key none key sm).1 ≡ none)
      × IsSharded (set none key value sm).0
      × IsSharded (delete_key none key sm).0
unfolding get
get_after key value sm j valid = (
  rw (set-contents key value sm j valid) (choose (str_eq key j) (some value)),
  rw (delete-contents key sm j valid) (choose (str_eq key j) none),
  set-error key value sm,
  delete-error key sm,
  set-IsSharded key value sm valid,
  delete-IsSharded key sm valid,
)
  where
    choose :
        (b : Bool) (o : Option Any)
        → found_or_nil (if b then o else contents sm j)
          ≡ (if b then found_or_nil o else found_or_nil (contents sm j))
    choose true o = refl
    choose false o = refl
