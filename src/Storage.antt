-- ===== src/Storage.antt =====
-- The StorageEngine interface of interfaces.go, and what an engine promises key by key.
pub mod Fnv
pub mod ShardedMap
pub mod Postgres
use khaos.Prelude.{◌≡◌, GoString, Option, none, Bool, str_eq, if◌then◌else◌}
use khaos.Values.{Any, Error}

-- A context.Context, by what `ctx.Err()` returns when it is asked.
abbrev pub Context : Type 0
Context = Option Error

-- The results (value, found, err) of Get.
pub record Lookup : Type 0 where
  pub value : Any
  pub found : Bool
  pub err : Option Error

pub record StorageEngine : Type 1 where
  pub State : Type 0
  pub get : Context → GoString → State → Lookup
  pub set : Context → GoString → Any → State → State × Option Error
  pub delete : Context → GoString → State → State × Option Error

-- Under a context that is not cancelled, an engine is a cell for each key: a call on a key reads and
-- changes that key's cell alone, by a function of the cell.
pub record IsKeyed (engine : StorageEngine) : Type 1 where
  pub Cell : Type 0
  pub IsValid : engine.State → Type 0
  pub cell : engine.State → GoString → Cell
  pub get_cell : Cell → Lookup
  pub set_cell : Any → Cell → Cell × Option Error
  pub delete_cell : Cell → Cell × Option Error
  pub set-IsValid :
      (k : GoString) (v : Any) (s : engine.State) → IsValid s → IsValid (engine.set none k v s).0
  pub delete-IsValid :
      (k : GoString) (s : engine.State) → IsValid s → IsValid (engine.delete none k s).0
  pub get_lem :
      (k : GoString) (s : engine.State) → IsValid s → engine.get none k s ≡ get_cell (cell s k)
  pub set_error :
      (k : GoString) (v : Any) (s : engine.State)
      → IsValid s
      → (engine.set none k v s).1 ≡ (set_cell v (cell s k)).1
  pub set_cells :
      (k : GoString) (v : Any) (s : engine.State) (j : GoString)
      → IsValid s
      → cell (engine.set none k v s).0 j
        ≡ (if str_eq k j then (set_cell v (cell s k)).0 else cell s j)
  pub delete_error :
      (k : GoString) (s : engine.State)
      → IsValid s
      → (engine.delete none k s).1 ≡ (delete_cell (cell s k)).1
  pub delete_cells :
      (k : GoString) (s : engine.State) (j : GoString)
      → IsValid s
      → cell (engine.delete none k s).0 j
        ≡ (if str_eq k j then (delete_cell (cell s k)).0 else cell s j)
