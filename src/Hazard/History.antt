-- ===== src/Hazard/History.antt =====
-- What Build keeps of the operations that it has passed, as functions of the history: the list of
-- these operations, the latest first. The operation at position n has n operations behind it.
use khaos.Prelude.{
  ℕ, ◌<◌, ◌≡◌, refl, GoString, List, [], ◌∷◌, ◌++◌, Option, none, some, Bool, true, false, ◌&&◌,
  ◌||◌, length, count, to_nat, str_eq, ◌==◌, if◌then◌else◌, count-append, arith, Bool-cases, inl,
  inr,
}
use khaos.Types.{OperationType, op_read, op_write, op_delete, undefined, Operation}

-- Writes and deletes change the store.
abbrev pub writes : OperationType → Bool
writes op_read = false
writes op_write = true
writes op_delete = true
writes (undefined n) = false

abbrev pub History : Type 0
History = List Operation

-- The two touch one key and one of them changes it.
abbrev pub conflicts : Operation → Operation → Bool
conflicts p q = str_eq p.key q.key && (writes p.type || writes q.type)

abbrev pub writes_key : Operation → GoString → Bool
writes_key p k = str_eq p.key k && writes p.type

unfoldable pub op_at : History → ℕ → Option Operation
op_at [] a = none
op_at (p ∷ h) a = if a == length h then some p else op_at h a

-- Position a holds a hazard for q: it conflicts with q, and nothing between them writes the key.
unfoldable pub hazard_in : History → Operation → ℕ → Bool
hazard_in [] q a = false
hazard_in (p ∷ h) q a =
    if a == length h then conflicts p q else if writes_key p q.key then false else hazard_in h q a

unfoldable pub edge : History → ℕ → ℕ → Bool
edge [] a b = false
edge (q ∷ h) a b = if b == length h then hazard_in h q a else edge h a b

-- The two maps of Build.
unfoldable pub last_write_in : History → GoString → Option ℕ
last_write_in [] k = none
last_write_in (p ∷ h) k = if writes_key p k then some (length h) else last_write_in h k

unfoldable pub reads_in : History → GoString → List ℕ
reads_in [] k = []
reads_in (p ∷ h) k =
    if writes_key p k
    then []
    else if str_eq p.key k
    then reads_in h k ++ length h ∷ []
    else reads_in h k

abbrev pub to_list : Option ℕ → List ℕ
to_list none = []
to_list (some a) = a ∷ []

-- The nodes that Build makes q wait for, in the order of its calls.
unfoldable pub wired : History → Operation → List ℕ
wired h q = to_list (last_write_in h q.key) ++ (if writes q.type then reads_in h q.key else [])

unfoldable pub wired_of : History → ℕ → List ℕ
wired_of [] b = []
wired_of (q ∷ h) b = if b == length h then wired h q else wired_of h b

pub hazard_in_bound : (h : History) (q : Operation) (a : ℕ) → hazard_in h q a ≡ true → a < length h
unfolding hazard_in
hazard_in_bound [] q a e = cc
hazard_in_bound (p ∷ h) q a e = ground (arith, hazard_in_bound h q a)

-- One more operation in the history: `same` tells whether it touches the key of q, `wp` and `wq`
-- whether it and q write.
abbrev Counted : ℕ → ℕ → Option ℕ → List ℕ → Bool → Bool → Bool → Bool → Type 0
Counted a n last reads hazard same wp wq =
    count a (
      to_list (if same && wp then some n else last)
      ++ (if wq then (if same && wp then [] else if same then reads ++ n ∷ [] else reads) else []))
    ≡ to_nat (if a == n then same && (wp || wq) else if same && wp then false else hazard)

count_step :
    (a n : ℕ) (last : Option ℕ) (reads : List ℕ) (hazard same wp wq : Bool)
    → count a (to_list last ++ (if wq then reads else [])) ≡ to_nat hazard
    → (hazard ≡ true → a < n)
    → Counted a n last reads hazard same wp wq
count_step a n last reads hazard true true true e h = ground arith
count_step a n last reads hazard true true false e h = ground arith
count_step a n last reads hazard true false true e h = ground (
  arith,
  count-append a (to_list last) (reads ++ n ∷ []),
  count-append a (to_list last) reads,
  count-append a reads (n ∷ []),
)
count_step a n last reads hazard true false false e h = ground arith
count_step a n last reads hazard false wp true e h = ground arith
count_step a n last reads hazard false wp false e h = ground arith

-- Each hazard is wired once, and nothing else is.
pub count-wired :
    (h : History) (q : Operation) (a : ℕ) → count a (wired h q) ≡ to_nat (hazard_in h q a)
unfolding wired last_write_in reads_in hazard_in
count-wired [] q a = elim (Bool-cases (writes q.type)) [ inl e ↦ rw e | inr e ↦ rw e ]
count-wired (p ∷ h) q a =
    count_step a (length h) (last_write_in h q.key) (reads_in h q.key) (hazard_in h q a)
      (str_eq p.key q.key) (writes p.type) (writes q.type) (count-wired h q a)
      (hazard_in_bound h q a)

pub count-wired_of : (h : History) (a b : ℕ) → count a (wired_of h b) ≡ to_nat (edge h a b)
unfolding wired_of edge
count-wired_of [] a b = refl
count-wired_of (q ∷ h) a b = ground (arith, count-wired h q a, count-wired_of h a b)

-- A hazard edge goes from an earlier operation to a later one.
pub edge_bounds : (h : History) (a b : ℕ) → edge h a b ≡ true → (a < b) × (b < length h)
unfolding edge
edge_bounds [] a b e = cc
edge_bounds (q ∷ h) a b e = ground (arith, hazard_in_bound h q a, edge_bounds h a b)
