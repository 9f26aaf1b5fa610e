-- ===== src/Hazard/Wiring.antt =====
-- What the calls of AddDependency for one operation do to the graph.
use khaos.Prelude.{
  ℕ, ◌+◌, ◌%◌, ◌^◌, ◌<◌, ◌≡◌, refl, List, [], ◌∷◌, ◌++◌, Option, none, some, ◌∙◌, length, count,
  All, ◌==◌, if◌then◌else◌, count-append, arith,
}
use native.Mathlib.Decide.{ℕ_discrete}
use khaos.Types.{Graph, add_dependency, dependents_of, in_degree_of, label_of}
use khaos.Types.Dependency.{
  length-add_dependency, dependents_of-add_dependency, in_degree_of-add_dependency,
  label_of-add_dependency,
}
use khaos.Hazard.{wire_readers, wire_last_write}
use khaos.Hazard.History.{to_list}

-- All the calls are one loop over the nodes to wait for.
pub wire_readers-append :
    (last : Option ℕ) (readers : List ℕ) (node : ℕ) (g : Graph)
    → wire_readers readers node (wire_last_write last node g)
      ≡ wire_readers (to_list last ++ readers) node g
unfolding wire_readers wire_last_write
wire_readers-append none readers node g = refl
wire_readers-append (some w) readers node g = refl

pub length-wire_readers :
    (ps : List ℕ) (node : ℕ) (g : Graph) → length (wire_readers ps node g) ≡ length g
unfolding wire_readers
length-wire_readers [] node g = refl
length-wire_readers (p ∷ ps) node g =
    length-wire_readers ps node (add_dependency p node g) ∙ length-add_dependency p node g

pub label_of-wire_readers :
    (ps : List ℕ) (node : ℕ) (g : Graph) (a : ℕ)
    → label_of (wire_readers ps node g) a ≡ label_of g a
unfolding wire_readers
label_of-wire_readers [] node g a = refl
label_of-wire_readers (p ∷ ps) node g a =
    label_of-wire_readers ps node (add_dependency p node g) a ∙ label_of-add_dependency p node g a

pub count-dependents_of-wire_readers :
    (ps : List ℕ) (node : ℕ) (g : Graph) (a b : ℕ)
    → All (λ p. p < length g) ps
    → count b (dependents_of (wire_readers ps node g) a)
      ≡ count b (dependents_of g a) + (if b == node then count a ps else 0)
unfolding wire_readers
count-dependents_of-wire_readers [] node g a b h = ground arith
count-dependents_of-wire_readers (p ∷ ps) node g a b h = ground (
  arith,
  count-dependents_of-wire_readers ps node (add_dependency p node g) a b
      (rw (length-add_dependency p node g) h.1),
  dependents_of-add_dependency p node g a h.0,
  count-append b (dependents_of g a) (node ∷ []),
)

pub in_degree_of-wire_readers :
    (ps : List ℕ) (node : ℕ) (g : Graph) (b d : ℕ)
    → node < length g
    → in_degree_of g b ≡ d % 2 ^ 64
    → in_degree_of (wire_readers ps node g) b
      ≡ (if b == node then (d + length ps) % 2 ^ 64 else d % 2 ^ 64)
unfolding wire_readers
in_degree_of-wire_readers [] node g b d h e = ground arith
in_degree_of-wire_readers (p ∷ ps) node g b d h e =
    let step = in_degree_of-add_dependency p node g b h in
    let h' : node < length (add_dependency p node g) = rw (length-add_dependency p node g) h in
    elim (ℕ_discrete b node) [
      | yes same ↦ ground (
        arith,
        step,
        in_degree_of-wire_readers ps node (add_dependency p node g) b (d + 1) h'
            (ground (arith, step)),
      )
      | no other ↦ ground (
        arith,
        step,
        in_degree_of-wire_readers ps node (add_dependency p node g) b d h' (ground (arith, step)),
      )
    ]
