-- ===== src/Types/Dependency.antt =====
-- What AddDependency does to each field of each node of the graph.
use khaos.Prelude.{
  ℕ, ◌<◌, ◌≡◌, [], ◌∷◌, ◌++◌, length, get_elem?, modify, ◌==◌, if◌then◌else◌, get_elem?-modify,
  length-modify, arith, get_elem?-some,
}
use khaos.Types.{
  Graph, increment, append_dependent, add_degree, add_dependency, dependents_of, in_degree_of,
  label_of,
}
use mathlib.Core.Option

module _ (n d : ℕ) (g : Graph) where
  pub length-add_dependency : length (add_dependency n d g) ≡ length g
  unfolding add_dependency
  length-add_dependency = omega (
    arith,
    length-modify d add_degree (modify n (append_dependent d) g),
    length-modify n (append_dependent d) g,
  )

  pub get_elem?-add_dependency :
      (a : ℕ)
      → get_elem? (add_dependency n d g) a ≡ (
          let m =
            (if n == a then Option.map (append_dependent d) (get_elem? g a) else get_elem? g a) in
          if d == a then Option.map add_degree m else m)
  unfolding add_dependency
  get_elem?-add_dependency a = rw (get_elem?-modify, get_elem?-modify)

  pub dependents_of-add_dependency :
      (a : ℕ)
      → n < length g
      → dependents_of (add_dependency n d g) a
        ≡ (if n == a then dependents_of g a ++ d ∷ [] else dependents_of g a)
  dependents_of-add_dependency a h =
      let (x, e) = get_elem?-some g n h in ground (arith, e, get_elem?-add_dependency a)

  pub in_degree_of-add_dependency :
      (b : ℕ)
      → d < length g
      → in_degree_of (add_dependency n d g) b
        ≡ (if d == b then increment (in_degree_of g b) else in_degree_of g b)
  in_degree_of-add_dependency b h =
      let (x, e) = get_elem?-some g d h in ground (arith, e, get_elem?-add_dependency b)

  -- The operation, the channel and the state of a node stay as they are.
  pub label_of-add_dependency : (a : ℕ) → label_of (add_dependency n d g) a ≡ label_of g a
  label_of-add_dependency a = ground (arith, get_elem?-add_dependency a)
