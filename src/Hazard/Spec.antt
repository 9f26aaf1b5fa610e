-- ===== src/Hazard/Spec.antt =====
-- Data hazards of a batch, independently of how they are found.
use khaos.Prelude.{
  ℕ, suc, ◌-◌, ◌<◌, ◌≡◌, sym, subst, fun_ext, ◌↔◌, List, [], ◌∷◌, Option, some, true, false, length,
  get_elem?, get_elem?-cons, ltb, if◌then◌else◌, arith, inl, inr, Option-cases,
}
use native.Mathlib.Decide.{ℕ_discrete}
use khaos.Types.{Operation}
use khaos.Hazard.History.{History, op_at, edge, hazard_in, conflicts, writes_key}
use khaos.Hazard.Invariant.{pass}

-- RAW, WAR and WAW: two operations on one key, one of which writes or deletes, with no write or
-- delete of the key between them. `op` says what stands at a position.
pub record HazardIn (op : ℕ → Option Operation) (i j : ℕ) : Type 0 where
  pub earlier : Operation
  pub later : Operation
  pub at_i : op i ≡ some earlier
  pub at_j : op j ≡ some later
  pub ordered : i < j
  pub conflict : conflicts earlier later ≡ true
  pub unbroken :
      (m : ℕ) (p : Operation) → i < m → m < j → op m ≡ some p → writes_key p later.key ≡ false

abbrev pub Hazard : List Operation → ℕ → ℕ → Type 0
Hazard batch = HazardIn (get_elem? batch)

op_at_bound : (h : History) (a : ℕ) (p : Operation) → op_at h a ≡ some p → a < length h
unfolding op_at
op_at_bound [] a p e = cc
op_at_bound (q ∷ h) a p e = ground (arith, op_at_bound h a p)

op_at-pass_from :
    (batch : List Operation) (h : History) (a : ℕ)
    → op_at (pass batch h) a
      ≡ (if ltb a (length h) then op_at h a else get_elem? batch (a - length h))
unfolding op_at
op_at-pass_from [] h a = elim (Option-cases (op_at h a)) [
  | inl absent ↦ ground arith
  | inr (p, e) ↦ ground (arith, op_at_bound h a p)
]
op_at-pass_from (op ∷ batch) h a =
    let e : a - suc (length h) ≡ a - length h - 1 = omega arith in
    ground (arith, op_at-pass_from batch (op ∷ h) a, get_elem?-cons op batch (a - length h), e)

-- The history of the whole batch holds each operation at its place.
pub op_at-pass : (batch : List Operation) (a : ℕ) → op_at (pass batch []) a ≡ get_elem? batch a
op_at-pass batch a = ground (arith, op_at-pass_from batch [] a)

-- A hazard for q in a history.
record Holds (h : History) (q : Operation) (a : ℕ) : Type 0 where
  source : Operation
  at_a : op_at h a ≡ some source
  conflict : conflicts source q ≡ true
  unbroken : (m : ℕ) (p : Operation) → a < m → op_at h m ≡ some p → writes_key p q.key ≡ false

hazard_in-Holds : (h : History) (q : Operation) (a : ℕ) → hazard_in h q a ≡ true → Holds h q a
unfolding hazard_in op_at
hazard_in-Holds [] q a e = cc
hazard_in-Holds (p ∷ h) q a e = elim (ℕ_discrete a (length h)) [
  | yes last ↦ record {
    source = p;
    at_a = ground arith;
    conflict = ground arith;
    unbroken = λ m r lt at_m. absurd (ground (arith, op_at_bound h m r));
  }
  | no older ↦
      let ih = hazard_in-Holds h q a (ground arith) in
      record {
        source = ih.source;
        at_a = ground (arith, ih.at_a);
        conflict = ih.conflict;
        unbroken = λ m r lt at_m. ground (arith, ih.unbroken m r lt);
      }
]

Holds-hazard_in : (h : History) (q : Operation) (a : ℕ) → Holds h q a → hazard_in h q a ≡ true
unfolding hazard_in op_at
Holds-hazard_in [] q a holds = let e = holds.at_a in cc
Holds-hazard_in (p ∷ h) q a holds = elim (ℕ_discrete a (length h)) [
  | yes last ↦ ground (arith, holds.at_a, holds.conflict)
  | no older ↦
      let at_a : op_at h a ≡ some holds.source = ground (arith, holds.at_a) in
      let a-lt : a < length h = op_at_bound h a holds.source at_a in
      let skip : writes_key p q.key ≡ false = holds.unbroken (length h) p a-lt (ground arith) in
      let ih : hazard_in h q a ≡ true = Holds-hazard_in h q a (record {
        source = holds.source;
        at_a = at_a;
        conflict = holds.conflict;
        unbroken = λ m r lt at_m. holds.unbroken m r lt (ground (arith, op_at_bound h m r));
      }) in
      ground (arith, skip, ih)
]

edge-HazardIn : (h : History) (a b : ℕ) → edge h a b ≡ true → HazardIn (op_at h) a b
unfolding edge op_at
edge-HazardIn [] a b e = cc
edge-HazardIn (q ∷ h) a b e = elim (ℕ_discrete b (length h)) [
  | yes last ↦
      let holds = hazard_in-Holds h q a (ground arith) in
      let a-lt : a < length h = op_at_bound h a holds.source holds.at_a in
      record {
        earlier = holds.source;
        later = q;
        at_i = ground (arith, holds.at_a);
        at_j = ground arith;
        ordered = omega arith;
        conflict = holds.conflict;
        unbroken = λ m p lt lt' at_m. holds.unbroken m p lt (ground arith);
      }
  | no older ↦
      let ih = edge-HazardIn h a b (ground arith) in
      let b-lt : b < length h = op_at_bound h b ih.later ih.at_j in
      record {
        earlier = ih.earlier;
        later = ih.later;
        at_i = ground (arith, ih.at_i, ih.ordered);
        at_j = ground (arith, ih.at_j);
        ordered = ih.ordered;
        conflict = ih.conflict;
        unbroken = λ m p lt lt' at_m. ih.unbroken m p lt lt' (ground arith);
      }
]

HazardIn-edge : (h : History) (a b : ℕ) → HazardIn (op_at h) a b → edge h a b ≡ true
unfolding edge op_at
HazardIn-edge [] a b hz = let e = hz.at_i in cc
HazardIn-edge (q ∷ h) a b hz = elim (ℕ_discrete b (length h)) [
  | yes last ↦
      let same : q ≡ hz.later = ground (arith, hz.at_j) in
      let holds : hazard_in h q a ≡ true = Holds-hazard_in h q a (record {
        source = hz.earlier;
        at_a = ground (arith, hz.at_i, hz.ordered);
        conflict = rw same hz.conflict;
        unbroken = λ m p lt at_m. rw same (
            hz.unbroken m p lt (omega (arith, op_at_bound h m p at_m))
              (ground (arith, op_at_bound h m p at_m)));
      }) in
      ground (arith, holds)
  | no older ↦
      let at_j : op_at h b ≡ some hz.later = ground (arith, hz.at_j) in
      let b-lt : b < length h = op_at_bound h b hz.later at_j in
      let ih : edge h a b ≡ true = HazardIn-edge h a b (record {
        earlier = hz.earlier;
        later = hz.later;
        at_i = ground (arith, hz.at_i, hz.ordered);
        at_j = at_j;
        ordered = hz.ordered;
        conflict = hz.conflict;
        unbroken =
            λ m p lt lt' at_m. hz.unbroken m p lt lt' (ground (arith, op_at_bound h m p at_m));
      }) in
      ground (arith, ih)
]

pub edge_iff-Hazard :
    (batch : List Operation) (a b : ℕ) → (edge (pass batch []) a b ≡ true) ↔ Hazard batch a b
edge_iff-Hazard batch a b =
    let same = fun_ext (op_at-pass batch) in
    (
      λ e. subst (λ op. HazardIn op a b) same (edge-HazardIn (pass batch []) a b e),
      λ hz. HazardIn-edge (pass batch []) a b (subst (λ op. HazardIn op a b) (sym same) hz),
    )
