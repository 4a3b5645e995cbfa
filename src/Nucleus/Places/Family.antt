-- ===== src/Nucleus/Places/Family.antt =====
-- What the changes of the process tree leave alone.
use pand_aossh.Prelude.{
  ℕ, ◌≡◌, refl, sym, ap, ◌∙◌, true, Option, none, some, List, [], ◌∷◌, arith, ◌==◌, erase, inl, inr,
  Option-cases, List-cases, ==→eq,
}
use pand_aossh.Prelude.Counts.{occurs}
use pand_aossh.Types.{Phase1}
use pand_aossh.Phase1.Pcb.{out_child, unlink_sib, remove_child, remove_first, insert_child}
use pand_aossh.Phase1.Pcb.Tree.{
  IsTree, Moves, Leaves, out_child_lem, Pops, remove_child_lem, insert_child_lem,
}
use pand_aossh.Phase1.Asl.Invariant.{IsAsl, queue}
use pand_aossh.Nucleus.Places.{Placed, IsLive, free, waiting}

-- Of the blocks, only the families change.
pub record OnlyFamilies (s t : Phase1) : Type 0 where
  pub semds : (t.semd_h ≡ s.semd_h) × (t.semd_free ≡ s.semd_free)
  pub frees : t.pcb_free ≡ s.pcb_free
  pub sems : (a : ℕ) → (t.table a).p_sem_add ≡ (s.table a).p_sem_add
  pub pids : (a : ℕ) → (t.table a).p_pid ≡ (s.table a).p_pid

OnlyFamilies-IsAsl : (s t : Phase1) → OnlyFamilies s t → IsAsl s → IsAsl t
OnlyFamilies-IsAsl s t o v = record {
  unique = rw o.semds.0 v.unique;
  nonzero = rw o.semds.0 v.nonzero;
  waiting = rw o.semds.0 v.waiting;
  total = rw (o.semds.0, o.semds.1) v.total;
}

module _ {hand : List ℕ} {current yielder : Option ℕ} {ready : List ℕ} {active : List (Option ℕ)}
    (s : Phase1) where
  pub family-Placed :
      (t : Phase1)
      → Placed hand current yielder ready active s
      → OnlyFamilies s t
      → IsTree t
      → ((p c : ℕ) → (t.table c).p_parent ≡ some p → IsLive s p × IsLive s c)
      → Placed hand current yielder ready active t
  family-Placed t v o tree kin =
      let f : (a : ℕ) → free t a ≡ free s a = λ a. ap (occurs a) o.frees in
      let q : (a j : ℕ) → occurs a (queue t j) ≡ occurs a (queue s j) = λ a j. rw o.semds.0 refl in
      record {
        asl = OnlyFamilies-IsAsl s t o v.asl;
        named = λ a j h. o.sems a ∙ v.named a j (let e = q a j in omega (arith, e, h));
        tree = tree;
        kin = λ p c e. let (h, g) = kin p c e in ((f p ∙ h.0, h.1), (f c ∙ g.0, g.1));
        place = λ a.
            let w : waiting t a ≡ waiting s a =
              ap (λ j. occurs a (queue t j)) (o.sems a) ∙ q a (s.table a).p_sem_add in
            let g = f a in omega (arith, w, g, v.place a);
        alive = λ a. let g = f a in omega (arith, g, v.alive a);
        slots = v.slots;
      }

pub out_child-OnlyFamilies : (p : ℕ) (s : Phase1) → OnlyFamilies s (out_child (some p) s).1
unfolding out_child unlink_sib
out_child-OnlyFamilies p s = record {
  semds = ground arith;
  frees = ground arith;
  sems = λ a. ground arith;
  pids = λ a. ground arith;
}

remove_first-OnlyFamilies :
    (p : ℕ) (l : List ℕ) (s : Phase1) → OnlyFamilies s (remove_first p l s).1
unfolding remove_first
remove_first-OnlyFamilies p [] s = record {
  semds = (refl, refl);
  frees = refl;
  sems = λ a. refl;
  pids = λ a. refl;
}
remove_first-OnlyFamilies p (c ∷ l) s = record {
  semds = (refl, refl);
  frees = refl;
  sems = λ a. ground arith;
  pids = λ a. ground arith;
}

pub remove_child-OnlyFamilies : (p : ℕ) (s : Phase1) → OnlyFamilies s (remove_child (some p) s).1
unfolding remove_child
remove_child-OnlyFamilies p s = remove_first-OnlyFamilies p (s.table p).p_child s

pub insert_child-OnlyFamilies : (prnt p : ℕ) (s : Phase1) → OnlyFamilies s (insert_child prnt p s)
unfolding insert_child
insert_child-OnlyFamilies prnt p s = record {
  semds = (refl, refl);
  frees = refl;
  sems = λ a. ground arith;
  pids = λ a. ground arith;
}

-- The block has no family above it.
pub record Orphan (p : ℕ) (s t : Phase1) : Type 0 where
  pub alone : (t.table p).p_parent ≡ none
  pub others : (q : ℕ) → (s.table q).p_child ≡ [] → (t.table q).p_child ≡ []

module _ {hand : List ℕ} {current yielder : Option ℕ} {ready : List ℕ} {active : List (Option ℕ)}
    (s : Phase1) where
  Moves-kin :
      (p c : ℕ) (l : List ℕ) (t : Phase1)
      → Placed hand current yielder ready active s
      → Moves p c none l s t
      → (q a : ℕ) → (t.table a).p_parent ≡ some q
      → IsLive s q × IsLive s a
  Moves-kin p c l t v m q a e = v.kin q a (let f = m.parents a in ground (arith, e, f))

  pub out_child-Placed :
      (p : ℕ)
      → Placed hand current yielder ready active s
      → Placed hand current yielder ready active (out_child (some p) s).1
        × Orphan p s (out_child (some p) s).1
  out_child-Placed p v =
      let t = (out_child (some p) s).1 in
      let h = out_child_lem p s v.tree in
      let only = out_child-OnlyFamilies p s in
      elim (Option-cases (s.table p).p_parent) [
        | inl e ↦
            let g : (Leaves p none s (out_child (some p) s)) = rw e at h in
            (rw g.1 v, record { alone = rw g.1 e; others = λ q z. rw g.1 z })
        | inr (o, e) ↦
            let g : (Leaves p (some o) s (out_child (some p) s)) = rw e at h in
            let m = g.1 in
            (
              family-Placed s t v only g.2 (Moves-kin o p (erase p (s.table o).p_child) t v m),
              record {
                alone = let f = m.parents p in ground (arith, f);
                others = λ q z.
                    let o_q : (q == o) ≡ true → erase p (s.table o).p_child ≡ [] = λ b.
                      ap (λ c. erase p (s.table c).p_child) (sym (==→eq q o b)) ∙ ap (erase p) z in
                    let f = m.lists q in ground (arith, f, o_q, z);
              },
            )
      ]

  -- A child that is taken is live.
  pub remove_child-Placed :
      (p : ℕ)
      → Placed hand current yielder ready active s
      → Placed hand current yielder ready active (remove_child (some p) s).1
  remove_child-Placed p v =
      let t = (remove_child (some p) s).1 in
      let h = remove_child_lem p s v.tree in
      elim (List-cases (s.table p).p_child) [
        | inl e ↦ let g : (Pops p [] s (remove_child (some p) s)) = rw e at h in rw g.1 v
        | inr (c, l, e) ↦
            let g : (Pops p (c ∷ l) s (remove_child (some p) s)) = rw e at h in
            family-Placed s t v (remove_child-OnlyFamilies p s) g.2 (Moves-kin p c l t v g.1)
      ]

  pub insert_child-Placed :
      (prnt p : ℕ)
      → Placed hand current yielder ready active s
      → IsLive s prnt
      → IsLive s p
      → (s.table p).p_parent ≡ none
      → Placed hand current yielder ready active (insert_child prnt p s)
  insert_child-Placed prnt p v h g e =
      let (m, tree) = insert_child_lem s prnt p v.tree e in
      family-Placed s (insert_child prnt p s) v (insert_child-OnlyFamilies prnt p s) tree
        (λ q a f. let m_a = m.parents a in let k = v.kin q a in ground (arith, f, m_a, k, h, g))
