-- ===== src/Nucleus/Termination.antt =====
-- `terminateProcess` ends: each turn of its loop takes one entry off the children lists.
pub mod Children
use pand_aossh.Prelude.{
  ℕ, zero, suc, ◌+◌, ◌*◌, ◌≤◌, ◌<◌, ◌≡◌, refl, Bool, true, false, Option, none, some, List, [], ◌∷◌,
  arith, ◌==◌, ltb, if◌then◌else◌, inl, inr, Bool-cases, Option-cases, length, update, All, ap,
  subst, sym, if-split, Option-split,
}
use pand_aossh.Prelude.Words.{minus}
use pand_aossh.Types.{Pcb, Phase1}
use pand_aossh.Phase1.Pcb.{max_proc, set_pcb, remove_child, remove_first}
use pand_aossh.Nucleus.Globals.{Kernel, modify_pcb}
use pand_aossh.Nucleus.Process.{
  finish, terminate_process, terminate_children, terminate, child_count, and_then,
}
use Children.{
  IsInside, Tame, Tame-refl, Tame-trans, Tame-keep, finish-Tame, child_count-update,
  child_count-write,
}

abbrev count : Kernel → ℕ
count k = child_count k.phase1.table max_proc

-- A child was taken out of the family.
abbrev Removed : Phase1 → Option ℕ → Phase1 → Type 0
Removed s none t = Unit {0}
Removed s (some c) t =
    (c < max_proc)
    × IsInside t.table
    × (suc (child_count t.table max_proc) ≤ child_count s.table max_proc)

remove_first-Removed :
    (p : ℕ) (l : List ℕ) (s : Phase1)
    → p < max_proc
    → IsInside s.table
    → (s.table p).p_child ≡ l
    → Removed s (remove_first p l s).0 (remove_first p l s).1
unfolding remove_first
remove_first-Removed p [] s h i e = tt
remove_first-Removed p (c ∷ rest) s h i e =
    let inside = subst (All (λ x. x < max_proc)) e (i p) in
    let pcb = record (s.table p) { p_child = rest } in
    let s1 = set_pcb p pcb s in
    let last = Tame-keep s1.table c (record (s1.table c) { p_parent = none }) refl in
    (
      inside.0,
      last.within (λ q.
          if-split (λ (d : Pcb). All (λ x. x < max_proc) d.p_child) (q == p) pcb (s.table q)
            (λ _. inside.1) (λ _. i q)),
      ground (arith, last.count, child_count-update s.table p pcb max_proc, ap {B = ℕ} length e),
    )

remove_child-Removed :
    (p : ℕ) (s : Phase1)
    → p < max_proc
    → IsInside s.table
    → Removed s (remove_child (some p) s).0 (remove_child (some p) s).1
unfolding remove_child
remove_child-Removed p s h i = remove_first-Removed p (s.table p).p_child s h i refl

-- The recursion has a result, and it added no child.
abbrev pub Ends : Kernel → Option Kernel → Type 0
Ends k none = ⊥
Ends k (some t) = Tame k.phase1.table t.phase1.table

Ends-then :
    (k t : Kernel) (r : Option Kernel) (f : Kernel → Option Kernel)
    → Tame k.phase1.table t.phase1.table
    → Ends t r
    → ((u : Kernel) → Tame t.phase1.table u.phase1.table → Ends u (f u))
    → Ends k (and_then r f)
Ends-then k t none f a e next = absurd e
Ends-then k t (some u) f a e next = carry (f u) (next u e)
  where
    carry : (r : Option Kernel) → Ends u r → Ends k r
    carry none h = h
    carry (some w) h =
        Tame-trans k.phase1.table t.phase1.table w.phase1.table a
          (Tame-trans t.phase1.table u.phase1.table w.phase1.table e h)

mutual
  unfolding terminate_process terminate_children

  terminate_process-Ends :
      (fuel p : ℕ) (k : Kernel)
      → p < max_proc
      → IsInside k.phase1.table
      → 2 * count k + 1 < fuel
      → Ends k (terminate_process fuel p k)
  terminate_process-Ends zero p k b i f = absurd (omega arith)
  terminate_process-Ends (suc fuel) p k b i f =
      elim (Bool-cases ((k.phase1.table p).p_pid == minus 1)) [
        | inl dead ↦ rw (dead, Ends) (Tame-refl k.phase1.table)
        | inr alive ↦
            let k1 = modify_pcb p (λ c. record c { p_pid = minus 1 }) k in
            let same =
              Tame-keep k.phase1.table p (record (k.phase1.table p) { p_pid = minus 1 }) refl in
            rw (alive, Ends)
              (Ends-then k k1 _ (λ k'. some (finish p k')) same
                (terminate_children-Ends fuel p k1 b (same.within i) (omega (arith, same.count)))
                (λ u _. finish-Tame p u))
      ]

  terminate_children-Ends :
      (fuel p : ℕ) (k : Kernel)
      → p < max_proc
      → IsInside k.phase1.table
      → 2 * count k < fuel
      → Ends k (terminate_children fuel p k)
  terminate_children-Ends zero p k b i f = absurd (omega arith)
  terminate_children-Ends (suc fuel) p k b i f =
      let r = remove_child (some p) k.phase1 in
      let k1 = record k { phase1 = r.1 } in
      let removed = remove_child-Removed p k.phase1 b i in
      Option-split (Ends k) r.0 (some k)
        (λ c. and_then (terminate_process fuel c k1) (λ k'. terminate_children fuel p k'))
        (λ e. Tame-refl k.phase1.table)
        (λ c e.
          let gone = subst (λ o. Removed k.phase1 o r.1) e removed in
          let less = gone.2 in
          Ends-then k k1 (terminate_process fuel c k1) (λ k'. terminate_children fuel p k')
            (record { count = omega arith; within = λ _. gone.1 })
            (terminate_process-Ends fuel c k1 gone.0 gone.1 (omega arith))
            (λ u h. terminate_children-Ends fuel p u b (h.within gone.1) (omega (arith, h.count))))

-- `terminateProcess` always comes to an end when the children lists hold blocks of the table only,
-- and the lists then hold no more entries than before, all of them blocks of the table.
pub terminate-Ends :
    (p : ℕ) (k : Kernel) → p < max_proc → IsInside k.phase1.table → Ends k (terminate p k)
unfolding terminate
terminate-Ends p k b i = terminate_process-Ends _ p k b i (omega arith)
