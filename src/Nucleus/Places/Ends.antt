-- ===== src/Nucleus/Places/Ends.antt =====
-- `terminateProcess` and the places: the blocks that it ends become free, and nothing else moves.
use pand_aossh.Prelude.{
  ℕ, zero, suc, ◌<◌, ◌≡◌, ◌≢◌, refl, ap, ◌∙◌, true, Option, none, some, List, [], ◌∷◌, arith, ◌==◌,
  has, inl, inr, Bool-cases, All, ==_refl,
}
use pand_aossh.Prelude.Words.{minus}
use pand_aossh.Prelude.Counts.{occurs}
use pand_aossh.Types.{Phase1}
use pand_aossh.Phase1.Pcb.{max_proc, remove_child}
use pand_aossh.Nucleus.Globals.{Kernel, modify_pcb}
use pand_aossh.Nucleus.Process.{terminate_process, terminate_children, terminate}
use pand_aossh.Nucleus.Termination.{Ends, terminate-Ends}
use pand_aossh.Nucleus.Termination.Children.{IsInside}
use pand_aossh.Nucleus.Places.{Placed, PlacedIn, IsLive, write-Placed}
use pand_aossh.Nucleus.Places.Family.{remove_child-OnlyFamilies}
use pand_aossh.Nucleus.Places.Outlives.{
  Ended, Childless, Outlives-refl, finish_after, taken_child, child_cases, next_child,
}

mutual
  unfolding terminate_process terminate_children

  terminate_process-Ended :
      (fuel p : ℕ) (k : Kernel)
      → PlacedIn [] k
      → k.yielded_process ≡ none
      → IsLive k.phase1 p
      → Ended p k (terminate_process fuel p k)
  terminate_process-Ended zero p k v y h = tt
  terminate_process-Ended (suc fuel) p k v y h =
      elim (Bool-cases ((k.phase1.table p).p_pid == minus 1)) [
        | inl dead ↦ rw (dead, Ended) (Outlives-refl v y, λ e. absurd cc)
        | inr alive ↦
            let k1 = modify_pcb p (λ c. record c { p_pid = minus 1 }) k in
            let w : PlacedIn [] k1 = write-Placed k.phase1 p _ v refl refl refl in
            let m : ((k1.phase1.table p).p_pid ≡ minus 1) = ground arith in
            rw (alive, Ended)
              (finish_after p k (terminate_children fuel p k1) h alive
                (terminate_children-Childless fuel p k1 w y h m))
      ]

  terminate_children-Childless :
      (fuel p : ℕ) (k : Kernel)
      → PlacedIn [] k
      → k.yielded_process ≡ none
      → IsLive k.phase1 p
      → (k.phase1.table p).p_pid ≡ minus 1
      → Childless p k (terminate_children fuel p k)
  terminate_children-Childless zero p k v y h e = tt
  terminate_children-Childless (suc fuel) p k v y h e =
      let r = remove_child (some p) k.phase1 in
      let k1 = record k { phase1 = r.1 } in
      let taken = taken_child p k v y in
      elim (child_cases p k v) [
        | inl (n, f) ↦ rw (n, Childless) (Outlives-refl v y, f)
        | inr (c, n, live) ↦
            let only = remove_child-OnlyFamilies p k.phase1 in
            rw (n, Childless)
              (next_child p c k k1 (terminate_process fuel c k1)
                (λ k'. terminate_children fuel p k') taken
                (terminate_process-Ended fuel c k1 taken.placed y
                  (ap (occurs c) only.frees ∙ live.0, live.1))
                (λ t o.
                  let (i, m) = o.marked p h e in
                  terminate_children-Childless fuel p t o.placed o.yielder i m))
      ]

Ends-some : (k : Kernel) (r : Option Kernel) → Ends k r → r ≢ none
Ends-some k none h e = h
Ends-some k (some t) h e = cc

All_of_has : (l : List ℕ) → ((c : ℕ) → has c l ≡ true → c < max_proc) → All (λ c. c < max_proc) l
All_of_has [] h = tt
All_of_has (x ∷ l) h =
    (h x (let r = ==_refl x in ground (arith, r)), All_of_has l (λ c e. h c (ground (arith, e))))

-- Children are live, hence blocks of the table.
Placed-IsInside :
    {hand : List ℕ} {current yielder : Option ℕ} {ready : List ℕ} {active : List (Option ℕ)}
    (s : Phase1)
    → Placed hand current yielder ready active s
    → IsInside s.table
Placed-IsInside s v p = All_of_has (s.table p).p_child (λ c e. (v.kin p c (v.tree.owned p c e)).1.1)

-- Where each block is in one place and nobody has yielded, `terminateProcess` of a live block always
-- comes to an end. Then each block is in one place again and nobody has yielded; the current process is
-- the same or NULL; the block is free, unless it had the process id -1 before; and every live block that
-- had the process id -1 is still live and has it.
pub terminate-Ended :
    (p : ℕ) (k : Kernel)
    → PlacedIn [] k
    → k.yielded_process ≡ none
    → IsLive k.phase1 p
    → Ended p k (terminate p k) × (terminate p k ≢ none)
unfolding terminate
terminate-Ended p k v y h = (
  terminate_process-Ended _ p k v y h,
  Ends-some k _ (terminate-Ends p k h.1 (Placed-IsInside k.phase1 v)),
)
