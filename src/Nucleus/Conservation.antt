-- ===== src/Nucleus/Conservation.antt =====
-- No process control block is lost: those that are free and those that `processCount` counts.
pub mod Calls
pub mod Traps
use pand_aossh.Prelude.{
  ℕ, zero, suc, ◌+◌, ◌%◌, ◌≡◌, ◌≢◌, refl, ◌∙◌, Bool, true, false, ◌||◌, Option, none, some, List,
  [], ◌∷◌, ◌++◌, arith, ◌==◌, if◌then◌else◌, length, length-append, inl, inr, ◌⊎◌, Option-cases,
  Bool-cases, ap,
}
use pand_aossh.Prelude.Words.{word_mod, inc32, dec32, minus}
use pand_aossh.Types.{Pcb, Semd, Phase1}
use pand_aossh.Phase1.Pcb.{out_child, remove_child, free_pcb, alloc_pcb, insert_child}
use pand_aossh.Phase1.Asl.{insert_blocked, remove_blocked, out_blocked, shrink}
use pand_aossh.Nucleus.Globals.{
  Kernel, Outcome, panic, update_cpu_time, charge, active_procs_remove, modify_pcb,
}
use pand_aossh.Nucleus.Scheduler.{scheduler, idle, dispatch}
use pand_aossh.Nucleus.Process.{
  block, block_current_process, unblock, finish, terminate_process, terminate_children, terminate,
  and_then,
}
use pand_aossh.Nucleus.PassUp.{die, pass_up, pass_up_or_die}

-- The blocks that are free or counted, as a word.
abbrev pub slots : Kernel → ℕ
slots k = (k.process_count + length k.phase1.pcb_free) % word_mod

-- Neither the free list nor the count changed.
abbrev pub Same : Kernel → Kernel → Type 0
Same k t = (t.phase1.pcb_free ≡ k.phase1.pcb_free) × (t.process_count ≡ k.process_count)

pub Same-slots : (k t : Kernel) → Same k t → slots t ≡ slots k
Same-slots k t h = rw (h.0, h.1)

pub out_child-free : (p : ℕ) (s : Phase1) → (out_child (some p) s).1.pcb_free ≡ s.pcb_free
unfolding out_child
out_child-free p s = ground arith

pub remove_child-free : (p : ℕ) (s : Phase1) → (remove_child (some p) s).1.pcb_free ≡ s.pcb_free
unfolding remove_child
remove_child-free p s = ground arith

shrink-free :
    (sem : ℕ) (d : Semd) (q : List ℕ) (s : Phase1) → (shrink sem d q s).pcb_free ≡ s.pcb_free
unfolding shrink
shrink-free sem d [] s = refl
shrink-free sem d (x ∷ q) s = refl

pub insert_blocked-free :
    (sem p : ℕ) (s : Phase1) → (insert_blocked sem (some p) s).1.pcb_free ≡ s.pcb_free
unfolding insert_blocked
insert_blocked-free sem p s = ground arith

pub remove_blocked-free : (sem : ℕ) (s : Phase1) → (remove_blocked sem s).1.pcb_free ≡ s.pcb_free
unfolding remove_blocked
remove_blocked-free sem s = grind (arith, shrink-free)

pub out_blocked-free : (p : ℕ) (s : Phase1) → (out_blocked (some p) s).1.pcb_free ≡ s.pcb_free
unfolding out_blocked
out_blocked-free p s = grind (arith, shrink-free)

pub scheduler-Same : (k : Kernel) → Same k (scheduler k).0
unfolding scheduler idle dispatch
scheduler-Same k = ground arith

pub block-Same : (sem p : ℕ) (k : Kernel) → Same k (block sem p k)
unfolding block
block-Same sem p k = (insert_blocked-free sem p _, refl)

pub update_cpu_time-Same : (k : Kernel) → Same k (update_cpu_time k)
unfolding update_cpu_time
update_cpu_time-Same k = ground arith

pub unblock-Same : (p : ℕ) (k : Kernel) → Same k (unblock p k)
unfolding unblock
unblock-Same p k = ground (arith, out_blocked-free p k.phase1)

finish-slots : (p : ℕ) (k : Kernel) → slots (finish p k) ≡ slots k
unfolding finish free_pcb
finish-slots p k =
    let k1 = record k {
      phase1 = (out_child (some p) k.phase1).1;
      active_procs = active_procs_remove p k.active_procs;
    } in
    omega (
      arith,
      length-append {0} (unblock p k1).phase1.pcb_free (p ∷ []),
      (unblock-Same p k1).1,
      ap {B = ℕ} length ((unblock-Same p k1).0 ∙ out_child-free p k.phase1),
    )

-- A result of the recursion, if there is one, keeps the slots.
abbrev pub Keeps : Kernel → Option Kernel → Type 0
Keeps k none = Unit {0}
Keeps k (some t) = slots t ≡ slots k

pub Keeps-trans : (k t : Kernel) (r : Option Kernel) → slots t ≡ slots k → Keeps t r → Keeps k r
Keeps-trans k t none e h = tt
Keeps-trans k t (some u) e h = h ∙ e

and_then-Keeps :
    (k : Kernel) (r : Option Kernel) (f : Kernel → Option Kernel)
    → Keeps k r
    → ((t : Kernel) → Keeps t (f t))
    → Keeps k (and_then r f)
and_then-Keeps k none f h next = tt
and_then-Keeps k (some t) f h next = Keeps-trans k t (f t) h (next t)

mutual
  unfolding terminate_process terminate_children

  terminate_process-Keeps : (fuel p : ℕ) (k : Kernel) → Keeps k (terminate_process fuel p k)
  terminate_process-Keeps zero p k = tt
  terminate_process-Keeps (suc fuel) p k = elim (Bool-cases ((k.phase1.table p).p_pid == minus 1)) [
    | inl dead ↦ rw (dead, Keeps) refl
    | inr alive ↦
        rw (alive, Keeps)
          (and_then-Keeps k _ (λ k'. some (finish p k'))
            (terminate_children-Keeps fuel p (modify_pcb p (λ c. record c { p_pid = minus 1 }) k))
            (λ t. finish-slots p t))
  ]

  terminate_children-Keeps : (fuel p : ℕ) (k : Kernel) → Keeps k (terminate_children fuel p k)
  terminate_children-Keeps zero p k = tt
  terminate_children-Keeps (suc fuel) p k = elim (Option-cases (remove_child (some p) k.phase1).0) [
    | inl e ↦ rw (e, Keeps) refl
    | inr (child, e) ↦
        let k1 = record k { phase1 = (remove_child (some p) k.phase1).1 } in
        let same = Same-slots k k1 (remove_child-free p k.phase1, refl) in
        rw (e, Keeps)
          (and_then-Keeps k _ (λ k'. terminate_children fuel p k')
            (Keeps-trans k k1 _ same (terminate_process-Keeps fuel child k1))
            (λ t. terminate_children-Keeps fuel p t))
  ]

pub terminate-Keeps : (p : ℕ) (k : Kernel) → Keeps k (terminate p k)
unfolding terminate
terminate-Keeps p k = terminate_process-Keeps _ p k

-- A handler that does not stop the machine keeps the slots.
abbrev pub Kept : Kernel → Kernel × Outcome → Type 0
Kept k (t, o) = (o ≡ panic) ⊎ (slots t ≡ slots k)

pub Kept-trans : (k t : Kernel) (r : Kernel × Outcome) → slots t ≡ slots k → Kept t r → Kept k r
Kept-trans k t r e h = ground arith

pub scheduler-Kept : (k t : Kernel) → slots t ≡ slots k → Kept k (scheduler t)
scheduler-Kept k t e = inr (Same-slots t (scheduler t).0 (scheduler-Same t) ∙ e)
