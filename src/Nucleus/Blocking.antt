-- ===== src/Nucleus/Blocking.antt =====
-- P on a semaphore: the caller that has to wait joins the end of the semaphore's queue.
use pand_aossh.Prelude.{
  ℕ, ◌≡◌, refl, Bool, true, false, none, some, [], ◌∷◌, ◌++◌, arith, ◌==◌, if◌then◌else◌, inl, inr,
  ◌⊎◌, length, subst, ap, ◌∙◌,
}
use pand_aossh.Prelude.Words.{is_neg, dec32}
use pand_aossh.Phase1.Pcb.{max_proc}
use pand_aossh.Phase1.Asl.Invariant.{IsAsl, IsAsl-table, queue, Replaces, insert_blocked_lem}
use pand_aossh.Nucleus.Globals.{
  Kernel, Outcome, ldst, panic, pcb_of, modify_pcb, copy_state, dec_mem, update_cpu_time, charge,
}
use pand_aossh.Nucleus.Scheduler.{scheduler}
use pand_aossh.Nucleus.Process.{block, block_current_process}
use pand_aossh.Nucleus.Syscalls.{passeren}

-- The state in which PASSEREN looks at the semaphore: the caller's state is saved, and the
-- semaphore is one lower.
abbrev pub lowered : ℕ → Kernel → Kernel
lowered p k = dec_mem k.saved_state.reg_a1 (copy_state p k.saved_state (update_cpu_time k))

lowered-same :
    (p : ℕ) (k : Kernel)
    → ((lowered p k).mem k.saved_state.reg_a1 ≡ dec32 (k.mem k.saved_state.reg_a1))
      × ((lowered p k).current_process ≡ k.current_process)
      × ((lowered p k).phase1.semd_h ≡ k.phase1.semd_h)
      × ((lowered p k).phase1.semd_free ≡ k.phase1.semd_free)
unfolding update_cpu_time
lowered-same p k = ground arith

lowered-IsAsl : (p : ℕ) (k : Kernel) → IsAsl k.phase1 → IsAsl (lowered p k).phase1
lowered-IsAsl p k v =
    let q = lowered-same p k in
    record {
      unique = rw q.2 v.unique;
      nonzero = rw q.2 v.nonzero;
      waiting = rw q.2 v.waiting;
      total = rw (q.2, q.3) v.total;
    }

-- The process p is at the end of the queue of sem, and no process runs.
pub record Parked (sem p : ℕ) (k t : Kernel) : Type 0 where
  pub queues : Replaces sem (queue k.phase1 sem ++ p ∷ []) k.phase1 t.phase1
  pub inv : IsAsl t.phase1
  pub idle : t.current_process ≡ none
  pub value : t.mem ≡ k.mem

-- The process p was to wait on sem.
abbrev pub Blocks : (sem p : ℕ) → Kernel → Kernel → Type 0
Blocks sem p k t =
    Parked sem p k t ⊎ ((length k.phase1.semd_h ≡ max_proc) × (queue k.phase1 sem ≡ []))

block_lem :
    (sem p : ℕ) (k : Kernel) → IsAsl k.phase1 → (sem == 0) ≡ false → Blocks sem p k (block sem p k)
unfolding block charge
block_lem sem p k v z =
    let s1 = (modify_pcb p (λ c. record c { p_sem_add = sem }) (charge p k)).phase1 in
    elim (insert_blocked_lem s1 (IsAsl-table k.phase1 s1.table v) sem p z) [
      | inl (_, q) ↦ inl (record { queues = q.queues; inv = q.inv; idle = refl; value = refl })
      | inr (_, r) ↦ inr (r.exhausted, r.empty)
    ]

-- What PASSEREN does: it blocks the caller, or the caller goes on with its saved state.
abbrev pub Passes : (negative : Bool) → (sem p : ℕ) → Kernel → Kernel × Outcome → Type 0
Passes true sem p k r = (t : Kernel) × Blocks sem p k t × (r ≡ scheduler t)
Passes false sem p k r = r ≡ (k, ldst (pcb_of k p).p_s)

block_current_process-block :
    (sem p : ℕ) (k : Kernel)
    → k.current_process ≡ some p
    → block_current_process sem k ≡ scheduler (block sem p k)
unfolding block_current_process
block_current_process-block sem p k c =
    ap (λ o. elim o [ none ↦ (k, panic) | some q ↦ scheduler (block sem q k) ]) c

choose :
    (negative : Bool) (sem p : ℕ) (k : Kernel)
    → IsAsl k.phase1
    → k.current_process ≡ some p
    → (sem == 0) ≡ false
    → Passes negative sem p k
        (if negative then block_current_process sem k else (k, ldst (pcb_of k p).p_s))
choose true sem p k v c z =
    (block sem p k, block_lem sem p k v z, block_current_process-block sem p k c)
choose false sem p k v c z = refl

-- With the invariant of the active semaphore list and a semaphore that is not NULL, PASSEREN lowers
-- the semaphore by one. If the value is then negative, the caller joins the end of its queue, no
-- other queue changes, and the scheduler chooses a process; the one exception is an active
-- semaphore list with no descriptor left. Otherwise the caller goes on.
pub passeren_lem :
    (p : ℕ) (k : Kernel)
    → IsAsl k.phase1
    → k.current_process ≡ some p
    → (k.saved_state.reg_a1 == 0) ≡ false
    → Passes
        (is_neg (dec32 (k.mem k.saved_state.reg_a1)))
        k.saved_state.reg_a1
        p
        (lowered p k)
        (passeren p k)
unfolding passeren
passeren_lem p k v c z =
    let sem = k.saved_state.reg_a1 in
    let k1 = lowered p k in
    let same = lowered-same p k in
    subst (λ m. Passes (is_neg m) sem p k1 (passeren p k)) same.0
      (choose (is_neg (k1.mem sem)) sem p k1 (lowered-IsAsl p k v) (same.1 ∙ c) z)
