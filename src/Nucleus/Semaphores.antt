-- ===== src/Nucleus/Semaphores.antt =====
-- V on the queues of the active semaphore list.
use pand_aossh.Prelude.{ℕ, ◌≡◌, refl, subst, true, ◌||◌, Option, List, ◌∷◌, arith, ◌==◌}
use pand_aossh.Prelude.Words.{is_neg, inc32}
use pand_aossh.Types.{Phase1}
use pand_aossh.Phase1.ProcQ.{insert_proc_q}
use pand_aossh.Phase1.Asl.{remove_blocked}
use pand_aossh.Phase1.Asl.Invariant.{IsAsl, IsAsl-table, queue, Replaces}
use pand_aossh.Phase1.Asl.Removal.{Pops, remove_blocked_lem}
use pand_aossh.Nucleus.Globals.{Kernel, pcb_of, copy_state, inc_mem, update_cpu_time}
use pand_aossh.Nucleus.Syscalls.{verhogen, release, wake}

-- A process left the queue of sem and joined the ready queue.
pub record Woken (sem u : ℕ) (rest : List ℕ) (k t : Kernel) : Type 0 where
  pub queues : Replaces sem rest k.phase1 t.phase1
  pub inv : IsAsl t.phase1
  pub ready : t.ready_queue ≡ insert_proc_q t.phase1.table u k.ready_queue
  pub free : (pcb_of t u).p_sem_add ≡ 0
  pub same : (t.mem ≡ k.mem) × (t.current_process ≡ k.current_process)

wake-Woken :
    (sem u : ℕ) (rest : List ℕ) (k : Kernel) (r : Option ℕ × Phase1)
    → Pops sem (u ∷ rest) k.phase1 r
    → Woken sem u rest k (wake r.0 (record k { phase1 = r.1 }))
unfolding wake
wake-Woken sem u rest k (r, s) (e, out) = rw e (record {
  queues = λ j. out.queues j;
  inv = IsAsl-table s _ out.inv;
  ready = refl;
  free = ground arith;
  same = (refl, refl);
})

-- A V that finds waiting processes takes the one that waited longest off the queue, and it joins
-- the ready queue; no other queue changes.
pub release-Woken :
    (sem u : ℕ) (rest : List ℕ) (k : Kernel)
    → IsAsl k.phase1
    → queue k.phase1 sem ≡ u ∷ rest
    → Woken sem u rest k (release sem k)
unfolding release
release-Woken sem u rest k v e = wake-Woken sem u rest k (remove_blocked sem k.phase1) (
    subst (λ q. Pops sem q k.phase1 (remove_blocked sem k.phase1)) e
      (remove_blocked_lem sem k.phase1 v))

-- The state in which VERHOGEN looks for a waiting process: the caller's state is saved, and the
-- semaphore is one higher.
abbrev pub signalled : ℕ → Kernel → Kernel
signalled p k = inc_mem k.saved_state.reg_a1 (copy_state p k.saved_state (update_cpu_time k))

signalled-mem :
    (p : ℕ) (k : Kernel)
    → (signalled p k).mem k.saved_state.reg_a1 ≡ inc32 (k.mem k.saved_state.reg_a1)
unfolding update_cpu_time
signalled-mem p k = ground arith

signalled-queues :
    (p : ℕ) (k : Kernel)
    → ((signalled p k).phase1.semd_h ≡ k.phase1.semd_h)
      × ((signalled p k).phase1.semd_free ≡ k.phase1.semd_free)
      × ((signalled p k).ready_queue ≡ k.ready_queue)
unfolding update_cpu_time
signalled-queues p k = ground arith

signalled-IsAsl : (p : ℕ) (k : Kernel) → IsAsl k.phase1 → IsAsl (signalled p k).phase1
signalled-IsAsl p k v =
    let q = signalled-queues p k in
    record {
      unique = rw q.0 v.unique;
      nonzero = rw q.0 v.nonzero;
      waiting = rw q.0 v.waiting;
      total = rw (q.0, q.1) v.total;
    }

-- VERHOGEN on a semaphore with waiting processes whose new value, as a signed word, is at most 0:
-- the value is one higher, the process that waited longest leaves the queue and joins the ready
-- queue, no other queue changes, and the running process stays.
pub verhogen_lem :
    (p u : ℕ) (rest : List ℕ) (k : Kernel)
    → IsAsl k.phase1
    → queue k.phase1 k.saved_state.reg_a1 ≡ u ∷ rest
    → (is_neg (inc32 (k.mem k.saved_state.reg_a1)) || (inc32 (k.mem k.saved_state.reg_a1) == 0))
      ≡ true
    → Woken k.saved_state.reg_a1 u rest (signalled p k) (verhogen p k).0
      × ((verhogen p k).0.mem k.saved_state.reg_a1 ≡ inc32 (k.mem k.saved_state.reg_a1))
unfolding verhogen
verhogen_lem p u rest k v e h =
    let sem = k.saved_state.reg_a1 in
    let k1 = signalled p k in
    let q = signalled-queues p k in
    let k1 = signalled p k in
    let w : Woken sem u rest k1 (release sem k1) =
      release-Woken sem u rest k1 (signalled-IsAsl p k v) (rw (signalled-queues p k).0 e) in
    let t : (is_neg (k1.mem sem) || (k1.mem sem == 0)) ≡ true = rw (signalled-mem p k) h in
    rw t (w, rw w.same.0 (signalled-mem p k))
