-- ===== src/Nucleus/Places/Moves.antt =====
-- The ways between the places: the ready queue and the semaphores.
use pand_aossh.Prelude.{
  ℕ, ◌+◌, ◌≤◌, ◌≡◌, refl, ap, ◌∙◌, Option, List, [], ◌∷◌, ◌++◌, arith, ◌==◌, if◌then◌else◌, inl,
  inr, Bool-cases, ==→eq,
}
use pand_aossh.Prelude.Counts.{one, occurs, occurs-append}
use pand_aossh.Types.{Pcb, Phase1}
use pand_aossh.Phase1.ProcQ.{insert_proc_q}
use pand_aossh.Phase1.Asl.Queues.{procq_of_absent}
use pand_aossh.Phase1.Asl.Invariant.{IsAsl, queue}
use pand_aossh.Phase1.Asl.Removal.{Released}
use pand_aossh.Nucleus.Places.{Placed, step-Placed, move-Placed, waiting, inside}

pub occurs-insert_proc_q :
    (a : ℕ) (table : ℕ → Pcb) (p : ℕ) (q : List ℕ)
    → occurs a (insert_proc_q table p q) ≡ one p a + occurs a q
unfolding insert_proc_q
occurs-insert_proc_q a table p [] = refl
occurs-insert_proc_q a table p (iter ∷ rest) = ground (arith, occurs-insert_proc_q a table p rest)

-- No semaphore is NULL.
pub queue_null : (s : Phase1) → IsAsl s → queue s 0 ≡ []
queue_null s v = procq_of_absent 0 s.semd_h v.nonzero

inside_le : (a : ℕ) → inside a ≤ 1
inside_le a = ground arith

module _ {hand : List ℕ} {current yielder : Option ℕ} {ready : List ℕ} {active : List (Option ℕ)}
    (s : Phase1) where
  pub ready-Placed :
      (table : ℕ → Pcb) (p : ℕ)
      → Placed (p ∷ hand) current yielder ready active s
      → Placed hand current yielder (insert_proc_q table p ready) active s
  ready-Placed table p v =
      move-Placed v (λ a. let e = occurs-insert_proc_q a table p ready in omega (arith, e))

  pub tail-Placed :
      (p : ℕ)
      → Placed (p ∷ hand) current yielder ready active s
      → Placed hand current yielder (ready ++ p ∷ []) active s
  tail-Placed p v = move-Placed v (λ a. let e = occurs-append a ready (p ∷ []) in omega (arith, e))

  waiting_le : (a : ℕ) → Placed hand current yielder ready active s → waiting s a ≤ 1
  waiting_le a v = omega (arith, v.place a, inside_le a)

  -- A block that leaves a semaphore's queue is in hand.
  pub Released-Placed :
      (sem p : ℕ) (q : List ℕ) (t : Phase1)
      → Placed hand current yielder ready active s
      → Released sem p q s t
      → ((a : ℕ) → occurs a q + one p a ≡ occurs a (queue s sem))
      → t.pcb_free ≡ s.pcb_free
      → Placed (p ∷ hand) current yielder ready active t
  Released-Placed sem p q t v r took free_same =
      let at : (a : ℕ) → (t.table a).p_sem_add ≡ (if a == p then 0 else (s.table a).p_sem_add) =
        λ a. ap (λ (f : ℕ → Pcb). (f a).p_sem_add) r.table ∙ ground arith in
      let own : (s.table p).p_sem_add ≡ sem = v.named p sem (let e = took p in ground (arith, e)) in
      step-Placed s t v r.inv
        (λ a j h.
          let q_j = r.queues j in
          let e = took a in
          let w = waiting_le a v in
          let n : occurs a (queue t j) ≡ occurs a (if j == sem then q else queue s j) =
            ap (occurs a) q_j in
          let m = at a in ground (arith, v.named a j, n, m, e, w, own))
        (record {
          parents = λ a. ap (λ (f : ℕ → Pcb). (f a).p_parent) r.table ∙ ground arith;
          lists = λ a. ap (λ (f : ℕ → Pcb). (f a).p_child) r.table ∙ ground arith;
        })
        free_same
        (λ a.
          let n : (j : ℕ) → occurs a (queue t j) ≡ occurs a (if j == sem then q else queue s j) =
            λ j. ap (occurs a) (r.queues j) in
          let zero_t : occurs a (queue t 0) ≡ 0 = ap (occurs a) (queue_null t r.inv) in
          let e = took a in
          let w = waiting_le a v in
          let gone : waiting t a + one p a ≡ waiting s a = elim (Bool-cases (a == p)) [
            | inl here ↦
                let same = ==→eq a p here in
                let s_a : (s.table a).p_sem_add ≡ sem =
                  ap (λ b. (s.table b).p_sem_add) same ∙ own in
                let t_a : (t.table a).p_sem_add ≡ 0 =
                  at a ∙ ap (λ b. if b then 0 else (s.table a).p_sem_add) here in
                let w_s : waiting s a ≡ occurs a (queue s sem) =
                  ap (λ j. occurs a (queue s j)) s_a in
                let w_t : waiting t a ≡ occurs a (queue t 0) = ap (λ j. occurs a (queue t j)) t_a in
                ground (arith, w_s, w_t, zero_t, e, w, same)
            | inr away ↦
                let sem_a : ℕ = (s.table a).p_sem_add in
                let t_a : (t.table a).p_sem_add ≡ sem_a =
                  at a ∙ ap (λ b. if b then 0 else sem_a) away in
                let w_t : waiting t a ≡ occurs a (queue t sem_a) =
                  ap (λ j. occurs a (queue t j)) t_a in
                let m = n sem_a in ground (arith, w_t, m, e, w, away)
          ] in
          omega (arith, gone))
