-- ===== src/Nucleus/Scheduler/Choice.antt =====
-- Which process the scheduler loads, and what it does when there is none.
use pand_aossh.Prelude.{
  ℕ, ◌*◌, ◌%◌, ◌≡◌, refl, sym, subst, Bool, false, ◌||◌, Option, none, some, List, [], ◌∷◌, arith,
  ◌==◌, if◌then◌else◌, inl, inr, All, has, Bool-cases,
}
use pand_aossh.Prelude.Words.{slt, word_mod}
use pand_aossh.Phase1.ProcQ.{insert_proc_q}
use pand_aossh.Phase1.ProcQ.Order.{
  NotBelow, IsOrdered, insert_proc_q-IsOrdered, has-insert_proc_q, insert_proc_q-behind,
  All-NotBelow,
}
use pand_aossh.Nucleus.Globals.{Kernel, Outcome, ldst, halt, wait, panic, pcb_of}
use pand_aossh.Nucleus.Scheduler.{
  scheduler, dispatch, idle, run_ready, resume_yielder, timeslice, timescaleaddr,
}

-- The processes that may run: the ready queue, and the one that has just yielded.
abbrev pub candidate : Kernel → ℕ → Bool
candidate k q = has q k.ready_queue || (elim k.yielded_process [ none ↦ false | some y ↦ q == y ])

-- The process p is loaded, and the others stay in an ordered queue, none of them above p.
pub record Loads (k : Kernel) (p : ℕ) (r : Kernel × Outcome) : Type 0 where
  pub current : r.0.current_process ≡ some p
  pub loaded : r.1 ≡ ldst (pcb_of k p).p_s
  pub slice : r.0.timer ≡ (timeslice * k.mem timescaleaddr) % word_mod
  pub no_yielder : r.0.yielded_process ≡ none
  pub ordered : IsOrdered k.phase1.table r.0.ready_queue
  pub highest : All (λ q. NotBelow k.phase1.table p q) r.0.ready_queue
  pub split : (q : ℕ) → candidate k q ≡ ((q == p) || has q r.0.ready_queue)

-- Nothing can run.
abbrev pub Idles : Kernel → Kernel × Outcome → Type 0
Idles k (t, o) =
    (t.current_process ≡ none)
    × (o
        ≡ (if k.process_count == 0 then halt else if slt 0 k.soft_block_count then wait else panic))

dispatch-Loads :
    (k t : Kernel) (p : ℕ)
    → t.phase1 ≡ k.phase1
    → t.mem ≡ k.mem
    → t.yielded_process ≡ none
    → IsOrdered k.phase1.table t.ready_queue
    → All (λ q. NotBelow k.phase1.table p q) t.ready_queue
    → ((q : ℕ) → candidate k q ≡ ((q == p) || has q t.ready_queue))
    → Loads k p (dispatch p t)
unfolding dispatch
dispatch-Loads k t p s m y o h c = record {
  current = refl;
  loaded = rw s;
  slice = rw m;
  no_yielder = y;
  ordered = o;
  highest = h;
  split = c;
}

-- What the scheduler does with a queue and a yielder.
abbrev pub Schedules : (yielder : Option ℕ) → List ℕ → Kernel → Kernel × Outcome → Type 0
Schedules none [] k r = Idles k r
Schedules _ _ k r = (p : ℕ) × Loads k p r

scheduler_none :
    (q : List ℕ) (k : Kernel)
    → k.ready_queue ≡ q
    → k.yielded_process ≡ none
    → IsOrdered k.phase1.table q
    → Schedules none q k (run_ready q k)
unfolding run_ready idle
scheduler_none [] k e y o = ground arith
scheduler_none (p ∷ rest) k e y o = (
  p,
  dispatch-Loads k (record k { ready_queue = rest }) p refl refl y o.1 o.0 (λ q. ground arith),
)

scheduler_some :
    (y : ℕ) (q : List ℕ) (k : Kernel)
    → k.ready_queue ≡ q
    → k.yielded_process ≡ some y
    → IsOrdered k.phase1.table q
    → Schedules (some y) q k (resume_yielder y q (record k { yielded_process = none }))
unfolding resume_yielder
scheduler_some y [] k e c o =
    let t = record k { yielded_process = none } in
    (y, dispatch-Loads k t y refl refl refl (rw e tt) (rw e tt) (λ q. ground arith))
scheduler_some y (p ∷ rest) k e c o =
    elim (Bool-cases (slt (pcb_of k p).p_prio (pcb_of k y).p_prio)) [
      | inl below ↦ rw below (
        y,
        dispatch-Loads k (record k { yielded_process = none }) y refl refl refl
            (subst (IsOrdered k.phase1.table) (sym e) o)
            (subst (All (λ q. NotBelow k.phase1.table y q)) (sym e)
              (ground arith, All-NotBelow k.phase1.table y p rest below o.0))
            (λ q. ground arith),
      )
      | inr above ↦
          let queue = insert_proc_q k.phase1.table y rest in
          let front = insert_proc_q-behind k.phase1.table y p rest above in
          let o' : IsOrdered k.phase1.table (p ∷ queue) =
            subst (IsOrdered k.phase1.table) front
              (insert_proc_q-IsOrdered k.phase1.table y (p ∷ rest) o) in
          rw (above, front)
            (
              p,
              dispatch-Loads k (record k { ready_queue = queue; yielded_process = none }) p refl
                  refl refl o'.1 o'.0
                  (λ q. ground (arith, has-insert_proc_q k.phase1.table q y rest)),
            )
    ]

-- With an ordered ready queue the scheduler loads a process for a full time slice of
-- 5000000 times the word at TIMESCALEADDR, and no other
-- process that may run, the yielder included, is above it; the others stay in an ordered queue. If
-- none may run it halts when no process is left, waits when some are soft-blocked, and panics
-- otherwise.
pub scheduler_lem :
    (k : Kernel)
    → IsOrdered k.phase1.table k.ready_queue
    → Schedules k.yielded_process k.ready_queue k (scheduler k)
unfolding scheduler
scheduler_lem k o = go k.yielded_process refl
  where
    go :
        (y : Option ℕ)
        → k.yielded_process ≡ y
        → Schedules y k.ready_queue k (elim y [
          | none ↦ run_ready k.ready_queue k
          | some y ↦ resume_yielder y k.ready_queue (record k { yielded_process = none })
        ])
    go none e = scheduler_none k.ready_queue k refl e o
    go (some y) e = scheduler_some y k.ready_queue k refl e o

-- A process that yields gives way: if a ready process is not below it, the one at the head of the
-- ready queue is loaded, and the yielder waits behind all ready processes that are not below it.
pub yield_gives_way :
    (k : Kernel) (y p : ℕ) (rest : List ℕ)
    → k.yielded_process ≡ some y
    → k.ready_queue ≡ p ∷ rest
    → NotBelow k.phase1.table p y
    → ((scheduler k).0.current_process ≡ some p)
      × ((scheduler k).0.ready_queue ≡ insert_proc_q k.phase1.table y rest)
unfolding scheduler resume_yielder run_ready dispatch
yield_gives_way k y p rest e q h = ground (arith, insert_proc_q-behind k.phase1.table y p rest h)
