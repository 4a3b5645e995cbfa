-- ===== src/Nucleus/Clock.antt =====
-- The tick of the pseudo-clock: its loop ends, and everything that waits for the clock is ready.
use pand_aossh.Prelude.{
  ℕ, zero, suc, ◌+◌, ◌%◌, ◌≤◌, ◌<◌, ◌≡◌, refl, subst, ◌||◌, Option, none, some, List, [], ◌∷◌,
  arith, has, length,
}
use pand_aossh.Prelude.Words.{word_mod}
use pand_aossh.Types.{Semd, Phase1}
use pand_aossh.Phase1.ProcQ.Order.{has-insert_proc_q}
use pand_aossh.Phase1.Asl.{remove_blocked}
use pand_aossh.Phase1.Asl.Queues.{procq_of}
use pand_aossh.Phase1.Asl.Invariant.{IsAsl, IsAsl-table, queue, Replaces}
use pand_aossh.Phase1.Asl.Removal.{Pops, Released, remove_blocked_lem}
use pand_aossh.Nucleus.Globals.{Kernel, Outcome, out_of_fuel, dev_sem, pseudoclk_sem, store}
use pand_aossh.Nucleus.Syscalls.{make_ready}
use pand_aossh.Nucleus.Interrupts.{tick_one, tick_all, queued, interval_interrupt, resume, psecond}

-- The processes q left the queue of sem and joined the ready queue, and are soft-blocked no more.
pub record Ticked (sem : ℕ) (q : List ℕ) (k t : Kernel) : Type 0 where
  pub queues : Replaces sem [] k.phase1 t.phase1
  pub inv : IsAsl t.phase1
  pub ready : (a : ℕ) → has a t.ready_queue ≡ (has a q || has a k.ready_queue)
  pub count : (t.soft_block_count + length q) % word_mod ≡ k.soft_block_count % word_mod
  pub current : t.current_process ≡ k.current_process
  pub devices : t.dev_sems ≡ k.dev_sems

-- The loop ends in a state with the property.
abbrev pub Reaches : (Kernel → Type 0) → Option Kernel → Type 0
Reaches P none = ⊥
Reaches P (some t) = P t

Reaches-map :
    (P Q : Kernel → Type 0) (r : Option Kernel)
    → ((t : Kernel) → P t → Q t)
    → Reaches P r
    → Reaches Q r
Reaches-map P Q none f h = h
Reaches-map P Q (some t) f h = f t h

module _ (sem : ℕ) where
  nothing-Ticked : (k : Kernel) → IsAsl k.phase1 → queue k.phase1 sem ≡ [] → Ticked sem [] k k
  nothing-Ticked k v e = record {
    queues = λ j. ground arith;
    inv = v;
    ready = λ a. refl;
    count = ground arith;
    current = refl;
    devices = refl;
  }

  -- One turn of the loop.
  turn-Ticked :
      (p : ℕ) (rest : List ℕ) (k : Kernel) (u : Phase1) (t : Kernel)
      → Released sem p rest k.phase1 u
      → Ticked sem rest (tick_one p (record k { phase1 = u })) t
      → Ticked sem (p ∷ rest) k t
  unfolding tick_one
  turn-Ticked p rest k u t r h = record {
    queues = λ j. ground (arith, h.queues j, r.queues j);
    inv = h.inv;
    ready = λ a. ground (
      arith,
      h.ready a,
      has-insert_proc_q (make_ready p (tick_one p (record k { phase1 = u }))).phase1.table a p
          k.ready_queue,
    );
    count = ground (arith, h.count);
    current = h.current;
    devices = h.devices;
  }

tick_one-IsAsl : (p : ℕ) (k : Kernel) → IsAsl k.phase1 → IsAsl (tick_one p k).phase1
unfolding tick_one
tick_one-IsAsl p k v = IsAsl-table k.phase1 (tick_one p k).phase1.table v

turn-queue :
    (sem p : ℕ) (rest : List ℕ) (k : Kernel) (u : Phase1)
    → Released sem p rest k.phase1 u
    → queue (tick_one p (record k { phase1 = u })).phase1 sem ≡ rest
unfolding tick_one
turn-queue sem p rest k u r = ground (arith, r.queues sem)

pub tick_all_lem :
    (fuel : ℕ) (k : Kernel) (q : List ℕ)
    → IsAsl k.phase1
    → queue k.phase1 (dev_sem k pseudoclk_sem) ≡ q
    → length q < fuel
    → Reaches (Ticked (dev_sem k pseudoclk_sem) q k) (tick_all fuel k)
unfolding tick_all tick_one
tick_all_lem zero k q v e f = absurd (omega arith)
tick_all_lem (suc fuel) k [] v e f =
    let sem = dev_sem k pseudoclk_sem in
    let r =
      subst (λ q. Pops sem q k.phase1 (remove_blocked sem k.phase1)) e
        (remove_blocked_lem sem k.phase1 v) in
    rw (r.0, Reaches) (nothing-Ticked sem k v e)
tick_all_lem (suc fuel) k (p ∷ rest) v e f =
    let sem = dev_sem k pseudoclk_sem in
    let (h, r) =
      subst (λ q. Pops sem q k.phase1 (remove_blocked sem k.phase1)) e
        (remove_blocked_lem sem k.phase1 v) in
    let u = (remove_blocked sem k.phase1).1 in
    let k1 = tick_one p (record k { phase1 = u }) in
    rw (h, Reaches)
      (Reaches-map (Ticked sem rest k1) (Ticked sem (p ∷ rest) k) (tick_all fuel k1)
        (λ t. turn-Ticked sem p rest k u t r)
        (tick_all_lem fuel k1 rest (tick_one-IsAsl p (record k { phase1 = u }) r.inv)
          (turn-queue sem p rest k u r) (omega arith)))

pub procq_of-queued : (sem : ℕ) (l : List Semd) → length (procq_of sem l) ≤ queued l
unfolding procq_of queued
procq_of-queued sem [] = omega arith
procq_of-queued sem (s ∷ rest) = ground (arith, procq_of-queued sem rest)

-- What the interval timer does: the loop ended in t, the clock's semaphore is 0, and then the
-- interrupted process goes on, or another is chosen.
abbrev pub Ticks : Kernel → Kernel × Outcome → Type 0
Ticks k r =
    (t : Kernel) × Ticked (dev_sem k pseudoclk_sem) (queue k.phase1 (dev_sem k pseudoclk_sem)) k t
    × (r ≡ resume (store (dev_sem t pseudoclk_sem) 0 t))

-- With the invariant of the active semaphore list, the interval timer's loop always ends: all
-- processes that waited for the clock are ready and count as soft-blocked no more, nothing waits
-- for the clock, and no other queue changed. Then the clock's semaphore is 0, and the interrupted
-- process goes on, or the scheduler chooses one.
pub interval_interrupt_lem : (k : Kernel) → IsAsl k.phase1 → Ticks k (interval_interrupt k)
unfolding interval_interrupt
interval_interrupt_lem k v =
    let k1 = record k { interval = psecond } in
    let sem = dev_sem k pseudoclk_sem in
    after (tick_all (suc (queued k.phase1.semd_h)) k1) (
      tick_all_lem (suc (queued k.phase1.semd_h)) k1 (queue k.phase1 sem) v refl
        (omega (arith, procq_of-queued sem k.phase1.semd_h)))
  where
    after :
        (r : Option Kernel)
        → Reaches
            (Ticked
              (dev_sem k pseudoclk_sem)
              (queue k.phase1 (dev_sem k pseudoclk_sem))
              (record k { interval = psecond }))
            r
        → Ticks k (elim r [
          | none ↦ (k, out_of_fuel)
          | some k2 ↦ resume (store (dev_sem k2 pseudoclk_sem) 0 k2)
        ])
    after none h = absurd h
    after (some t) h = (
      t,
      record {
        queues = h.queues;
        inv = h.inv;
        ready = h.ready;
        count = h.count;
        current = h.current;
        devices = h.devices;
      },
      refl,
    )
