-- ===== src/Nucleus/Completion.antt =====
-- The V that a device interrupt makes, and the order of the ready queue after it.
use pand_aossh.Prelude.{
  ℕ, ◌+◌, ◌-◌, ◌*◌, ◌%◌, ◌≡◌, ◌≢◌, refl, sym, subst, Bool, true, false, ◌==◌, eq→==, Option, List,
  [], ◌∷◌, ◌++◌, arith, if◌then◌else◌, has, All,
}
use pand_aossh.Prelude.Words.{is_neg, dec32}
use pand_aossh.Types.{Pcb, Phase1}
use pand_aossh.Phase1.ProcQ.{insert_proc_q}
use pand_aossh.Phase1.ProcQ.Order.{IsOrdered, Below, NotBelow}
use pand_aossh.Phase1.Asl.{remove_blocked}
use pand_aossh.Phase1.Asl.Invariant.{IsAsl, IsAsl-table, queue, Replaces}
use pand_aossh.Phase1.Asl.Removal.{Pops, remove_blocked_lem}
use pand_aossh.Nucleus.Globals.{Kernel, pcb_of, dev_sem, dev_sem_base, inc_mem, store}
use pand_aossh.Nucleus.Interrupts.{deliver, complete, device_interrupt, terminal_interrupt}

-- The process u left the queue of sem with the status word of the device as its result, and joined
-- the ready queue: at its end for the transmitter, by its priority otherwise.
pub record Delivered (tail : Bool) (sem status u : ℕ) (rest : List ℕ) (k t : Kernel) : Type 0 where
  pub queues : Replaces sem rest k.phase1 t.phase1
  pub inv : IsAsl t.phase1
  pub ready :
      t.ready_queue
      ≡ (if tail then k.ready_queue ++ u ∷ [] else insert_proc_q t.phase1.table u k.ready_queue)
  pub result : ((pcb_of t u).p_s.reg_a0 ≡ status) × ((pcb_of t u).p_sem_add ≡ 0)
  pub blocked : t.soft_block_count ≡ dec32 k.soft_block_count
  pub current : t.current_process ≡ k.current_process
  pub mem : t.mem ≡ k.mem

deliver-Delivered :
    (tail : Bool) (sem status u : ℕ) (rest : List ℕ) (k : Kernel) (r : Option ℕ × Phase1)
    → Pops sem (u ∷ rest) k.phase1 r
    → Delivered tail sem status u rest k (deliver tail status r.0 (record k { phase1 = r.1 }))
unfolding deliver
deliver-Delivered tail sem status u rest k (r, s) (e, out) = rw e (record {
  queues = λ j. out.queues j;
  inv = IsAsl-table s _ out.inv;
  ready = refl;
  result = ground arith;
  blocked = refl;
  current = refl;
  mem = refl;
})

-- The V of an interrupt, with the invariant of the active semaphore list, on a negative semaphore with
-- waiting processes: the semaphore is one higher, the process that waited longest gets the device's
-- status word and is ready and soft-blocked no more, and no other queue changes.
complete_lem :
    (tail : Bool) (index status u : ℕ) (rest : List ℕ) (k : Kernel)
    → IsAsl k.phase1
    → is_neg (k.mem (dev_sem k index)) ≡ true
    → queue k.phase1 (dev_sem k index) ≡ u ∷ rest
    → Delivered tail
        (dev_sem k index)
        status
        u
        rest
        (inc_mem (dev_sem k index) k)
        (complete tail index status k)
unfolding complete
complete_lem tail index status u rest k v low e =
    let sem = dev_sem k index in
    rw low (
      deliver-Delivered tail sem status u rest (inc_mem sem k) (remove_blocked sem k.phase1) (
        subst (λ q. Pops sem q k.phase1 (remove_blocked sem k.phase1)) e
          (remove_blocked_lem sem k.phase1 v)))

last-All : (P : ℕ → Type 0) (u : ℕ) (xs : List ℕ) → All P (xs ++ u ∷ []) → P u
last-All P u [] h = h.0
last-All P u (x ∷ xs) h = last-All P u xs h.1

last-IsOrdered :
    (table : ℕ → Pcb) (p u : ℕ) (xs : List ℕ)
    → has p xs ≡ true
    → Below table p u
    → IsOrdered table (xs ++ u ∷ [])
    → ⊥
last-IsOrdered table p u [] h b o = ground arith
last-IsOrdered table p u (x ∷ xs) h b o = ground (
  arith,
  last-All (NotBelow table x) u xs o.0,
  λ (e : has p xs ≡ true). last-IsOrdered table p u xs e b o.1,
)

-- The status of the device at line and dev is the first word of its four registers.
abbrev register : (line dev : ℕ) → ℕ
register line dev = 0x1000_0054 + (line - 3) * 0x80 + dev * 0x10

-- An interrupt of the device dev on a line below the terminals', with the invariant of the active
-- semaphore list, when its semaphore, the one at 8 * (line - 3) + dev, is negative with waiting
-- processes behind the acknowledgement: the command register has the ACK, the semaphore is one higher,
-- the process that waited longest gets the first word of the device's registers and is ready and
-- soft-blocked no more, and no other queue changes.
pub device_interrupt_lem :
    (line dev u : ℕ) (rest : List ℕ) (k : Kernel)
    → IsAsl k.phase1
    → is_neg ((store (register line dev + 4) k.ack k).mem (dev_sem k (8 * (line - 3) + dev))) ≡ true
    → queue k.phase1 (dev_sem k (8 * (line - 3) + dev)) ≡ u ∷ rest
    → Delivered false
        (dev_sem k (8 * (line - 3) + dev))
        (k.mem (register line dev))
        u
        rest
        (inc_mem (dev_sem k (8 * (line - 3) + dev)) (store (register line dev + 4) k.ack k))
        (device_interrupt line dev k)
unfolding device_interrupt
device_interrupt_lem line dev u rest k v low e =
    let same : 8 * (line - 3) + dev ≡ dev_sem_base line dev = omega arith in
    let k0 = store (register line dev + 4) k.ack k in
    let at : is_neg (k0.mem (dev_sem k0 (dev_sem_base line dev))) ≡ true =
      subst (λ i. is_neg (k0.mem (dev_sem k i)) ≡ true) same low in
    let waiting : queue k0.phase1 (dev_sem k0 (dev_sem_base line dev)) ≡ u ∷ rest =
      subst (λ i. queue k.phase1 (dev_sem k i) ≡ u ∷ rest) same e in
    subst
      (λ i.
        Delivered false (dev_sem k i) (k.mem (register line dev)) u rest (inc_mem (dev_sem k i) k0)
          (device_interrupt line dev k))
      (sym same)
      (complete_lem false (dev_sem_base line dev) (k.mem (register line dev)) u rest k0 v at
        waiting)

-- An interrupt of the terminal dev that tells a transmitted character (5 in the low byte of the third
-- register) and no received one, when a process u waits for the transmitter and one of lower
-- priority is ready: the ready queue is no longer ordered by priority.
pub transmitter_unordered :
    (dev u p : ℕ) (rest : List ℕ) (k : Kernel)
    → IsAsl k.phase1
    → k.mem (register 7 dev + 8) % 256 ≡ 5
    → k.mem (register 7 dev) % 256 ≢ 5
    → is_neg ((store (register 7 dev + 12) k.ack k).mem (dev_sem k (32 + dev))) ≡ true
    → queue k.phase1 (dev_sem k (32 + dev)) ≡ u ∷ rest
    → has p k.ready_queue ≡ true
    → Below k.phase1.table p u
    → ¬ IsOrdered k.phase1.table (terminal_interrupt dev k).ready_queue
unfolding terminal_interrupt
transmitter_unordered dev u p rest k v sent quiet low e h b =
    let k0 = store (register 7 dev + 12) k.ack k in
    let no : (k.mem (register 7 dev) % 256 == 5) ≡ false = ground (arith, quiet) in
    rw (eq→== _ 5 sent, no)
      (λ o. last-IsOrdered k.phase1.table p u k.ready_queue h b (
        subst (IsOrdered k.phase1.table)
          (complete_lem true (32 + dev) (k.mem (register 7 dev + 8)) u rest k0 v low e).ready o))
