-- ===== src/Nucleus/Soft/Steps.antt =====
-- A wait on a semaphore, its end, and the scheduler keep the count of the processes that
-- wait for a device or the clock.
use pand_aossh.Prelude.{
  ℕ, ◌+◌, ◌*◌, ◌≤◌, ◌≡◌, refl, sym, ap, ◌∙◌, subst, Bool, true, false, ◌||◌, Option, none, some, [],
  arith, ◌==◌, if◌then◌else◌, inl, inr, Option-split,
}
use pand_aossh.Prelude.Words.{inc32}
use pand_aossh.Types.{Pcb, Phase1}
use pand_aossh.Phase1.Pcb.{max_proc, set_pcb}
use pand_aossh.Phase1.Asl.{remove_blocked}
use pand_aossh.Nucleus.Globals.{
  Kernel, panic, is_device_semaphore, pseudoclk_sem, update_cpu_time, charge,
}
use pand_aossh.Nucleus.Scheduler.{scheduler, resume_yielder, run_ready, dispatch, idle}
use pand_aossh.Nucleus.Process.{block, block_current_process}
use pand_aossh.Nucleus.Syscalls.{wake, release}
use pand_aossh.Nucleus.Places.{PlacedIn}
use pand_aossh.Nucleus.Places.Blocked.{hand-Placed}
use pand_aossh.Nucleus.Soft.{
  is_soft, bit_of, soft_waiters, IsCounted, Counted, hand_soft, KeepsCount, KeepsCount-IsCounted,
}
use pand_aossh.Nucleus.Soft.Queues.{Takes, remove_blocked-Takes, block_soft}

update_cpu_time-KeepsCount : (k : Kernel) → KeepsCount k (update_cpu_time k)
unfolding update_cpu_time charge
update_cpu_time-KeepsCount k = record {
  waits = record { semds = ground arith; sems = λ a. ground arith };
  devices = ground arith;
  count = ground arith;
}

scheduler-KeepsCount : (k : Kernel) → KeepsCount k (scheduler k).0
unfolding scheduler resume_yielder run_ready dispatch idle
scheduler-KeepsCount k = record {
  waits = record { semds = ground arith; sems = λ a. ground arith };
  devices = ground arith;
  count = ground arith;
}

pub scheduler-IsCounted :
    (base : ℕ) (k : Kernel) → IsCounted base k → IsCounted base (scheduler k).0
scheduler-IsCounted base k n =
    KeepsCount-IsCounted base k (scheduler k).0 (scheduler-KeepsCount k) n

pub update_cpu_time-IsCounted :
    (base : ℕ) (k : Kernel) → IsCounted base k → IsCounted base (update_cpu_time k)
update_cpu_time-IsCounted base k n =
    KeepsCount-IsCounted base k (update_cpu_time k) (update_cpu_time-KeepsCount k) n

-- A write that leaves the semaphore of the block alone.
pub write-IsCounted :
    (base p : ℕ) (c : Pcb) (k : Kernel)
    → c.p_sem_add ≡ (k.phase1.table p).p_sem_add
    → IsCounted base k
    → IsCounted base (record k { phase1 = set_pcb p c k.phase1 })
write-IsCounted base p c k e n =
    KeepsCount-IsCounted base k (record k { phase1 = set_pcb p c k.phase1 })
      (record {
        waits = record { semds = refl; sems = λ a. ground (arith, e) };
        devices = refl;
        count = refl;
      })
      n

-- A count with one more where the semaphore is one of a device.
pub device_counts :
    (b z : Bool) (n m : ℕ)
    → z ≡ false
    → n ≡ m
    → m ≤ max_proc
    → (if b then inc32 n else n) ≡ m + bit_of (b || z)
device_counts b z n m e f l = ground (arith, e, f, l)

-- The clock's semaphore is not one of a device.
pub clock_apart : (base : ℕ) → is_device_semaphore base (base + 4 * pseudoclk_sem) ≡ false
unfolding is_device_semaphore
clock_apart base = ground arith

pub clock_counts :
    (b z : Bool) (n m : ℕ)
    → b ≡ false
    → z ≡ true
    → n ≡ m
    → m ≤ max_proc
    → (if b then inc32 (inc32 n) else inc32 n) ≡ m + bit_of (b || z)
clock_counts b z n m e g f l = ground (arith, e, g, f, l)

block-others :
    (sem p : ℕ) (k : Kernel)
    → ((block sem p k).dev_sems ≡ k.dev_sems)
      × ((block sem p k).soft_block_count ≡ (
          if is_device_semaphore k.dev_sems sem
          then inc32 k.soft_block_count
          else k.soft_block_count))
unfolding block
block-others sem p k = (refl, refl)

block-IsCounted :
    (base sem p : ℕ) (k : Kernel)
    → (sem == 0) ≡ false
    → PlacedIn [] k
    → k.yielded_process ≡ none
    → k.current_process ≡ some p
    → k.dev_sems ≡ base
    → (if is_device_semaphore base sem then inc32 k.soft_block_count else k.soft_block_count)
      ≡ soft_waiters base k.phase1 + bit_of (is_soft base sem)
    → IsCounted base (block sem p k)
block-IsCounted base sem p k z v y c d n =
    let o = block-others sem p k in
    let e : (block sem p k).soft_block_count
        ≡ (if is_device_semaphore base sem then inc32 k.soft_block_count else k.soft_block_count) =
      subst
        (λ b.
          (block sem p k).soft_block_count
          ≡ (if is_device_semaphore b sem then inc32 k.soft_block_count else k.soft_block_count))
        d o.1 in
    (o.0 ∙ d, e ∙ n ∙ block_soft base sem p k z v y c)

-- The current process waits, and another is chosen.
pub waits-IsCounted :
    (base sem p : ℕ) (k : Kernel)
    → (sem == 0) ≡ false
    → PlacedIn [] k
    → k.yielded_process ≡ none
    → k.current_process ≡ some p
    → k.dev_sems ≡ base
    → (if is_device_semaphore base sem then inc32 k.soft_block_count else k.soft_block_count)
      ≡ soft_waiters base k.phase1 + bit_of (is_soft base sem)
    → IsCounted base (block_current_process sem k).0
unfolding block_current_process
waits-IsCounted base sem p k z v y c d n =
    Option-split (Counted base) k.current_process (k, panic) (λ p. scheduler (block sem p k))
      (λ e. absurd cc)
      (λ p c. scheduler-IsCounted base (block sem p k) (block-IsCounted base sem p k z v y c d n))

wake-IsCounted :
    (base sem : ℕ) (r : Option ℕ × Phase1) (k : Kernel)
    → is_soft base sem ≡ false
    → Takes base k sem r
    → IsCounted base k
    → IsCounted base (wake r.0 (record k { phase1 = r.1 }))
unfolding wake
wake-IsCounted base sem (r, t) k z (inl (e, f)) (d, n) =
    rw e (d, n ∙ ap (soft_waiters base) (sym f))
wake-IsCounted base sem (r, t) k z (inr (p, e, w, m)) (d, n) =
    let after =
      hand_soft base t (set_pcb p (record (t.table p) { p_sem_add = 0 }) t) p refl
        (λ a h. ground (arith, h)) w (hand-Placed t p _ w refl refl) in
    let same : soft_waiters base t + 0 ≡ soft_waiters base k.phase1 =
      subst (λ b. soft_waiters base t + bit_of b ≡ soft_waiters base k.phase1) z m in
    rw e (d, omega (arith, after, same, n))

pub release-IsCounted :
    (base sem : ℕ) (k : Kernel)
    → is_soft base sem ≡ false
    → PlacedIn [] k
    → IsCounted base k
    → IsCounted base (release sem k)
unfolding release
release-IsCounted base sem k z v n =
    wake-IsCounted base sem (remove_blocked sem k.phase1) k z (remove_blocked-Takes base k sem v) n
