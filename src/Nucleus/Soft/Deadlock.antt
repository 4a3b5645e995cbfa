-- ===== src/Nucleus/Soft/Deadlock.antt =====
-- Who waits for what when the Nucleus waits or panics.
use pand_aossh.Prelude.{
  ℕ, zero, suc, ◌≤◌, ◌<◌, ◌≡◌, ◌≢◌, refl, subst, Bool, true, false, if◌then◌else◌, arith, has, inl,
  inr, Bool-cases, ltb, ◌==◌,
}
use pand_aossh.Prelude.Counts.{occurs_present}
use pand_aossh.Phase1.Pcb.{max_proc}
use pand_aossh.Phase1.Asl.Invariant.{queue}
use pand_aossh.Nucleus.Globals.{Kernel, Outcome, wait, panic}
use pand_aossh.Nucleus.Running.Reach.{Reach}
use pand_aossh.Nucleus.Places.{IsLive, inside, waiting}
use pand_aossh.Nucleus.Places.Choice.{Stops}
use pand_aossh.Nucleus.Places.Reach.{Reach-IsSound, Reach-Waiting}
use pand_aossh.Nucleus.Soft.{is_soft, soft, total, soft_waiters}
use pand_aossh.Nucleus.Soft.Queues.{soft_le}
use pand_aossh.Nucleus.Soft.Reach.{IsSoftRun, IsSoftRun-IsProperRun, Reach-soft_waiters}

total-none : (f : ℕ → ℕ) (n a : ℕ) → total f n ≡ 0 → a < n → f a ≡ 0
unfolding total
total-none f zero a e l = absurd (omega (arith, l))
total-none f (suc n) a e l = elim (Bool-cases (ltb a n)) [
  | inl h ↦ total-none f n a (omega (arith, e)) (ground (arith, h))
  | inr h ↦ let same : n ≡ a = ground (arith, h, l) in subst (λ b. f b ≡ 0) same (omega (arith, e))
]

total-one : (f : ℕ → ℕ) (n : ℕ) → total f n ≢ 0 → (a : ℕ) × (a < n) × (f a ≢ 0)
unfolding total
total-one f zero e = absurd (e refl)
total-one f (suc n) e = elim (Bool-cases (f n == 0)) [
  | inl h ↦ let (a, l, g) = total-one f n (ground (arith, e, h)) in (a, omega (arith, l), g)
  | inr h ↦ (n, omega arith, ground (arith, h))
]

-- A block that waits and adds nothing waits for another semaphore.
soft_apart : (b : Bool) (n : ℕ) → (if b then n else 0) ≡ 0 → n ≢ 0 → b ≡ false
soft_apart b n e h = ground (arith, e, h)

soft_both : (b : Bool) (n : ℕ) → (if b then n else 0) ≢ 0 → (b ≡ true) × (n ≢ 0)
soft_both b n e = ground (arith, e)

-- A panic is a deadlock: when the Nucleus panics in a proper run that uses the semaphores of the devices and
-- of the clock as IsSoftProper says, every live process is in the queue of the semaphore that it names,
-- and this is neither a device's nor the clock's.
pub Reach-Deadlock :
    {k : Kernel} {o : Outcome} (h : Reach (k, o))
    → IsSoftRun h
    → o ≡ panic
    → (a : ℕ) → IsLive k.phase1 a
    → (has a (queue k.phase1 (k.phase1.table a).p_sem_add) ≡ true)
      × (is_soft k.dev_sems (k.phase1.table a).p_sem_add ≡ false)
Reach-Deadlock {k} {o} h proper stop a live =
    let run = IsSoftRun-IsProperRun h proper in
    let (v, y, stops) = Reach-IsSound h run in
    let s : Stops k panic = subst (Stops k) stop stops in
    let count = Reach-soft_waiters h proper in
    let few = soft_le k.dev_sems k.phase1 v in
    let least = s.2 in
    let nobody : soft_waiters k.dev_sems k.phase1 ≡ 0 = ground (arith, count, few, least) in
    let adds = total-none (soft k.dev_sems k.phase1) max_proc a nobody live.1 in
    let in_queue = Reach-Waiting h run (inr stop) a live in
    (
      in_queue,
      soft_apart _ (waiting k.phase1 a) adds
          (λ e. let one_at_least = occurs_present a _ in_queue in omega (arith, e, one_at_least)),
    )

-- When the Nucleus waits for an interrupt in a proper run that uses the semaphores of the devices and of the
-- clock as IsSoftProper says, there is a live process in the queue of a device's or of the clock's
-- semaphore, which is the one that it names.
pub Reach-Awaited :
    {k : Kernel} {o : Outcome} (h : Reach (k, o))
    → IsSoftRun h
    → o ≡ wait
    → (a : ℕ) × IsLive k.phase1 a
      × (has a (queue k.phase1 (k.phase1.table a).p_sem_add) ≡ true)
      × (is_soft k.dev_sems (k.phase1.table a).p_sem_add ≡ true)
Reach-Awaited {k} {o} h proper stop =
    let run = IsSoftRun-IsProperRun h proper in
    let (v, y, stops) = Reach-IsSound h run in
    let s : Stops k wait = subst (Stops k) stop stops in
    let count = Reach-soft_waiters h proper in
    let least = s.2 in
    let some_wait : soft_waiters k.dev_sems k.phase1 ≢ 0 = ground (arith, count, least) in
    let (a, l, adds) = total-one (soft k.dev_sems k.phase1) max_proc some_wait in
    let (is, waits) =
      soft_both (is_soft k.dev_sems (k.phase1.table a).p_sem_add) (waiting k.phase1 a) adds in
    let e = v.place a in
    let live : IsLive k.phase1 a =
      (let i : inside a ≤ 1 = ground arith in omega (arith, e, i, waits), l) in
    (a, live, Reach-Waiting h run (inl stop) a live, is)
