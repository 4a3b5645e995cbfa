-- ===== src/Nucleus/Soft/Reach.antt =====
-- In every state that the Nucleus can be left in, `softBlockCount` is the number of the processes that
-- wait for a device or the clock.
use pand_aossh.Prelude.{
  ℕ, zero, suc, ◌≡◌, refl, sym, ◌∙◌, ap, subst, Bool, if◌then◌else◌, List, [], ◌∷◌, arith,
  Option-split,
}
use pand_aossh.Prelude.Counts.{occurs}
use pand_aossh.Types.{Phase1}
use pand_aossh.Phase1.Pcb.{max_proc, alloc_pcb, alloc_from}
use pand_aossh.Phase1.Asl.{init_asl}
use pand_aossh.Phase1.Asl.Queues.{procq_of}
use pand_aossh.Nucleus.Globals.{Kernel, Outcome, panic}
use pand_aossh.Nucleus.Initial.{install_vector, boot, first_process, main}
use pand_aossh.Nucleus.Start.{boot_lem}
use pand_aossh.Nucleus.Exceptions.{exception_handler}
use pand_aossh.Nucleus.Running.Reach.{Reach, Reach-Settled, Runs, booted, handled, comes}
use pand_aossh.Nucleus.Places.Reach.{IsProperRun, Reach-IsSound, Runs-PlacedIn}
use pand_aossh.Nucleus.Places.Start.{IsLoaded}
use pand_aossh.Nucleus.Soft.{is_soft, soft, total, total-same, soft_waiters, IsCounted, Counted}
use pand_aossh.Nucleus.Soft.Steps.{scheduler-IsCounted}
use pand_aossh.Nucleus.Soft.Handlers.{IsSoftProper, exception_handler-IsCounted}

-- The kernel was loaded with no families in the table, and each time it was entered as IsSoftProper
-- says.
abbrev pub IsSoftRun : {r : Kernel × Outcome} → Reach r → Type 0
IsSoftRun (booted ramtop test k y) = IsLoaded k.phase1
IsSoftRun (handled t before run) = IsSoftProper t × IsSoftRun before

pub IsSoftRun-IsProperRun : {r : Kernel × Outcome} (h : Reach r) → IsSoftRun h → IsProperRun h
IsSoftRun-IsProperRun (booted ramtop test k y) h = h
IsSoftRun-IsProperRun (handled t before run) (proper, h) =
    (proper.proper, IsSoftRun-IsProperRun before h)

total_zero : (n : ℕ) → total (λ _. 0) n ≡ 0
unfolding total
total_zero zero = refl
total_zero (suc n) = let e = total_zero n in omega (arith, e)

same_either : (b : Bool) (n : ℕ) → n ≡ 0 → (if b then n else 0) ≡ 0
same_either b n e = ground arith

-- Nobody waits where no semaphore has a queue.
no_waiters : (base : ℕ) (s : Phase1) → s.semd_h ≡ [] → soft_waiters base s ≡ 0
unfolding procq_of
no_waiters base s e =
    total-same (soft base s) (λ _. 0) max_proc
      (λ a.
        same_either (is_soft base (s.table a).p_sem_add) _
          (ap (λ l. occurs a (procq_of (s.table a).p_sem_add l)) e))
    ∙ total_zero max_proc

alloc_from-semds : (l : List ℕ) (s : Phase1) → (alloc_from l s).1.semd_h ≡ s.semd_h
unfolding alloc_from
alloc_from-semds [] s = refl
alloc_from-semds (p ∷ rest) s = refl

boot-semds : (k : Kernel) → (boot k).phase1.semd_h ≡ []
unfolding init_asl
boot-semds k = ap (λ (s : Phase1). s.semd_h) (boot_lem k).0

boot-IsCounted : (k : Kernel) → IsCounted k.dev_sems (boot k)
boot-IsCounted k =
    let b = boot_lem k in
    let e = boot-semds k in (b.4, b.3 ∙ sym (no_waiters k.dev_sems (boot k).phase1 e))

main-IsCounted : (ramtop test : ℕ) (k : Kernel) → Counted k.dev_sems (main ramtop test k)
unfolding main alloc_pcb first_process
main-IsCounted ramtop test k =
    let k1 = boot (install_vector ramtop k) in
    let r = alloc_from k1.phase1.pcb_free k1.phase1 in
    let b = boot_lem (install_vector ramtop k) in
    let g : r.1.semd_h ≡ [] =
      alloc_from-semds k1.phase1.pcb_free k1.phase1 ∙ boot-semds (install_vector ramtop k) in
    Option-split (Counted k.dev_sems) r.0 (k1, panic) _
      (λ _. boot-IsCounted (install_vector ramtop k))
      (λ p _.
        let t = first_process ramtop test p (record k1 { phase1 = r.1 }) in
        scheduler-IsCounted k.dev_sems t (b.4, b.3 ∙ sym (no_waiters k.dev_sems t.phase1 g)))

-- While the processor runs, none of this changes.
Runs-IsCounted :
    (base : ℕ) (k t : Kernel) (o : Outcome) → Runs k o t → IsCounted base k → IsCounted base t
Runs-IsCounted base k t o r (d, n) =
    (r.devices ∙ d, r.blocked ∙ n ∙ ap (soft_waiters base) (sym r.phase1))

reach-IsCounted : {r : Kernel × Outcome} (h : Reach r) → IsSoftRun h → IsCounted r.0.dev_sems r.0
reach-IsCounted (booted ramtop test k y) h =
    let n = main-IsCounted ramtop test k in
    subst (λ b. IsCounted b (main ramtop test k).0) (sym n.0) n
reach-IsCounted (handled {k} {o} t before run) (proper, h) =
    let (v, y, stops) = Reach-IsSound before (IsSoftRun-IsProperRun before h) in
    let ((_, names), _) = Reach-Settled before in
    let n =
      exception_handler-IsCounted k.dev_sems t (Runs-PlacedIn k t o run v) (run.yielder ∙ y)
        (Runs-IsCounted k.dev_sems k t o run (reach-IsCounted before h)) proper
        (comes k t o names run) in
    subst (λ b. IsCounted b (exception_handler t).0) (sym n.0) n

-- In every state that can be reached from `main` by a proper run in which, besides, no process calls
-- PASSEREN on the clock's semaphore or VERHOGEN on a device's or the clock's, and no address given to
-- DOIO leads to the clock's: `softBlockCount` is the number of the blocks that are in the queue of a
-- device's or the clock's semaphore, which they name.
pub Reach-soft_waiters :
    {r : Kernel × Outcome} (h : Reach r)
    → IsSoftRun h
    → r.0.soft_block_count ≡ soft_waiters r.0.dev_sems r.0.phase1
Reach-soft_waiters h proper = (reach-IsCounted h proper).1
