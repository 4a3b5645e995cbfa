-- ===== src/Nucleus/Places/Reach.antt =====
-- In every state that the Nucleus can be left in, each block is in one place.
use pand_aossh.Prelude.{
  ℕ, ◌≡◌, ◌∙◌, ap, subst, true, none, Option, [], inl, inr, ◌⊎◌, arith, has, Bool-cases,
}
use pand_aossh.Prelude.Counts.{occurs, held, occurs_absent}
use pand_aossh.Phase1.Asl.Invariant.{queue}
use pand_aossh.Nucleus.Globals.{Kernel, Outcome, wait, panic}
use pand_aossh.Nucleus.Running.Reach.{Reach, Reach-Settled, Runs, booted, handled, comes}
use pand_aossh.Nucleus.Places.{PlacedIn, IsLive, inside}
use pand_aossh.Nucleus.Places.Choice.{IsSound, Stops, IsIdle}
use pand_aossh.Nucleus.Places.Start.{IsLoaded, main-IsSound}
use pand_aossh.Nucleus.Places.Handlers.{IsProper, exception_handler-IsSound}

-- The kernel was loaded with no families in the table, and each time it was entered properly.
abbrev pub IsProperRun : {r : Kernel × Outcome} → Reach r → Type 0
IsProperRun (booted ramtop test k y) = IsLoaded k.phase1
IsProperRun (handled t before run) = IsProper t × IsProperRun before

-- While the processor runs, no block moves.
pub Runs-PlacedIn : (k t : Kernel) (o : Outcome) → Runs k o t → PlacedIn [] k → PlacedIn [] t
Runs-PlacedIn k t o r v = rw (r.phase1, r.ready, r.current, r.yielder, r.active) v

-- In every state that can be reached from `main` by a proper run, whatever exceptions, interrupts and
-- services it has: each of the 20 blocks is in exactly one place, that is free, the current process, in
-- the ready queue, or in the queue of the semaphore that it names; parents and children agree and are
-- live; `activeProcs` has the live blocks, each once. The Nucleus halts only when `processCount` is 0; it
-- waits or panics only when processes are left and none is ready, waits when `softBlockCount` is above 0,
-- and panics when it is not. No recursion ran out of fuel, and no read went through NULL.
pub Reach-IsSound : {r : Kernel × Outcome} (h : Reach r) → IsProperRun h → IsSound r
Reach-IsSound (booted ramtop test k y) h = main-IsSound ramtop test k y h
Reach-IsSound (handled {k} {o} t before run) (proper, h) =
    let (v, y, stops) = Reach-IsSound before h in
    let ((_, names), _) = Reach-Settled before in
    exception_handler-IsSound t (Runs-PlacedIn k t o run v) (run.yielder ∙ y) proper
      (comes k t o names run)

-- With no current process and nothing ready, a live block waits.
idle-waiting :
    (k : Kernel) (a : ℕ)
    → PlacedIn [] k
    → k.yielded_process ≡ none
    → IsIdle k
    → IsLive k.phase1 a
    → has a (queue k.phase1 (k.phase1.table a).p_sem_add) ≡ true
idle-waiting k a v y (c, r) live =
    let c_a : held k.current_process a ≡ 0 = ap (λ (o : Option ℕ). held o a) c in
    let y_a : held k.yielded_process a ≡ 0 = ap (λ (o : Option ℕ). held o a) y in
    let r_a : occurs a k.ready_queue ≡ 0 = ap (occurs a) r in
    let e = v.place a in
    let l : inside a ≡ 1 = let i = live.1 in ground (arith, i) in
    let f = live.0 in
    let n = occurs_absent a (queue k.phase1 (k.phase1.table a).p_sem_add) in
    elim (Bool-cases (has a (queue k.phase1 (k.phase1.table a).p_sem_add))) [
      | inl h ↦ h
      | inr h ↦ absurd (let z = n h in omega (arith, c_a, y_a, r_a, e, l, f, z))
    ]

-- In every state reached by a proper run in which the Nucleus waits for an interrupt or panics, every
-- live process is in the queue of the semaphore that it names: no process was forgotten.
pub Reach-Waiting :
    {k : Kernel} {o : Outcome} (h : Reach (k, o))
    → IsProperRun h
    → (o ≡ wait) ⊎ (o ≡ panic)
    → (a : ℕ) → IsLive k.phase1 a
    → has a (queue k.phase1 (k.phase1.table a).p_sem_add) ≡ true
Reach-Waiting {k} {o} h proper stop a live =
    let (v, y, stops) = Reach-IsSound h proper in
    let idle : IsIdle k = elim stop [
      | inl e ↦ let s : Stops k wait = subst (Stops k) e stops in s.0
      | inr e ↦ let s : Stops k panic = subst (Stops k) e stops in s.0
    ] in
    idle-waiting k a v y idle live
