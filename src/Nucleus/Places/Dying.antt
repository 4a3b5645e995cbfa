-- ===== src/Nucleus/Places/Dying.antt =====
-- The ways to end a process keep each block in one place.
use pand_aossh.Prelude.{
  if◌then◌else◌, ℕ, ◌≤◌, ◌≡◌, ◌≢◌, refl, sym, ap, ◌∙◌, subst, false, Option, none, some, List, [],
  ◌∷◌, arith, ◌==◌, inl, inr, ◌⊎◌, ==_refl, if-split, Option-split,
}
use pand_aossh.Prelude.Words.{minus}
use pand_aossh.Prelude.Counts.{one, held}
use pand_aossh.Types.{Pcb}
use pand_aossh.Nucleus.Globals.{Kernel, out_of_fuel, update_cpu_time, pcb_of, find_process_by_pid}
use pand_aossh.Nucleus.Scheduler.{scheduler}
use pand_aossh.Nucleus.Process.{terminate}
use pand_aossh.Nucleus.PassUp.{die, pass_up, pass_up_or_die}
use pand_aossh.Nucleus.Syscalls.{term_process, term_target, after_term, clear_self, return_to}
use pand_aossh.Nucleus.Syscalls.Cases.{clear_self_cases}
use pand_aossh.Nucleus.Running.{update_cpu_time-Stays}
use pand_aossh.Nucleus.Places.{PlacedIn, IsLive, listed, inside, free, write-Placed}
use pand_aossh.Nucleus.Places.Outlives.{Ended}
use pand_aossh.Nucleus.Places.Ends.{terminate-Ended}
use pand_aossh.Nucleus.Places.Choice.{IsSound, scheduler-IsSound, update_cpu_time-PlacedIn}

-- The current process is live.
pub current-IsLive :
    (p : ℕ) (k : Kernel) → PlacedIn [] k → k.current_process ≡ some p → IsLive k.phase1 p
current-IsLive p k v c =
    let e = v.place p in
    let r = ==_refl p in
    let h : held k.current_process p ≡ one p p = ap (λ (o : Option ℕ). held o p) c in
    ground (arith, e, h, r)

-- A process that `findProcessByPid` finds is live.
found-listed :
    (table : ℕ → Pcb) (pid p : ℕ) (l : List (Option ℕ))
    → find_process_by_pid table pid l ≡ some p
    → 1 ≤ listed l p
unfolding find_process_by_pid
found-listed table pid p [] e = absurd cc
found-listed table pid p (none ∷ l) e = let h = found-listed table pid p l e in omega (arith, h)
found-listed table pid p (some q ∷ l) e = ground (arith, found-listed table pid p l)

-- The process that runs does not have the process id -1, which marks a dead one.
abbrev pub IsNamed : Kernel → Type 0
IsNamed k = (p : ℕ) → k.current_process ≡ some p → (k.phase1.table p).p_pid ≢ minus 1

update_cpu_time-pid :
    (p : ℕ) (k : Kernel) → ((update_cpu_time k).phase1.table p).p_pid ≡ (k.phase1.table p).p_pid
unfolding update_cpu_time
update_cpu_time-pid p k = ground arith

pub update_cpu_time-IsNamed : (k : Kernel) → IsNamed k → IsNamed (update_cpu_time k)
update_cpu_time-IsNamed k n p c =
    let h = n p (sym (update_cpu_time-Stays k).1 ∙ c) in
    let e = update_cpu_time-pid p k in ground (arith, h, e)

-- A result of `terminateProcess`, if there is one, has its blocks placed once the current process is
-- forgotten.
abbrev Cleared : Option Kernel → Type 0
Cleared none = Unit {0}
Cleared (some t) = PlacedIn [] (record t { current_process = none })

-- The current process ends, and no process runs.
Ended-Cleared :
    (p : ℕ) (k : Kernel) (r : Option Kernel)
    → k.current_process ≡ some p
    → ((k.phase1.table p).p_pid == minus 1) ≡ false
    → Ended p k r
    → Cleared r
Ended-Cleared p k none c n e = tt
Ended-Cleared p k (some t) c n (o, f) =
    let freed = f n in
    elim o.current [
      | inr gone ↦ let w = o.placed in rw gone at w
      | inl same ↦ absurd (
          let e = o.placed.place p in
          let r = ==_refl p in
          let small : inside p ≤ 1 = ground arith in
          let h : held t.current_process p ≡ one p p = ap (λ (o : Option ℕ). held o p) (same ∙ c) in
          ground (arith, e, h, r, small, freed))
    ]

die-IsSound : (k : Kernel) → PlacedIn [] k → k.yielded_process ≡ none → IsNamed k → IsSound (die k)
unfolding die
die-IsSound k v y named =
    let t = update_cpu_time k in
    let (ty, tc) = update_cpu_time-Stays k in
    let w = update_cpu_time-PlacedIn k v in
    let live = λ (p : ℕ) (c : t.current_process ≡ some p). current-IsLive p t w c in
    let returns : elim t.current_process [ none ↦ some t | some p ↦ terminate p t ] ≢ none =
      Option-split (λ (r : Option Kernel). r ≢ none) t.current_process (some t) (λ p. terminate p t)
        (λ _ e. cc) (λ p c. (terminate-Ended p t w (ty ∙ y) (live p c)).1) in
    Option-split IsSound (elim t.current_process [ none ↦ some t | some p ↦ terminate p t ])
      (k, out_of_fuel) (λ (u : Kernel). scheduler (record u { current_process = none }))
      (λ e. absurd (returns e))
      (λ u e.
        let h : Cleared (some u) = subst Cleared e (
          Option-split Cleared t.current_process (some t) (λ p. terminate p t) (λ c. rw c at w)
            (λ p c.
              Ended-Cleared p t (terminate p t) c
                (let n = named p (sym tc ∙ c) in
                  let e = update_cpu_time-pid p k in ground (arith, n, e))
                (terminate-Ended p t w (ty ∙ y) (live p c)).0)) in
        scheduler-IsSound (record u { current_process = none }) h refl)

pub pass_up_or_die-IsSound :
    (type : ℕ) (k : Kernel)
    → PlacedIn [] k
    → k.yielded_process ≡ none
    → IsNamed k
    → IsSound (pass_up_or_die type k)
unfolding pass_up_or_die pass_up
pass_up_or_die-IsSound type k v y n =
    Option-split IsSound k.current_process (die k) _ (λ c. die-IsSound k v y n)
      (λ p c.
        if-split IsSound ((pcb_of k p).p_support_struct == 0) _ _ (λ _. die-IsSound k v y n)
          (λ _. (v, y, tt)))

after_term-IsSound :
    (t : Kernel) → PlacedIn [] t → t.yielded_process ≡ none → IsSound (after_term t)
unfolding after_term
after_term-IsSound t w ty =
    Option-split IsSound t.current_process (scheduler t) (λ q. return_to q t)
      (λ e. scheduler-IsSound t w e) (λ q _. (write-Placed t.phase1 q _ w refl refl refl, ty, tt))

-- A process whose block is free is not the current process.
self_gone :
    (q : ℕ) (t u : Kernel)
    → t.current_process ≡ some q
    → PlacedIn [] u
    → free u.phase1 q ≡ 1
    → (u.current_process ≡ t.current_process) ⊎ (u.current_process ≡ none)
    → u.current_process ≡ none
self_gone q t u c v f (inr e) = e
self_gone q t u c v f (inl e) =
    let here : held u.current_process q ≡ one q q = ap (λ (o : Option ℕ). held o q) (e ∙ c) in
    let r = ==_refl q in
    let place = v.place q in
    let small : inside q ≤ 1 = ground arith in absurd (ground (arith, here, r, place, small, f))

term_target-IsSound :
    (o : Option ℕ) (t : Kernel)
    → PlacedIn [] t
    → t.yielded_process ≡ none
    → IsNamed t
    → ((q : ℕ) → o ≡ some q → IsLive t.phase1 q)
    → IsSound (term_target o t)
unfolding term_target
term_target-IsSound none t w ty named live = (w, ty, tt)
term_target-IsSound (some q) t w ty named live =
    let h = terminate-Ended q t w ty (live q refl) in after (terminate q t) h.0 h.1
  where
    after :
        (r : Option Kernel)
        → Ended q t r
        → r ≢ none
        → IsSound (elim r [
          | none ↦ (t, out_of_fuel)
          | some u ↦ after_term (clear_self q t.current_process u)
        ])
    after none h n = absurd (n refl)
    after (some u) (h, freed) n =
        clear_self_cases (λ u. IsSound (after_term u)) q t.current_process u
          (after_term-IsSound u h.placed h.yielder)
          (λ c.
            let alive : ((t.phase1.table q).p_pid == minus 1) ≡ false =
              (let e = named q c in ground (arith, e)) in
            let gone = self_gone q t u c h.placed (freed alive) h.current in
            after_term-IsSound (record u { current_process = none }) (rw gone at h.placed)
              h.yielder)

-- The process that TERMPROCESS names is live.
pub target-IsLive :
    (pid q : ℕ) (t : Kernel)
    → PlacedIn [] t
    → (if pid == 0
        then t.current_process
        else find_process_by_pid t.phase1.table pid t.active_procs)
      ≡ some q
    → IsLive t.phase1 q
target-IsLive pid q t w =
    if-split (λ (o : Option ℕ). o ≡ some q → IsLive t.phase1 q) (pid == 0) t.current_process
      (find_process_by_pid t.phase1.table pid t.active_procs) (λ _ e. current-IsLive q t w e)
      (λ _ e.
        let on = found-listed t.phase1.table pid q t.active_procs e in
        let a = w.alive q in ground (arith, on, a))

-- TERMPROCESS keeps each block in one place.
pub term_process-IsSound :
    (k : Kernel) → PlacedIn [] k → k.yielded_process ≡ none → IsNamed k → IsSound (term_process k)
unfolding term_process
term_process-IsSound k v y named =
    let t = update_cpu_time k in
    let w = update_cpu_time-PlacedIn k v in
    term_target-IsSound _ t w ((update_cpu_time-Stays k).0 ∙ y) (update_cpu_time-IsNamed k named)
      (λ q. target-IsLive k.saved_state.reg_a1 q t w)
