-- ===== src/Nucleus/Places/Start.antt =====
-- `main` puts each block in one place: the first one runs, and the others are free.
use pand_aossh.Prelude.{
  ℕ, ◌≤◌, ◌≡◌, refl, sym, ap, ◌∙◌, none, some, List, [], ◌∷◌, arith, has, range, ==_refl,
}
use pand_aossh.Prelude.Counts.{occurs, occurs-range}
use pand_aossh.Types.{Phase1}
use pand_aossh.Phase1.Pcb.{max_proc, alloc_pcb, alloc_from, init_pcbs, init_loop}
use pand_aossh.Phase1.Pcb.Pool.{init_pcbs_lem}
use pand_aossh.Phase1.Asl.{init_asl}
use pand_aossh.Phase1.Asl.Invariant.{queue, init_asl-IsAsl}
use pand_aossh.Phase1.Asl.Queues.{procq_of}
use pand_aossh.Nucleus.Globals.{Kernel, panic}
use pand_aossh.Nucleus.Scheduler.{scheduler}
use pand_aossh.Nucleus.Initial.{install_vector, boot, first_process, main, no_procs, set_first}
use pand_aossh.Nucleus.Start.{boot_lem, boot-idle}
use pand_aossh.Nucleus.Places.{Placed, free, inside}
use pand_aossh.Nucleus.Places.Moves.{ready-Placed}
use pand_aossh.Nucleus.Places.Blocked.{hand-Placed}
use pand_aossh.Nucleus.Places.Birth.{alloc-Placed, Adds}
use pand_aossh.Nucleus.Places.Choice.{IsSound, scheduler-IsSound}

-- The table as it is loaded: no block has a parent or a child.
abbrev pub IsLoaded : Phase1 → Type 0
IsLoaded s = (p : ℕ) → ((s.table p).p_parent ≡ none) × ((s.table p).p_child ≡ [])

init_loop-IsLoaded : (ps : List ℕ) (s : Phase1) → IsLoaded s → IsLoaded (init_loop ps s)
unfolding init_loop
init_loop-IsLoaded [] s h = h
init_loop-IsLoaded (p ∷ ps) s h =
    init_loop-IsLoaded ps _
      (λ q. let (e, f) = h q in let (d, g) = h p in (ground (arith, e, d), ground (arith, f, g)))

-- The tables that `main` starts with.
abbrev empty_phase1 : Phase1 → Phase1
empty_phase1 s = init_asl (init_pcbs s)

empty-IsLoaded : (s : Phase1) → IsLoaded s → IsLoaded (empty_phase1 s)
unfolding init_asl init_pcbs
empty-IsLoaded s h = init_loop-IsLoaded (range 0 max_proc) (record s { pcb_free = [] }) h

empty-queue : (s : Phase1) (j : ℕ) → queue (empty_phase1 s) j ≡ []
unfolding init_asl procq_of
empty-queue s j = refl

empty-free : (s : Phase1) → (empty_phase1 s).pcb_free ≡ range 0 max_proc
unfolding init_asl
empty-free s = (init_pcbs_lem s).0

empty-Placed :
    (s : Phase1) → IsLoaded s → Placed [] none none [] (no_procs max_proc) (empty_phase1 s)
unfolding no_procs
empty-Placed s h =
    let t = empty_phase1 s in
    let l = empty-IsLoaded s h in
    let f : (a : ℕ) → free t a ≡ inside a = λ a.
      let e = ap (occurs a) (empty-free s) in
      let r = occurs-range a 0 max_proc in ground (arith, e, r) in
    let q : (a j : ℕ) → occurs a (queue t j) ≡ 0 = λ a j. ap (occurs a) (empty-queue s j) in
    record {
      asl = init_asl-IsAsl (init_pcbs s);
      named = λ a j w. absurd (let e = q a j in omega (arith, e, w));
      tree = record {
        distinct = λ p. rw (l p).1 tt;
        listed = λ p c e. absurd (let z = (l c).0 in cc);
        owned = λ p c e. absurd (let z = ap (has c) (l p).1 in cc);
      };
      kin = λ p c e. absurd (let z = (l c).0 in cc);
      place = λ a. let g = f a in let w = q a (t.table a).p_sem_add in omega (arith, g, w);
      alive = λ a. let g = f a in omega (arith, g);
      slots = refl;
    }

-- The entry of the first process.
set_first-Adds :
    (p : ℕ) → Adds p (no_procs max_proc) (some (set_first (some p) (no_procs max_proc)))
unfolding set_first no_procs
set_first-Adds p = (λ a. omega arith, refl)

first_process-IsSound :
    (ramtop test p : ℕ) (k : Kernel)
    → Placed (p ∷ []) none none k.ready_queue (set_first (some p) k.active_procs) k.phase1
    → k.yielded_process ≡ none
    → k.current_process ≡ none
    → IsSound (scheduler (first_process ramtop test p k))
unfolding first_process
first_process-IsSound ramtop test p k v y c =
    let t = first_process ramtop test p k in
    let w : Placed (p ∷ []) none none k.ready_queue (set_first (some p) k.active_procs) t.phase1 =
      hand-Placed k.phase1 p _ v refl refl in
    scheduler-IsSound t (rw (c, y) (ready-Placed t.phase1 t.phase1.table p w)) c

-- The kernel when the pass up vector is written.
module _ (ramtop test : ℕ) (k : Kernel) (y : k.yielded_process ≡ none) (h : IsLoaded k.phase1) where
  booted : Placed [] none none (boot k).ready_queue (no_procs max_proc) (boot k).phase1
  booted = let b = boot_lem k in let v = empty-Placed k.phase1 h in rw (b.0, b.1) v

  main_from :
      (l : List ℕ)
      → (boot k).phase1.pcb_free ≡ l
      → IsSound (elim ((alloc_from l (boot k).phase1).0) [
        | none ↦ (boot k, panic)
        | some p ↦ scheduler (
            first_process ramtop test p
              (record (boot k) { phase1 = (alloc_from l (boot k).phase1).1 }))
      ])
  unfolding alloc_from
  main_from [] e = absurd (
      let b = boot_lem k in
      let f =
        ap (occurs 0) (sym e)
        ∙ ap (λ (s : Phase1). free s 0) b.0
        ∙ ap (occurs 0) (empty-free k.phase1) in
      omega (arith, f))
  main_from (p ∷ rest) e =
      let i = boot-idle k in
      let r = ==_refl p in
      let here : 1 ≤ free (boot k).phase1 p = let o = ap (occurs p) e in ground (arith, o, r) in
      let s = (alloc_from (p ∷ rest) (boot k).phase1).1 in
      let taken = alloc-Placed (boot k).phase1 p booted here rest _ e (set_first-Adds p) in
      let v : Placed (p ∷ []) none none (boot k).ready_queue
          (set_first (some p) (boot k).active_procs) s =
        rw i.1 taken in
      first_process-IsSound ramtop test p (record (boot k) { phase1 = s }) v ((boot_lem k).2 ∙ y)
        i.0

-- `main` on a loaded kernel leaves each block in one place.
pub main-IsSound :
    (ramtop test : ℕ) (k : Kernel)
    → k.yielded_process ≡ none
    → IsLoaded k.phase1
    → IsSound (main ramtop test k)
unfolding main alloc_pcb
main-IsSound ramtop test k y h =
    let k0 = install_vector ramtop k in main_from ramtop test k0 y h (boot k0).phase1.pcb_free refl
