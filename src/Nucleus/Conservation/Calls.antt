-- ===== src/Nucleus/Conservation/Calls.antt =====
-- Every Nucleus service keeps the blocks that are free or counted.
use pand_aossh.Prelude.{
  ℕ, suc, ◌≡◌, refl, ◌∙◌, ◌||◌, Option, none, some, List, [], ◌∷◌, arith, ◌==◌, length, inl, inr,
  Option-split, if-split, ap,
}
use pand_aossh.Prelude.Words.{is_neg}
use pand_aossh.Types.{Phase1}
use pand_aossh.Phase1.Pcb.{alloc_pcb, insert_child}
use pand_aossh.Phase1.Pcb.Pool.{Allocates, alloc_pcb-Allocates}
use pand_aossh.Phase1.Asl.{remove_blocked}
use pand_aossh.Nucleus.Globals.{
  Kernel, panic, out_of_fuel, ldst, pcb_of, copy_state, inc_mem, dec_mem, update_cpu_time,
  modify_pcb, active_procs_add,
}
use pand_aossh.Nucleus.Scheduler.{scheduler}
use pand_aossh.Nucleus.Process.{block, block_current_process, terminate}
use pand_aossh.Nucleus.PassUp.{generalexcept, die, pass_up, pass_up_or_die}
use pand_aossh.Nucleus.Syscalls.{
  create_process, create_with, start_child, term_process, term_target, after_term, clear_self,
  passeren, wake, release, verhogen, doio, get_time, clock_wait, get_support_ptr, return_to,
  get_process_id, yield, service, syscall_handler,
}
use pand_aossh.Nucleus.Syscalls.Cases.{service_cases, clear_self_cases}
use pand_aossh.Nucleus.Conservation.{
  slots, Same, Keeps, Kept, Same-slots, remove_blocked-free, block-Same, update_cpu_time-Same,
  terminate-Keeps, Keeps-trans, scheduler-Kept,
}

pub block_current_process-Kept :
    (sem : ℕ) (k t : Kernel) → slots t ≡ slots k → Kept k (block_current_process sem t)
unfolding block_current_process
block_current_process-Kept sem k t e =
    Option-split (Kept k) t.current_process (t, panic) (λ p. scheduler (block sem p t))
      (λ c. inl refl)
      (λ p c.
        scheduler-Kept k (block sem p t) (Same-slots t (block sem p t) (block-Same sem p t) ∙ e))

die-Kept : (k : Kernel) → Kept k (die k)
unfolding die
die-Kept k =
    let k1 = update_cpu_time k in
    let same = Same-slots k k1 (update_cpu_time-Same k) in
    after (elim k1.current_process [ none ↦ some k1 | some p ↦ terminate p k1 ])
      (Option-split (Keeps k) k1.current_process (some k1) (λ p. terminate p k1) (λ c. same)
        (λ p c. Keeps-trans k k1 (terminate p k1) same (terminate-Keeps p k1)))
  where
    after :
        (r : Option Kernel)
        → Keeps k r
        → Kept k (elim r [
          | none ↦ (k, out_of_fuel)
          | some k' ↦ scheduler (record k' { current_process = none })
        ])
    after none h = inr refl
    after (some t) h = scheduler-Kept k (record t { current_process = none }) h

pub pass_up_or_die-Kept : (type : ℕ) (k : Kernel) → Kept k (pass_up_or_die type k)
unfolding pass_up_or_die pass_up
pass_up_or_die-Kept type k = ground (arith, die-Kept k)

start_child-slots :
    (p child : ℕ) (procs : List (Option ℕ)) (k t : Kernel)
    → suc (length t.phase1.pcb_free) ≡ length k.phase1.pcb_free
    → t.process_count ≡ k.process_count
    → slots (start_child p child procs t) ≡ slots k
unfolding start_child insert_child
start_child-slots p child procs k t e c = omega arith

create_with-Kept :
    (p : ℕ) (l : List ℕ) (k : Kernel) (r : Option ℕ × Phase1)
    → k.phase1.pcb_free ≡ l
    → Allocates l k.phase1 r
    → Kept k (create_with p r.0 (record k { phase1 = r.1 }))
unfolding create_with
create_with-Kept p [] k (r, s) e a = rw (a.0, a.1) (inr refl)
create_with-Kept p (q ∷ rest) k (r, s) e a =
    let t =
      modify_pcb q
        (λ c. record c {
          p_s = k.user_states k.saved_state.reg_a1;
          p_support_struct = k.saved_state.reg_a3;
          p_prio = k.saved_state.reg_a2;
        })
        (record k { phase1 = s }) in
    let used : suc (length s.pcb_free) ≡ length k.phase1.pcb_free =
      omega (arith, ap {B = ℕ} length e, ap {B = ℕ} length a.1) in
    rw a.0 (
      Option-split (Kept k) (active_procs_add q k.active_procs) (t, panic)
        (λ procs. scheduler (start_child p q procs t)) (λ c. inl refl)
        (λ procs c.
          scheduler-Kept k (start_child p q procs t) (start_child-slots p q procs k t used refl)))

pub create_process-Kept : (p : ℕ) (k : Kernel) → Kept k (create_process p k)
unfolding create_process
create_process-Kept p k =
    create_with-Kept p k.phase1.pcb_free k (alloc_pcb k.phase1) refl (alloc_pcb-Allocates k.phase1)

after_term-Kept : (k u : Kernel) → slots u ≡ slots k → Kept k (after_term u)
unfolding after_term
after_term-Kept k u h =
    Option-split (Kept k) u.current_process (scheduler u) (λ p. return_to p u)
      (λ c. scheduler-Kept k u h) (λ p c. inr h)

term_target-Kept : (o : Option ℕ) (k t : Kernel) → slots t ≡ slots k → Kept k (term_target o t)
unfolding term_target
term_target-Kept none k t e = inr e
term_target-Kept (some q) k t e =
    after (terminate q t) (Keeps-trans k t (terminate q t) e (terminate-Keeps q t))
  where
    after :
        (r : Option Kernel)
        → Keeps k r
        → Kept k (elim r [
          | none ↦ (t, out_of_fuel)
          | some u ↦ after_term (clear_self q t.current_process u)
        ])
    after none h = inr e
    after (some u) h =
        clear_self_cases (λ u. Kept k (after_term u)) q t.current_process u (after_term-Kept k u h)
          (λ _. after_term-Kept k (record u { current_process = none }) h)

pub term_process-Kept : (k : Kernel) → Kept k (term_process k)
unfolding term_process
term_process-Kept k =
    term_target-Kept _ k (update_cpu_time k)
      (Same-slots k (update_cpu_time k) (update_cpu_time-Same k))

wake-Same : (o : Option ℕ) (k : Kernel) → Same k (wake o k)
unfolding wake
wake-Same none k = (refl, refl)
wake-Same (some u) k = (refl, refl)

pub release-Same : (sem : ℕ) (k : Kernel) → Same k (release sem k)
unfolding release
release-Same sem k =
    let r = remove_blocked sem k.phase1 in
    let w = wake-Same r.0 (record k { phase1 = r.1 }) in
    (w.0 ∙ remove_blocked-free sem k.phase1, w.1)

pub passeren-Kept : (p : ℕ) (k : Kernel) → Kept k (passeren p k)
unfolding passeren
passeren-Kept p k =
    let same = Same-slots k (update_cpu_time k) (update_cpu_time-Same k) in
    let sem = k.saved_state.reg_a1 in
    let k1 = dec_mem sem (copy_state p k.saved_state (update_cpu_time k)) in
    if-split (Kept k) (is_neg (k1.mem sem)) (block_current_process sem k1)
      (k1, ldst (pcb_of k1 p).p_s) (λ h. block_current_process-Kept sem k k1 same) (λ h. inr same)

pub verhogen-Kept : (p : ℕ) (k : Kernel) → Kept k (verhogen p k)
unfolding verhogen
verhogen-Kept p k =
    let k1 = inc_mem k.saved_state.reg_a1 (copy_state p k.saved_state (update_cpu_time k)) in
    let same = Same-slots k (update_cpu_time k) (update_cpu_time-Same k) in
    let v = k1.mem k.saved_state.reg_a1 in
    if-split (λ (t : Kernel). Kept k (t, ldst (pcb_of t p).p_s)) (is_neg v || (v == 0))
      (release k.saved_state.reg_a1 k1) k1
      (λ h. inr (
        Same-slots k1 (release k.saved_state.reg_a1 k1) (release-Same k.saved_state.reg_a1 k1)
        ∙ same))
      (λ h. inr same)

pub doio-Kept : (p : ℕ) (k : Kernel) → Kept k (doio p k)
unfolding doio
doio-Kept p k =
    block_current_process-Kept _ k _ (Same-slots k (update_cpu_time k) (update_cpu_time-Same k))

pub clock_wait-Kept : (p : ℕ) (k : Kernel) → Kept k (clock_wait p k)
unfolding clock_wait
clock_wait-Kept p k =
    block_current_process-Kept _ k _ (Same-slots k (update_cpu_time k) (update_cpu_time-Same k))

yield-Kept : (p : ℕ) (k : Kernel) → Kept k (yield p k)
unfolding yield
yield-Kept p k = scheduler-Kept k _ (Same-slots k (update_cpu_time k) (update_cpu_time-Same k))

get_time-Kept : (p : ℕ) (k : Kernel) → Kept k (get_time p k)
unfolding get_time
get_time-Kept p k = inr (Same-slots k (update_cpu_time k) (update_cpu_time-Same k))

asks-Kept : (p : ℕ) (k : Kernel) → Kept k (get_support_ptr p k) × Kept k (get_process_id p k)
unfolding get_support_ptr get_process_id
asks-Kept p k = (inr refl, inr refl)

pub service-Kept : (code : ℕ) (k : Kernel) → Kept k (service code k)
service-Kept code k = service_cases (Kept k) k code (record {
  faulted = λ _. inr refl;
  created = λ p _. create_process-Kept p k;
  terminated = term_process-Kept k;
  waited = λ _ p _. passeren-Kept p k;
  signalled = λ _ p _. verhogen-Kept p k;
  did_io = λ _ p _. doio-Kept p k;
  timed = λ p _. get_time-Kept p k;
  clocked = λ p _. clock_wait-Kept p k;
  supported = λ p _. (asks-Kept p k).0;
  identified = λ p _. (asks-Kept p k).1;
  yielded = λ p _. yield-Kept p k;
  passed = pass_up_or_die-Kept generalexcept k;
})

pub syscall_handler-Kept : (k : Kernel) → Kept k (syscall_handler k)
unfolding syscall_handler
syscall_handler-Kept k = ground (
  arith,
  service-Kept k.saved_state.reg_a0 k,
  pass_up_or_die-Kept generalexcept k,
  pass_up_or_die-Kept generalexcept
      (record k { saved_state = record k.saved_state { cause = 10 } }),
)
