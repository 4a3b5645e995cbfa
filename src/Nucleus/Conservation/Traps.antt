-- ===== src/Nucleus/Conservation/Traps.antt =====
-- Every exception and interrupt keeps the blocks that are free or counted.
use pand_aossh.Prelude.{
  ℕ, zero, suc, ◌-◌, ◌%◌, ◌/◌, ◌^◌, ◌≡◌, refl, Bool, false, ◌&&◌, ◌||◌, Option, none, some, arith,
  ◌==◌, leb, if◌then◌else◌, inr, Option-split, if-split,
}
use Prim.Native.Nat.{bit_or}
use pand_aossh.Phase1.Asl.{remove_blocked}
use pand_aossh.Nucleus.Globals.{
  Kernel, out_of_fuel, ldst, update_cpu_time, copy_state, charge, store, inc_mem, dev_sem,
  pseudoclk_sem,
}
use pand_aossh.Nucleus.Scheduler.{scheduler}
use pand_aossh.Nucleus.PassUp.{
  pgfaultexcept, generalexcept, program_trap_handler, tlb_exception_handler,
}
use pand_aossh.Nucleus.Syscalls.{make_ready}
use pand_aossh.Nucleus.Interrupts.{
  never, psecond, account, resume, plt_interrupt, tick_one, tick_all, interval_interrupt, queued,
  deliver, complete, terminal_interrupt, device_interrupt, device_line, interrupt_handler,
  get_highest_priority_device, int_bitmap,
}
use pand_aossh.Nucleus.Exceptions.{exception_handler, advance_pc, is_tlb_code}
use pand_aossh.Nucleus.Conservation.{
  slots, Same, Keeps, Kept, Same-slots, remove_blocked-free, update_cpu_time-Same, Keeps-trans,
  Kept-trans, scheduler-Kept,
}
use pand_aossh.Nucleus.Conservation.Calls.{pass_up_or_die-Kept, syscall_handler-Kept}

account-Same : (k : Kernel) → Same k (account k)
unfolding account charge
account-Same k = ground arith

resume-Kept : (k t : Kernel) → slots t ≡ slots k → Kept k (resume t)
unfolding resume
resume-Kept k t e =
    Option-split (Kept k) t.current_process (scheduler t) (λ p. (t, ldst t.saved_state))
      (λ c. scheduler-Kept k t e) (λ p c. inr e)

plt-Kept : (k : Kernel) → Kept k (plt_interrupt k)
unfolding plt_interrupt
plt-Kept k =
    let k1 = record k { timer = never } in
    let s = record k.saved_state { status = bit_or k.saved_state.status 8 } in
    Option-split (Kept k) k.current_process (scheduler k1)
      (λ p. scheduler (record (make_ready p (copy_state p s k1)) { current_process = none }))
      (λ c. scheduler-Kept k k1 refl)
      (λ p c.
        scheduler-Kept k (record (make_ready p (copy_state p s k1)) { current_process = none })
          refl)

deliver-Same :
    (tail : Bool) (status : ℕ) (o : Option ℕ) (k : Kernel) → Same k (deliver tail status o k)
unfolding deliver
deliver-Same tail status none k = (refl, refl)
deliver-Same tail status (some u) k = (refl, refl)

complete-Same :
    (tail : Bool) (index status : ℕ) (k : Kernel) → Same k (complete tail index status k)
unfolding complete
complete-Same tail index status k =
    let k1 = inc_mem (dev_sem k index) k in
    let r = remove_blocked (dev_sem k index) k1.phase1 in
    let d = deliver-Same tail status r.0 (record k1 { phase1 = r.1 }) in
    ground (arith, d, remove_blocked-free (dev_sem k index) k1.phase1)

terminal-Same : (dev : ℕ) (k : Kernel) → Same k (terminal_interrupt dev k)
unfolding terminal_interrupt
terminal-Same dev k = grind (arith, complete-Same)

device-Same : (line dev : ℕ) (k : Kernel) → Same k (device_interrupt line dev k)
unfolding device_interrupt
device-Same line dev k = complete-Same false _ _ _

tick_all-Keeps : (fuel : ℕ) (k : Kernel) → Keeps k (tick_all fuel k)
unfolding tick_all tick_one
tick_all-Keeps zero k = tt
tick_all-Keeps (suc fuel) k =
    let r = remove_blocked (dev_sem k pseudoclk_sem) k.phase1 in
    let k1 = record k { phase1 = r.1 } in
    Option-split (Keeps k) r.0 (some k) (λ p. tick_all fuel (tick_one p k1)) (λ c. refl)
      (λ p c.
        Keeps-trans k (tick_one p k1) _
          (Same-slots k k1 (remove_blocked-free (dev_sem k pseudoclk_sem) k.phase1, refl))
          (tick_all-Keeps fuel (tick_one p k1)))

interval-Kept : (k : Kernel) → Kept k (interval_interrupt k)
unfolding interval_interrupt
interval-Kept k =
    let k1 = record k { interval = psecond } in
    after (tick_all (suc (queued k.phase1.semd_h)) k1)
      (tick_all-Keeps (suc (queued k.phase1.semd_h)) k1)
  where
    after :
        (r : Option Kernel)
        → Keeps k r
        → Kept k (elim r [
          | none ↦ (k, out_of_fuel)
          | some k2 ↦ resume (store (dev_sem k2 pseudoclk_sem) 0 k2)
        ])
    after none h = inr refl
    after (some k2) h = resume-Kept k (store (dev_sem k2 pseudoclk_sem) 0 k2) h

device_line-Kept : (line : ℕ) (k : Kernel) → Kept k (device_line line k)
unfolding device_line
device_line-Kept line k =
    Option-split (Kept k) (get_highest_priority_device (int_bitmap k line)) (resume k)
      (λ dev. resume (if line == 7 then terminal_interrupt dev k else device_interrupt line dev k))
      (λ c. resume-Kept k k refl)
      (λ dev c. resume-Kept k _ (
        if-split (λ t. slots t ≡ slots k) (line == 7) (terminal_interrupt dev k)
          (device_interrupt line dev k)
          (λ h. Same-slots k (terminal_interrupt dev k) (terminal-Same dev k))
          (λ h. Same-slots k (device_interrupt line dev k) (device-Same line dev k))))

pub interrupt_handler-Kept : (k : Kernel) → Kept k (interrupt_handler k)
unfolding interrupt_handler
interrupt_handler-Kept k =
    let t = account k in
    let code = k.saved_state.cause % 256 in
    let P = Kept t in
    Kept-trans k t (interrupt_handler k) (Same-slots k t (account-Same k)) (
      if-split P (code == 7) _ _ (λ h. plt-Kept t)
        (λ h.
          if-split P (code == 3) _ _ (λ h. interval-Kept t)
            (λ h.
              if-split P (leb 17 code && leb code 21) (device_line (code - 14) t) (resume t)
                (λ h. device_line-Kept (code - 14) t) (λ h. resume-Kept t t refl))))

-- Whatever exception or interrupt comes, the blocks that are free and those that `processCount`
-- counts stay as many, as a word, unless the kernel panics.
pub exception_handler-Kept : (k : Kernel) → Kept k (exception_handler k)
unfolding exception_handler advance_pc
exception_handler-Kept k =
    let t = update_cpu_time k in
    let code = k.saved_state.cause % 256 in
    Kept-trans k t (exception_handler k) (Same-slots k t (update_cpu_time-Same k)) (
      if-split (Kept t) (k.saved_state.cause / 2 ^ 31 % 2 == 1) _ _ (λ h. interrupt_handler-Kept t)
        (λ h.
          if-split (Kept t) ((code == 8) || (code == 11)) _ _
            (λ h. syscall_handler-Kept (advance_pc t))
            (λ h.
              if-split (Kept t) (is_tlb_code code) (tlb_exception_handler t)
                (program_trap_handler t) (λ h. pass_up_or_die-Kept pgfaultexcept t)
                (λ h. pass_up_or_die-Kept generalexcept t))))
