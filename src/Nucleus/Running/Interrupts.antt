-- ===== src/Nucleus/Running/Interrupts.antt =====
-- Every interrupt leaves the Nucleus settled.
use pand_aossh.Prelude.{
  ℕ, zero, suc, ◌-◌, ◌%◌, ◌≡◌, refl, ◌∙◌, Bool, false, ◌&&◌, Option, none, some, arith, ◌==◌, leb,
  Option-split, if-split, inr,
}
use pand_aossh.Phase1.Asl.{remove_blocked}
use pand_aossh.Nucleus.Globals.{Kernel, out_of_fuel, charge, inc_mem, store, dev_sem, pseudoclk_sem}
use pand_aossh.Nucleus.Scheduler.{scheduler}
use pand_aossh.Nucleus.Interrupts.{
  psecond, account, resume, plt_interrupt, tick_one, tick_all, interval_interrupt, queued, deliver,
  complete, terminal_interrupt, device_interrupt, device_line, interrupt_handler,
  get_highest_priority_device, int_bitmap,
}
use pand_aossh.Nucleus.Running.{Settled, scheduler-Settled, KeepsYielder}

resume-Settled : (k : Kernel) → k.yielded_process ≡ none → Settled (resume k)
unfolding resume
resume-Settled k y =
    Option-split Settled k.current_process (scheduler k) _ (λ _. scheduler-Settled k)
      (λ p c. (y, (p, c, inr refl)))

deliver-yielder :
    (tail : Bool) (status : ℕ) (o : Option ℕ) (k : Kernel)
    → (deliver tail status o k).yielded_process ≡ k.yielded_process
unfolding deliver
deliver-yielder tail status none k = refl
deliver-yielder tail status (some u) k = refl

pub complete-yielder :
    (tail : Bool) (index status : ℕ) (k : Kernel)
    → (complete tail index status k).yielded_process ≡ k.yielded_process
unfolding complete
complete-yielder tail index status k =
    let k1 = inc_mem (dev_sem k index) k in
    let r = remove_blocked (dev_sem k index) k1.phase1 in
    ground (arith, deliver-yielder tail status r.0 (record k1 { phase1 = r.1 }))

pub terminal-yielder :
    (dev : ℕ) (k : Kernel) → (terminal_interrupt dev k).yielded_process ≡ k.yielded_process
unfolding terminal_interrupt
terminal-yielder dev k = grind (arith, complete-yielder)

pub device-yielder :
    (line dev : ℕ) (k : Kernel) → (device_interrupt line dev k).yielded_process ≡ k.yielded_process
unfolding device_interrupt
device-yielder line dev k = complete-yielder false _ _ _

tick_all-KeepsYielder : (fuel : ℕ) (k : Kernel) → KeepsYielder k (tick_all fuel k)
unfolding tick_all tick_one
tick_all-KeepsYielder zero k = tt
tick_all-KeepsYielder (suc fuel) k =
    let r = remove_blocked (dev_sem k pseudoclk_sem) k.phase1 in
    let k1 = record k { phase1 = r.1 } in
    Option-split (KeepsYielder k) r.0 (some k) (λ p. tick_all fuel (tick_one p k1)) (λ c. refl)
      (λ p c. tick_all-KeepsYielder fuel (tick_one p k1))

module _ (k : Kernel) (y : k.yielded_process ≡ none) where
  plt-Settled : Settled (plt_interrupt k)
  unfolding plt_interrupt
  plt-Settled =
      Option-split Settled k.current_process _ _ (λ _. scheduler-Settled _)
        (λ p _. scheduler-Settled _)

  interval-Settled : Settled (interval_interrupt k)
  unfolding interval_interrupt
  interval-Settled =
      after (tick_all (suc (queued k.phase1.semd_h)) (record k { interval = psecond }))
        (tick_all-KeepsYielder (suc (queued k.phase1.semd_h)) (record k { interval = psecond }))
    where
      after :
          (r : Option Kernel)
          → KeepsYielder k r
          → Settled (elim r [
            | none ↦ (k, out_of_fuel)
            | some k2 ↦ resume (store (dev_sem k2 pseudoclk_sem) 0 k2)
          ])
      after none h = (y, tt)
      after (some k2) h = resume-Settled (store (dev_sem k2 pseudoclk_sem) 0 k2) (h ∙ y)

  device_line-Settled : (line : ℕ) → Settled (device_line line k)
  unfolding device_line
  device_line-Settled line =
      Option-split Settled (get_highest_priority_device (int_bitmap k line)) (resume k) _
        (λ _. resume-Settled k y)
        (λ dev _. resume-Settled _ (
          if-split (λ (t : Kernel). t.yielded_process ≡ none) (line == 7) _ _
            (λ _. terminal-yielder dev k ∙ y) (λ _. device-yielder line dev k ∙ y)))

pub account-yielder : (k : Kernel) → (account k).yielded_process ≡ k.yielded_process
unfolding account charge
account-yielder k = ground arith

pub interrupt_handler-Settled :
    (k : Kernel) → k.yielded_process ≡ none → Settled (interrupt_handler k)
unfolding interrupt_handler
interrupt_handler-Settled k y =
    let t = account k in
    let z : t.yielded_process ≡ none = account-yielder k ∙ y in
    let code = k.saved_state.cause % 256 in
    if-split Settled (code == 7) _ _ (λ _. plt-Settled t z)
      (λ _.
        if-split Settled (code == 3) _ _ (λ _. interval-Settled t z)
          (λ _.
            if-split Settled (leb 17 code && leb code 21) _ _
              (λ _. device_line-Settled t z (code - 14)) (λ _. resume-Settled t z)))
