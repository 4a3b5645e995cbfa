-- ===== src/Nucleus/Places/Interrupts.antt =====
-- Every interrupt keeps each block in one place.
use pand_aossh.Prelude.{
  ℕ, zero, suc, ◌+◌, ◌-◌, ◌%◌, ◌≡◌, ◌≢◌, refl, ◌∙◌, subst, Bool, true, false, ◌&&◌, Option, none,
  some, [], ◌∷◌, arith, ◌==◌, leb, if-split, Option-split, if◌then◌else◌,
}
use pand_aossh.Prelude.Words.{is_neg}
use pand_aossh.Phase1.Asl.{remove_blocked}
use pand_aossh.Nucleus.Globals.{
  Kernel, out_of_fuel, charge, inc_mem, store, dev_sem, pseudoclk_sem, term_tx_sem, term_rx_sem,
}
use pand_aossh.Nucleus.Scheduler.{scheduler}
use pand_aossh.Nucleus.Interrupts.{
  psecond, account, resume, plt_interrupt, tick_one, tick_all, interval_interrupt, queued, deliver,
  complete, terminal_interrupt, device_interrupt, device_line, interrupt_handler,
  get_highest_priority_device, int_bitmap, dev_reg_base, okchartrans, charrecv,
}
use pand_aossh.Nucleus.Clock.{Reaches, tick_all_lem, procq_of-queued}
use pand_aossh.Phase1.Asl.Invariant.{queue}
use pand_aossh.Nucleus.Running.Interrupts.{terminal-yielder, device-yielder, account-yielder}
use pand_aossh.Nucleus.Places.{Placed, PlacedIn, move-Placed, write-Placed}
use pand_aossh.Nucleus.Places.Moves.{ready-Placed, tail-Placed}
use pand_aossh.Nucleus.Places.Blocked.{grab, hand-Placed, remove-Placed}
use pand_aossh.Nucleus.Places.Choice.{IsSound, scheduler-IsSound}

resume-IsSound : (k : Kernel) → PlacedIn [] k → k.yielded_process ≡ none → IsSound (resume k)
unfolding resume
resume-IsSound k v y =
    Option-split IsSound k.current_process (scheduler k) _ (λ c. scheduler-IsSound k v c)
      (λ p c. (v, y, tt))

deliver-PlacedIn :
    (tail : Bool) (status : ℕ) (o : Option ℕ) (k : Kernel)
    → PlacedIn (grab o []) k
    → PlacedIn [] (deliver tail status o k)
unfolding deliver
deliver-PlacedIn tail status none k v = v
deliver-PlacedIn true status (some u) k v = tail-Placed _ u (hand-Placed k.phase1 u _ v refl refl)
deliver-PlacedIn false status (some u) k v =
    ready-Placed _ _ u (hand-Placed k.phase1 u _ v refl refl)

pub complete-PlacedIn :
    (tail : Bool) (index status : ℕ) (k : Kernel)
    → PlacedIn [] k
    → PlacedIn [] (complete tail index status k)
unfolding complete
complete-PlacedIn tail index status k v =
    let sem = dev_sem k index in
    let k1 = inc_mem sem k in
    let r = remove_blocked sem k1.phase1 in
    if-split (PlacedIn []) (is_neg (k.mem sem)) _ k
      (λ _.
        deliver-PlacedIn tail status r.0 (record k1 { phase1 = r.1 })
          (remove-Placed k.phase1 sem v))
      (λ _. v)

pub terminal-PlacedIn :
    (dev : ℕ) (k : Kernel) → PlacedIn [] k → PlacedIn [] (terminal_interrupt dev k)
unfolding terminal_interrupt
terminal-PlacedIn dev k v =
    let base = dev_reg_base 7 dev in
    let tx = k.mem (base + 8) in
    let rx = k.mem base in
    let k1 : Kernel =
      if tx % 256 == okchartrans
      then complete true (term_tx_sem dev) tx (store (base + 12) k.ack k)
      else k in
    let w : PlacedIn [] k1 =
      if-split (PlacedIn []) (tx % 256 == okchartrans) _ k
        (λ _. complete-PlacedIn true (term_tx_sem dev) tx (store (base + 12) k.ack k) v) (λ _. v) in
    if-split (PlacedIn []) (rx % 256 == charrecv) _ k1
      (λ _. complete-PlacedIn false (term_rx_sem dev) _ (store (base + 4) k.ack k1) w) (λ _. w)

-- What the loop over the waiting processes leaves, if it ends.
abbrev Ticked : Option Kernel → Type 0
Ticked none = Unit {0}
Ticked (some t) = PlacedIn [] t × (t.yielded_process ≡ none)

tick_all-PlacedIn :
    (fuel : ℕ) (k : Kernel) → PlacedIn [] k → k.yielded_process ≡ none → Ticked (tick_all fuel k)
unfolding tick_all tick_one
tick_all-PlacedIn zero k v y = tt
tick_all-PlacedIn (suc fuel) k v y =
    let r = remove_blocked (dev_sem k pseudoclk_sem) k.phase1 in
    let k1 = record k { phase1 = r.1 } in
    let taken = remove-Placed k.phase1 (dev_sem k pseudoclk_sem) v in
    Option-split Ticked r.0 (some k) (λ p. tick_all fuel (tick_one p k1)) (λ c. (v, y))
      (λ p c.
        let hand : PlacedIn (p ∷ []) k1 = subst (λ o. PlacedIn (grab o []) k1) c taken in
        tick_all-PlacedIn fuel (tick_one p k1)
          (ready-Placed _ _ p (hand-Placed k1.phase1 p _ hand refl refl)) y)

Reaches-some : (P : Kernel → Type 0) (r : Option Kernel) → Reaches P r → r ≢ none
Reaches-some P none h e = h
Reaches-some P (some t) h e = cc

module _ (k : Kernel) (v : PlacedIn [] k) (y : k.yielded_process ≡ none) where
  plt-IsSound : IsSound (plt_interrupt k)
  unfolding plt_interrupt
  plt-IsSound =
      Option-split IsSound k.current_process _ _ (λ c. scheduler-IsSound _ v c)
        (λ p c.
          let w : Placed [] (some p) k.yielded_process k.ready_queue k.active_procs k.phase1 =
            rw c at v in
          let held : Placed (p ∷ []) none k.yielded_process k.ready_queue k.active_procs k.phase1 =
            move-Placed w (λ a. omega arith) in
          scheduler-IsSound _ (ready-Placed _ _ p (write-Placed k.phase1 p _ held refl refl refl))
            refl)

  interval-IsSound : IsSound (interval_interrupt k)
  unfolding interval_interrupt
  interval-IsSound =
      after (tick_all (suc (queued k.phase1.semd_h)) (record k { interval = psecond }))
        (tick_all-PlacedIn (suc (queued k.phase1.semd_h)) (record k { interval = psecond }) v y)
        (Reaches-some _ _ (
          tick_all_lem (suc (queued k.phase1.semd_h)) (record k { interval = psecond })
            (queue k.phase1 (dev_sem k pseudoclk_sem)) v.asl refl
            (omega (arith, procq_of-queued (dev_sem k pseudoclk_sem) k.phase1.semd_h))))
    where
      after :
          (r : Option Kernel)
          → Ticked r
          → r ≢ none
          → IsSound (elim r [
            | none ↦ (k, out_of_fuel)
            | some k2 ↦ resume (store (dev_sem k2 pseudoclk_sem) 0 k2)
          ])
      after none h n = absurd (n refl)
      after (some k2) (w, z) n = resume-IsSound (store (dev_sem k2 pseudoclk_sem) 0 k2) w z

  device_line-IsSound : (line : ℕ) → IsSound (device_line line k)
  unfolding device_line device_interrupt
  device_line-IsSound line =
      Option-split IsSound (get_highest_priority_device (int_bitmap k line)) (resume k) _
        (λ _. resume-IsSound k v y)
        (λ dev _.
          resume-IsSound _
            (if-split (PlacedIn []) (line == 7) _ _ (λ _. terminal-PlacedIn dev k v)
              (λ _. complete-PlacedIn false _ _ _ v))
            (if-split (λ (t : Kernel). t.yielded_process ≡ none) (line == 7) _ _
              (λ _. terminal-yielder dev k ∙ y) (λ _. device-yielder line dev k ∙ y)))

pub account-PlacedIn : (k : Kernel) → PlacedIn [] k → PlacedIn [] (account k)
unfolding account charge
account-PlacedIn k v =
    Option-split (λ (t : Kernel). PlacedIn [] t) k.current_process _ (λ p. charge p k) (λ _. v)
      (λ p _. write-Placed k.phase1 p _ v refl refl refl)

-- Every interrupt leaves each block in one place.
pub interrupt_handler-IsSound :
    (k : Kernel) → PlacedIn [] k → k.yielded_process ≡ none → IsSound (interrupt_handler k)
unfolding interrupt_handler
interrupt_handler-IsSound k v y =
    let t = account k in
    let w = account-PlacedIn k v in
    let z : t.yielded_process ≡ none = account-yielder k ∙ y in
    let code = k.saved_state.cause % 256 in
    if-split IsSound (code == 7) _ _ (λ _. plt-IsSound t w z)
      (λ _.
        if-split IsSound (code == 3) _ _ (λ _. interval-IsSound t w z)
          (λ _.
            if-split IsSound (leb 17 code && leb code 21) _ _
              (λ _. device_line-IsSound t w z (code - 14)) (λ _. resume-IsSound t w z)))
