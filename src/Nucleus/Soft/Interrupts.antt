-- ===== src/Nucleus/Soft/Interrupts.antt =====
-- The interrupts keep the count of the processes that wait for a device or the clock.
use pand_aossh.Prelude.{
  ℕ, zero, suc, ◌+◌, ◌-◌, ◌*◌, ◌%◌, ◌≤◌, ◌<◌, ◌≡◌, refl, sym, ap, ◌∙◌, subst, Bool, true, false,
  ◌||◌, ◌&&◌, Option, none, some, [], ◌∷◌, arith, ◌==◌, ltb, leb, if◌then◌else◌, inl, inr,
  Option-split, ==_refl, if-split,
}
use pand_aossh.Prelude.Words.{dec32, is_neg}
use pand_aossh.Types.{Pcb, Phase1}
use pand_aossh.Phase1.Pcb.{set_pcb}
use pand_aossh.Phase1.Asl.{remove_blocked}
use pand_aossh.Nucleus.Globals.{
  Kernel, out_of_fuel, charge, inc_mem, store, dev_sem, pseudoclk_sem, term_tx_sem, term_rx_sem,
  dev_sem_base,
}
use pand_aossh.Nucleus.Scheduler.{scheduler}
use pand_aossh.Nucleus.Interrupts.{
  never, psecond, account, resume, plt_interrupt, tick_one, tick_all, interval_interrupt, queued,
  deliver, complete, terminal_interrupt, device_interrupt, device_line, interrupt_handler,
  get_highest_priority_device, int_bitmap, dev_reg_base, okchartrans, charrecv,
}
use pand_aossh.Nucleus.Devices.{Lowest, get_highest_priority_device-Lowest, is_device_semaphore_iff}
use pand_aossh.Nucleus.Places.{PlacedIn}
use pand_aossh.Nucleus.Places.Moves.{ready-Placed}
use pand_aossh.Nucleus.Places.Blocked.{hand-Placed}
use pand_aossh.Nucleus.Places.Interrupts.{account-PlacedIn, complete-PlacedIn}
use pand_aossh.Nucleus.Soft.{is_soft, bit_of, soft_waiters, IsCounted, Counted, hand_soft}
use pand_aossh.Nucleus.Soft.Queues.{soft_le, Takes, remove_blocked-Takes}
use pand_aossh.Nucleus.Soft.Steps.{scheduler-IsCounted, write-IsCounted}

resume-IsCounted : (base : ℕ) (k : Kernel) → IsCounted base k → Counted base (resume k)
unfolding resume
resume-IsCounted base k n =
    Option-split (Counted base) k.current_process (scheduler k) _
      (λ _. scheduler-IsCounted base k n) (λ _ _. n)

-- A process that left such a semaphore is counted off.
woken_counts :
    (base sem p : ℕ) (c : Pcb) (k : Kernel) (t : Phase1)
    → is_soft base sem ≡ true
    → PlacedIn [] k
    → IsCounted base k
    → PlacedIn (p ∷ []) (record k { phase1 = t })
    → soft_waiters base t + bit_of (is_soft base sem) ≡ soft_waiters base k.phase1
    → c.p_parent ≡ (t.table p).p_parent
    → c.p_child ≡ (t.table p).p_child
    → dec32 k.soft_block_count ≡ soft_waiters base (set_pcb p c t)
woken_counts base sem p c k t z v n w m e f =
    let less : soft_waiters base t + 1 ≡ soft_waiters base k.phase1 =
      subst (λ b. soft_waiters base t + bit_of b ≡ soft_waiters base k.phase1) z m in
    let same =
      hand_soft base t (set_pcb p c t) p refl (λ a h. ground (arith, h)) w
        (hand-Placed t p c w e f) in
    let l = soft_le base k.phase1 v in let count = n.1 in omega (arith, less, same, l, count)

device_soft : (base index : ℕ) → index < pseudoclk_sem → is_soft base (base + 4 * index) ≡ true
device_soft base index h =
    let e = (is_device_semaphore_iff base index).0 in
    let l : ltb index pseudoclk_sem ≡ true = ground (arith, h) in
    ap (λ b. b || (base + 4 * index == base + 4 * pseudoclk_sem)) (e ∙ l)

deliver-IsCounted :
    (base sem : ℕ) (tail : Bool) (status : ℕ) (r : Option ℕ × Phase1) (k : Kernel)
    → is_soft base sem ≡ true
    → PlacedIn [] k
    → IsCounted base k
    → Takes base k sem r
    → IsCounted base (deliver tail status r.0 (record k { phase1 = r.1 }))
unfolding deliver
deliver-IsCounted base sem tail status (r, t) k z v (d, n) (inl (e, f)) =
    rw e (d, n ∙ ap (soft_waiters base) (sym f))
deliver-IsCounted base sem tail status (r, t) k z v n (inr (p, e, w, m)) =
    rw e (n.0, woken_counts base sem p _ k t z v n w m refl refl)

complete-IsCounted :
    (base : ℕ) (tail : Bool) (index status : ℕ) (k : Kernel)
    → index < pseudoclk_sem
    → PlacedIn [] k
    → IsCounted base k
    → IsCounted base (complete tail index status k)
unfolding complete
complete-IsCounted base tail index status k h v n =
    let sem = dev_sem k index in
    let k1 = inc_mem sem k in
    let z : is_soft base sem ≡ true =
      subst (λ b. is_soft base (b + 4 * index) ≡ true) (sym n.0) (device_soft base index h) in
    if-split (IsCounted base) (is_neg (k.mem sem)) _ k
      (λ _.
        deliver-IsCounted base sem tail status (remove_blocked sem k1.phase1) k1 z v n
          (remove_blocked-Takes base k1 sem v))
      (λ _. n)

terminal-IsCounted :
    (base dev : ℕ) (k : Kernel)
    → dev < 8
    → PlacedIn [] k
    → IsCounted base k
    → IsCounted base (terminal_interrupt dev k)
unfolding terminal_interrupt
terminal-IsCounted base dev k h v n =
    let a = dev_reg_base 7 dev in
    let tx = k.mem (a + 8) in
    let rx = k.mem a in
    let k0 = store (a + 12) k.ack k in
    let k1 : Kernel =
      if tx % 256 == okchartrans then complete true (term_tx_sem dev) tx k0 else k in
    let w : PlacedIn [] k1 =
      if-split (PlacedIn []) (tx % 256 == okchartrans) _ k
        (λ _. complete-PlacedIn true (term_tx_sem dev) tx k0 v) (λ _. v) in
    let m : IsCounted base k1 =
      if-split (IsCounted base) (tx % 256 == okchartrans) _ k
        (λ _. complete-IsCounted base true (term_tx_sem dev) tx k0 (omega (arith, h)) v n)
        (λ _. n) in
    if-split (IsCounted base) (rx % 256 == charrecv) _ k1
      (λ _.
        complete-IsCounted base false (term_rx_sem dev) _ (store (a + 4) k.ack k1)
          (omega (arith, h)) w m)
      (λ _. m)

clock_soft : (base : ℕ) → is_soft base (base + 4 * pseudoclk_sem) ≡ true
clock_soft base =
    let e = ==_refl (base + 4 * pseudoclk_sem) in
    let d = (is_device_semaphore_iff base pseudoclk_sem).0 in
    ap (λ b. b || (base + 4 * pseudoclk_sem == base + 4 * pseudoclk_sem)) d ∙ e

abbrev taken : Option ℕ → ℕ
taken none = 0
taken (some p) = p

-- The loop over the processes that wait for the clock.
abbrev Ticked : (base : ℕ) → Option Kernel → Type 0
Ticked base none = Unit {0}
Ticked base (some t) = IsCounted base t

tick_all-Ticked :
    (base fuel : ℕ) (k : Kernel) → PlacedIn [] k → IsCounted base k → Ticked base (tick_all fuel k)
unfolding tick_all tick_one
tick_all-Ticked base zero k v n = tt
tick_all-Ticked base (suc fuel) k v n =
    let sem = dev_sem k pseudoclk_sem in
    let r = remove_blocked sem k.phase1 in
    let k1 = record k { phase1 = r.1 } in
    let z : is_soft base sem ≡ true =
      subst (λ b. is_soft base (b + 4 * pseudoclk_sem) ≡ true) (sym n.0) (clock_soft base) in
    let again : (p : ℕ) → r.0 ≡ some p → Ticked base (tick_all fuel (tick_one p k1)) = (λ p e.
      elim (remove_blocked-Takes base k sem v) [
        | inl (none_e, f) ↦ absurd cc
        | inr (q, q_e, w, m) ↦
            let same : some q ≡ some p = sym q_e ∙ e in
            let q_p : q ≡ p = ap (λ (o : Option ℕ). taken o) same in
            let w_p : PlacedIn (p ∷ []) k1 = subst (λ a. PlacedIn (a ∷ []) k1) q_p w in
            let d : dec32 k.soft_block_count ≡ soft_waiters base (tick_one p k1).phase1 =
              woken_counts base sem p _ k r.1 z v n w_p m refl refl in
            tick_all-Ticked base fuel (tick_one p k1)
              (ready-Placed _ _ p (hand-Placed r.1 p _ w_p refl refl)) (n.0, d)
      ]) in
    Option-split (Ticked base) r.0 (some k) (λ p. tick_all fuel (tick_one p k1)) (λ _. n) again

module _ (base : ℕ) (k : Kernel) (v : PlacedIn [] k) (n : IsCounted base k) where
  plt-IsCounted : Counted base (plt_interrupt k)
  unfolding plt_interrupt
  plt-IsCounted =
      Option-split (Counted base) k.current_process _ _
        (λ _. scheduler-IsCounted base (record k { timer = never }) n)
        (λ p _. scheduler-IsCounted base _ (write-IsCounted base p _ k refl n))

  interval-IsCounted : Counted base (interval_interrupt k)
  unfolding interval_interrupt
  interval-IsCounted =
      let k1 = record k { interval = psecond } in
      let fuel = suc (queued k.phase1.semd_h) in
      let all = tick_all-Ticked base fuel k1 v n in
      Option-split (Counted base) (tick_all fuel k1) (k, out_of_fuel)
        (λ t. resume (store (dev_sem t pseudoclk_sem) 0 t)) (λ _. n)
        (λ t e.
          resume-IsCounted base (store (dev_sem t pseudoclk_sem) 0 t) (subst (Ticked base) e all))

  device_line-IsCounted : (line : ℕ) → line ≤ 7 → Counted base (device_line line k)
  unfolding device_line device_interrupt
  device_line-IsCounted line l =
      let lowest = get_highest_priority_device-Lowest (int_bitmap k line) in
      Option-split (Counted base) (get_highest_priority_device (int_bitmap k line)) (resume k) _
        (λ _. resume-IsCounted base k n)
        (λ dev e.
          let small : dev < 8 = (subst (Lowest 8 0 (int_bitmap k line)) e lowest).1 in
          resume-IsCounted base _ (
            if-split (IsCounted base) (line == 7) _ _ (λ _. terminal-IsCounted base dev k small v n)
              (λ b.
                let index : dev_sem_base line dev < pseudoclk_sem = ground (arith, l, small, b) in
                complete-IsCounted base false (dev_sem_base line dev) _
                  (store (dev_reg_base line dev + 4) k.ack k) index v n)))

account-IsCounted : (base : ℕ) (k : Kernel) → IsCounted base k → IsCounted base (account k)
unfolding account charge
account-IsCounted base k n =
    Option-split (IsCounted base) k.current_process _ (λ p. charge p k) (λ _. n)
      (λ p _. write-IsCounted base p _ k refl n)

-- Every interrupt keeps the count.
pub interrupt_handler-IsCounted :
    (base : ℕ) (k : Kernel) → PlacedIn [] k → IsCounted base k → Counted base (interrupt_handler k)
unfolding interrupt_handler
interrupt_handler-IsCounted base k v n =
    let t = account k in
    let w = account-PlacedIn k v in
    let m = account-IsCounted base k n in
    let code = k.saved_state.cause % 256 in
    if-split (Counted base) (code == 7) _ _ (λ _. plt-IsCounted base t w m)
      (λ _.
        if-split (Counted base) (code == 3) _ _ (λ _. interval-IsCounted base t w m)
          (λ _.
            if-split (Counted base) (leb 17 code && leb code 21) _ _
              (λ e. device_line-IsCounted base t w m (code - 14) (ground (arith, e)))
              (λ _. resume-IsCounted base t m)))
