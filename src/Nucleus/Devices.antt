-- ===== src/Nucleus/Devices.antt =====
-- Device numbers, registers and semaphores: what DOIO computes from an address is what the
-- interrupt handler computes from the interrupt.
use pand_aossh.Prelude.{
  ℕ, zero, suc, ◌+◌, ◌*◌, ◌≤◌, ◌<◌, ◌≡◌, true, false, Option, none, some, arith, ◌==◌, ltb, inl,
  inr, Bool-cases, subst, ==→eq, if-split,
}
use pand_aossh.Nucleus.Globals.{
  is_device_semaphore, dev_sem_base, term_tx_sem, term_rx_sem, pseudoclk_sem,
}
use pand_aossh.Nucleus.Syscalls.{doio_sem}
use pand_aossh.Nucleus.Interrupts.{bit, scan_devices, get_highest_priority_device, dev_reg_base}

-- A command written to the register that the interrupt handler acknowledges waits on the semaphore
-- that the handler signals: one for each device of the lines 3 to 6, and two for each terminal.
pub doio_sem-interrupt :
    (line dev : ℕ)
    → 3 ≤ line
    → line < 7
    → dev < 8
    → (doio_sem (dev_reg_base line dev + 4) ≡ dev_sem_base line dev)
      × (doio_sem (dev_reg_base 7 dev + 12) ≡ term_tx_sem dev)
      × (doio_sem (dev_reg_base 7 dev + 4) ≡ term_rx_sem dev)
unfolding doio_sem
doio_sem-interrupt line dev lo hi d = ground arith

-- Two devices never share a semaphore, and none has that of the pseudo-clock.
pub dev_sem_base-injective :
    (line dev line' dev' : ℕ)
    → 3 ≤ line
    → line < 8
    → 3 ≤ line'
    → dev < 8
    → dev' < 8
    → dev_sem_base line dev ≡ dev_sem_base line' dev'
    → (line ≡ line') × (dev ≡ dev') × (dev_sem_base line dev < pseudoclk_sem)
dev_sem_base-injective line dev line' dev' a b c d e h = omega arith

-- Of the words from `devSems[0]` on, `isDeviceSemaphore` holds of those before the pseudo-clock
-- and of no other; it holds of no address below `devSems[0]`.
pub is_device_semaphore_iff :
    (base i : ℕ)
    → (is_device_semaphore base (base + 4 * i) ≡ ltb i pseudoclk_sem)
      × ((sem : ℕ) → sem < base → is_device_semaphore base sem ≡ false)
unfolding is_device_semaphore
is_device_semaphore_iff base i = (ground arith, λ sem h. ground arith)

-- The lowest set bit at or above i among the n that are left.
abbrev pub Lowest : (n i bitmap : ℕ) → Option ℕ → Type 0
Lowest n i bitmap none = (j : ℕ) → i ≤ j → j < i + n → bit bitmap j ≡ false
Lowest n i bitmap (some d) =
    (i ≤ d) × (d < i + n) × (bit bitmap d ≡ true) × ((j : ℕ) → i ≤ j → j < d → bit bitmap j ≡ false)

clear_from :
    (n i bitmap : ℕ)
    → bit bitmap i ≡ false
    → ((j : ℕ) → i + 1 ≤ j → j < n → bit bitmap j ≡ false)
    → (j : ℕ) → i ≤ j
    → j < n
    → bit bitmap j ≡ false
clear_from n i bitmap h rest j a b = elim (Bool-cases (i == j)) [
  | inl e ↦ subst (λ k. bit bitmap k ≡ false) (==→eq i j e) h
  | inr e ↦ rest j (ground arith) b
]

Lowest-suc :
    (n i bitmap : ℕ) (o : Option ℕ)
    → bit bitmap i ≡ false
    → Lowest n (i + 1) bitmap o
    → Lowest (suc n) i bitmap o
Lowest-suc n i bitmap none h l =
    λ j a b. clear_from (i + suc n) i bitmap h (λ m c d. l m c (omega arith)) j a b
Lowest-suc n i bitmap (some d) h l =
    (omega (arith, l.0), omega (arith, l.1), l.2, clear_from d i bitmap h l.3)

scan_devices-Lowest : (n i bitmap : ℕ) → Lowest n i bitmap (scan_devices n i bitmap)
unfolding scan_devices
scan_devices-Lowest zero i bitmap = λ j a b. absurd (omega arith)
scan_devices-Lowest (suc n) i bitmap =
    if-split (Lowest (suc n) i bitmap) (bit bitmap i) (some i) (scan_devices n (i + 1) bitmap)
      (λ h. (omega arith, omega arith, h, λ j a b. absurd (omega arith)))
      (λ h.
        Lowest-suc n i bitmap (scan_devices n (i + 1) bitmap) h
          (scan_devices-Lowest n (i + 1) bitmap))

-- `getHighestPriorityDevice` finds the lowest of the eight bits that is set, if there is one.
pub get_highest_priority_device-Lowest :
    (bitmap : ℕ) → Lowest 8 0 bitmap (get_highest_priority_device bitmap)
unfolding get_highest_priority_device
get_highest_priority_device-Lowest bitmap = scan_devices-Lowest 8 0 bitmap
