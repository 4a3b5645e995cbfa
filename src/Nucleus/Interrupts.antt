-- ===== src/Nucleus/Interrupts.antt =====
-- phase2/interrupts.c. A bit of a word is read by division.
use Prim.Native.Nat.{bit_or}
use pand_aossh.Prelude.{
  ℕ, zero, suc, ◌+◌, ◌-◌, ◌*◌, ◌/◌, ◌%◌, ◌^◌, Bool, true, false, ◌&&◌, Option, none, some, List, [],
  ◌∷◌, ◌++◌, leb, ◌==◌, if◌then◌else◌, length,
}
use pand_aossh.Prelude.Words.{dec32, is_neg}
use pand_aossh.Types.{Semd}
use pand_aossh.Phase1.Asl.{remove_blocked}
use pand_aossh.Nucleus.Globals.{
  Kernel, Outcome, ldst, out_of_fuel, modify_pcb, copy_state, store, inc_mem, pseudoclk_sem,
  dev_sem, dev_sem_base, term_tx_sem, term_rx_sem, charge,
}
use pand_aossh.Nucleus.Scheduler.{scheduler}
use pand_aossh.Nucleus.Syscalls.{make_ready, start_devreg}

abbrev pub never : ℕ
never = 0x7fff_ffff

abbrev pub psecond : ℕ
psecond = 100000

-- `bitmap & (1u << i)`.
abbrev pub bit : (bitmap i : ℕ) → Bool
bit bitmap i = bitmap / 2 ^ i % 2 == 1

-- The loop of `getHighestPriorityDevice` from i on, with n values left; `none` is its -1.
unfoldable pub scan_devices : (n i bitmap : ℕ) → Option ℕ
scan_devices zero i bitmap = none
scan_devices (suc n) i bitmap = if bit bitmap i then some i else scan_devices n (i + 1) bitmap

unfoldable pub get_highest_priority_device : ℕ → Option ℕ
unfolding scan_devices
get_highest_priority_device bitmap = scan_devices 8 0 bitmap

abbrev pub int_bitmap : Kernel → ℕ → ℕ
int_bitmap k line = k.mem (0x10000040 + (line - 3) * 4)

abbrev pub dev_reg_base : (line dev : ℕ) → ℕ
dev_reg_base line dev = start_devreg + (line - 3) * 0x80 + dev * 0x10

-- The accounting at the head of `interruptHandler`: the clock is read in any case.
unfoldable pub account : Kernel → Kernel
unfolding charge
account k = elim k.current_process [
  | none ↦ record k { start_tod = k.tod k.reads; reads = suc k.reads }
  | some p ↦ charge p k
]

-- Nothing else to do: the interrupted process goes on, or another is chosen.
unfoldable pub resume : Kernel → Kernel × Outcome
resume k = elim k.current_process [ none ↦ scheduler k | some _ ↦ (k, ldst k.saved_state) ]

-- The time slice is over.
unfoldable pub plt_interrupt : Kernel → Kernel × Outcome
plt_interrupt k =
    let k1 = record k { timer = never } in
    elim k.current_process [
      | none ↦ scheduler k1
      | some p ↦
          let s = k.saved_state in
          let k2 = copy_state p (record s { status = bit_or s.status 8 }) k1 in
          scheduler (record (make_ready p k2) { current_process = none })
    ]

-- One turn of the loop over the processes that wait for the clock.
unfoldable pub tick_one : ℕ → Kernel → Kernel
tick_one p k =
    let k1 =
      modify_pcb p (λ c. record c { p_sem_add = 0; p_s = record (c.p_s) { reg_a0 = 0 } }) k in
    record (make_ready p k1) { soft_block_count = dec32 k.soft_block_count }

-- The loop, on fuel; `none` says that it ran out.
unfoldable pub tick_all : ℕ → Kernel → Option Kernel
tick_all zero k = none
tick_all (suc fuel) k =
    let r = remove_blocked (dev_sem k pseudoclk_sem) k.phase1 in
    elim (r.0) [ none ↦ some k | some p ↦ tick_all fuel (tick_one p (record k { phase1 = r.1 })) ]

-- The entries of all queues: each turn of the loop takes one off.
unfoldable pub queued : List Semd → ℕ
queued [] = 0
queued (s ∷ rest) = length s.s_procq + queued rest

unfoldable pub interval_interrupt : Kernel → Kernel × Outcome
interval_interrupt k =
    let k1 = record k { interval = psecond } in
    elim (tick_all (suc (queued k.phase1.semd_h)) k1) [
      | none ↦ (k, out_of_fuel)
      | some k2 ↦ resume (store (dev_sem k2 pseudoclk_sem) 0 k2)
    ]

-- A process taken off a device semaphore: its result is the device's status word.
unfoldable pub deliver : (tail : Bool) → (status : ℕ) → Option ℕ → Kernel → Kernel
deliver tail status none k = k
deliver tail status (some u) k =
    let k1 =
      modify_pcb u (λ c. record c { p_sem_add = 0; p_s = record (c.p_s) { reg_a0 = status } }) k in
    record k1 {
      ready_queue = if tail then k1.ready_queue ++ u ∷ [] else (make_ready u k1).ready_queue;
      soft_block_count = dec32 k.soft_block_count;
    }

-- The V on a device semaphore, if a process waits there. `tail` is set for the transmitter, which
-- uses `list_add_tail` where the others use `insertProcQ`.
unfoldable pub complete : (tail : Bool) → (index status : ℕ) → Kernel → Kernel
complete tail index status k =
    let sem = dev_sem k index in
    if is_neg (k.mem sem)
    then (let k1 = inc_mem sem k in
        let r = remove_blocked sem k1.phase1 in
        deliver tail status r.0 (record k1 { phase1 = r.1 }))
    else k

abbrev pub okchartrans : ℕ
okchartrans = 5

abbrev pub charrecv : ℕ
charrecv = 5

unfoldable pub terminal_interrupt : (dev : ℕ) → Kernel → Kernel
terminal_interrupt dev k =
    let base = dev_reg_base 7 dev in
    let tx = k.mem (base + 8) in
    let rx = k.mem base in
    let k1 =
      if tx % 256 == okchartrans
      then complete true (term_tx_sem dev) tx (store (base + 12) k.ack k)
      else k in
    if rx % 256 == charrecv
    then complete false (term_rx_sem dev) (k1.mem base) (store (base + 4) k.ack k1)
    else k1

unfoldable pub device_interrupt : (line dev : ℕ) → Kernel → Kernel
device_interrupt line dev k =
    let base = dev_reg_base line dev in
    complete false (dev_sem_base line dev) (k.mem base) (store (base + 4) k.ack k)

unfoldable pub device_line : (line : ℕ) → Kernel → Kernel × Outcome
device_line line k = elim (get_highest_priority_device (int_bitmap k line)) [
  | none ↦ resume k
  | some dev ↦ resume (if line == 7 then terminal_interrupt dev k else device_interrupt line dev k)
]

unfoldable pub interrupt_handler : Kernel → Kernel × Outcome
interrupt_handler k =
    let code = k.saved_state.cause % 256 in
    let k1 = account k in
    if code == 7
    then plt_interrupt k1
    else if code == 3
    then interval_interrupt k1
    else if leb 17 code && leb code 21
    then device_line (code - 14) k1
    else resume k1
