-- ===== src/Support/Vm.antt =====
-- phase3/vmSupport.c: the swap pool, the page tables and the Pager. A SYSCALL is an entry of the
-- trace; the answers of the flash devices are a parameter of the state, read in order. The page
-- tables are those of `supportPool`, by ASID; a pointer to an entry is its ASID and its index.
pub mod Pages
pub mod Mutex
pub mod Pool
pub mod Evict
pub mod Flash
pub mod Paging
pub mod Release
pub mod Failure
pub mod Life
pub mod Agreement
use Prim.Native.Nat.{bit_or}
use pand_aossh.Prelude.{
  ℕ, zero, suc, ◌+◌, ◌-◌, ◌*◌, ◌/◌, ◌%◌, ◌^◌, Bool, true, false, ◌&&◌, Option, none, some, List, [],
  ◌∷◌, ◌++◌, ltb, leb, ◌==◌, if◌then◌else◌, update,
}
use pand_aossh.Prelude.Words.{minus}
use pand_aossh.Types.{State, PteEntry}

abbrev pub swap_pool_size : ℕ
swap_pool_size = 16

abbrev pub swap_pool_start : ℕ
swap_pool_start = 0x20000000 + 32 * 4096

abbrev pub uproc_textpages : ℕ
uproc_textpages = 31

abbrev pub uproc_stackpage : ℕ
uproc_stackpage = 31

abbrev pub dirtyon : ℕ
dirtyon = 0x400

abbrev pub validon : ℕ
validon = 0x200

-- `sw_asid` is -1 for a free frame, as a word.
pub record Swap : Type 0 where
  pub sw_asid : ℕ
  pub sw_page_no : ℕ
  pub sw_pte : ℕ × ℕ

-- The semaphores of the Support Level; `dev_mutex i` is `devMutex[i]`.
pub data Sem : Type 0 where
  swap_pool_sem master_semaphore shell_semaphore : Sem
  dev_mutex : ℕ → Sem

-- `doio` names the flash device and the values of its two registers; `transmit` and `receive` are
-- the DOIO on the two halves of terminal 0. A support structure is named by its ASID.
pub data Call : Type 0 where
  passeren verhogen : Sem → Call
  doio : (dev_no command data0 : ℕ) → Call
  transmit receive : (command : ℕ) → Call
  create_process : State → (prio asid : ℕ) → Call
  term_process : Call

-- `ready` is the emulator's constant READY.
pub record Vm : Type 0 where
  pub swap_pool : ℕ → Swap
  pub fifo_next : ℕ
  pub page_tables : ℕ → ℕ → PteEntry
  pub tlb : List PteEntry
  pub trace : List Call
  pub answer : ℕ → ℕ
  pub answered : ℕ
  pub ready : ℕ

abbrev pub flash_mutex : ℕ → Sem
flash_mutex dev_no = dev_mutex (8 + dev_no)

abbrev pub syscall : Call → Vm → Vm
syscall c v = record v { trace = v.trace ++ c ∷ [] }

unfoldable pub vpn_to_index : (entry_hi : ℕ) → Option ℕ
vpn_to_index entry_hi =
    let vpn = entry_hi / 2 ^ 12 % 2 ^ 20 in
    if vpn == 0xBFFFF
    then some uproc_stackpage
    else if leb 0x80000 vpn && ltb vpn (0x80000 + uproc_textpages)
    then some (vpn - 0x80000)
    else none

abbrev pub frame_addr : ℕ → ℕ
frame_addr i = swap_pool_start + i * 4096

abbrev pub set_pte : ℕ × ℕ → PteEntry → Vm → Vm
set_pte (asid, page) e v = record v {
  page_tables = update v.page_tables asid (update (v.page_tables asid) page e);
}

abbrev pub get_pte : ℕ × ℕ → Vm → PteEntry
get_pte (asid, page) v = v.page_tables asid page

-- `x & ~VALIDON`.
abbrev pub clear_valid : ℕ → ℕ
clear_valid lo = lo - validon * (lo / validon % 2)

-- The entry is not valid any more, and the TLB is cleared.
unfoldable pub mark_page_not_valid : ℕ × ℕ → Vm → Vm
mark_page_not_valid p v =
    let e = get_pte p v in
    record (set_pte p (record e { pte_entry_lo = clear_valid e.pte_entry_lo }) v) { tlb = [] }

-- The entry is valid and the only one in the TLB.
unfoldable pub mark_page_present : ℕ × ℕ → (phys : ℕ) → Vm → Vm
mark_page_present p phys v =
    let e = get_pte p v in
    let e' = record e { pte_entry_lo = bit_or (bit_or phys dirtyon) validon } in
    record (set_pte p e' v) { tlb = e' ∷ [] }

unfoldable pub free_frames : ℕ → (ℕ → Swap) → ℕ → Swap
free_frames zero f = f
free_frames (suc i) f = update (free_frames i f) i (record (f i) { sw_asid = minus 1 })

unfoldable pub init_swap_structs : Vm → Vm
unfolding free_frames
init_swap_structs v = record v { fifo_next = 0; swap_pool = free_frames swap_pool_size v.swap_pool }

-- `asid << ASIDSHIFT` stands below the page number, so `|` is `+`.
abbrev pub entry_hi_of : (vpn asid : ℕ) → ℕ
entry_hi_of vpn asid = bit_or (vpn * 2 ^ 12) (asid * 2 ^ 6)

unfoldable pub page_entry : (asid i : ℕ) → PteEntry
page_entry asid i = record {
  pte_entry_hi = entry_hi_of (if i == uproc_stackpage then 0xBFFFF else 0x80000 + i) asid;
  pte_entry_lo = dirtyon;
}

-- The entries 0 to 30 and the stack page; the array has no others.
unfoldable pub init_uproc_page_table : (asid : ℕ) → Vm → Vm
unfolding page_entry
init_uproc_page_table asid v = record v {
  page_tables =
      update v.page_tables asid (λ i. if ltb i 32 then page_entry asid i else v.page_tables asid i);
}

abbrev pub flashread : ℕ
flashread = 2

abbrev pub flashwrite : ℕ
flashwrite = 3

-- The mutex of the device is held around the operation; the result is the device's status.
unfoldable pub flash_operation : (asid block frame op : ℕ) → Vm → ℕ × Vm
flash_operation asid block frame op v =
    let dev_no = asid - 1 in
    let v1 = syscall (passeren (flash_mutex dev_no)) v in
    let v2 = syscall (doio dev_no (bit_or (block * 2 ^ 8) op) frame) v1 in
    (
      v.answer v.answered,
      syscall (verhogen (flash_mutex dev_no)) (record v2 { answered = suc v.answered }),
    )

abbrev pub is_valid : PteEntry → Bool
is_valid e = e.pte_entry_lo / validon % 2 == 1

-- How the Pager leaves the U-proc.
pub data Exit : Type 0 where
  resumed : Exit
  terminated : Exit

-- The frames below n that the U-proc holds become free.
unfoldable pub release_frames : (n asid : ℕ) → (ℕ → Swap) → ℕ → Swap
release_frames zero asid f = f
release_frames (suc i) asid f =
    let g = release_frames i asid f in
    if (f i).sw_asid == asid then update g i (record (f i) { sw_asid = minus 1 }) else g

-- `supTerminate` of sysSupport.c: it does not return.
unfoldable pub sup_terminate : (asid : ℕ) → Vm → Vm
sup_terminate asid v =
    let v1 = syscall (passeren swap_pool_sem) v in
    let v2 = record v1 { swap_pool = release_frames swap_pool_size asid v1.swap_pool } in
    let waiter = if asid == 1 then master_semaphore else shell_semaphore in
    syscall term_process (syscall (verhogen waiter) (syscall (verhogen swap_pool_sem) v2))

-- The V on the swap pool's semaphore and `supTerminate`.
unfoldable pub give_up : (asid : ℕ) → Vm → Vm × Exit
give_up asid v = (sup_terminate asid (syscall (verhogen swap_pool_sem) v), terminated)

-- Frame i is emptied: its page is invalidated and written back. The status is READY for a frame
-- that was free.
unfoldable pub evict : (i : ℕ) → Vm → ℕ × Vm
evict i v =
    let s = v.swap_pool i in
    if s.sw_asid == minus 1
    then (v.ready, v)
    else flash_operation s.sw_asid s.sw_page_no (frame_addr i) flashwrite
        (mark_page_not_valid s.sw_pte v)

-- Page p of the U-proc is read into frame i and made valid.
unfoldable pub load_page : (asid p i : ℕ) → Vm → Vm × Exit
unfolding give_up
load_page asid p i v =
    let r = flash_operation asid p (frame_addr i) flashread v in
    let v1 = r.1 in
    if r.0 == v.ready
    then (let s : Swap = record { sw_asid = asid; sw_page_no = p; sw_pte = (asid, p) } in
        let v2 = record v1 { swap_pool = update v1.swap_pool i s } in
        (syscall (verhogen swap_pool_sem) (mark_page_present (asid, p) (frame_addr i) v2), resumed))
    else give_up asid v1

unfoldable pub page_in : (asid p i : ℕ) → Vm → Vm × Exit
unfolding give_up
page_in asid p i v =
    let r = evict i v in if r.0 == v.ready then load_page asid p i r.1 else give_up asid r.1

-- The Pager for the U-proc asid, whose saved state has these two registers. A write to a read-only
-- page (code 24) and an address outside the logical space end the U-proc.
unfoldable pub pager : (asid cause entry_hi : ℕ) → Vm → Vm × Exit
unfolding page_in give_up
pager asid cause entry_hi v =
    if cause % 256 == 24
    then (sup_terminate asid v, terminated)
    else (let v1 = syscall (passeren swap_pool_sem) v in
        elim (vpn_to_index entry_hi) [
          | none ↦ give_up asid v1
          | some p ↦
              let i = v1.fifo_next in
              page_in asid p i (record v1 { fifo_next = (i + 1) % swap_pool_size })
        ])
