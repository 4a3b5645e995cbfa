-- ===== src/Support/Sys.antt =====
-- phase3/sysSupport.c: the services of the Support Level. An access to a byte of the logical space
-- whose page has no valid entry runs the Pager first, with its calls and the answers that it takes;
-- it may end the U-proc. The memory is the contents of the logical space, in a frame or on the flash.
pub mod Terminal
pub mod Rounds
pub mod Write
pub mod Read
pub mod Handler
pub mod Ends
pub mod Execute
use Prim.Native.Nat.{bit_or}
use pand_aossh.Prelude.{
  ℕ, zero, suc, ◌+◌, ◌*◌, ◌/◌, ◌%◌, ◌^◌, Bool, true, false, ◌||◌, Option, none, some, ltb, leb,
  ◌==◌, if◌then◌else◌, update,
}
use pand_aossh.Prelude.Words.{add32, minus, is_neg}
use pand_aossh.Types.{State}
use pand_aossh.Support.Vm.{
  Vm, dev_mutex, shell_semaphore, Call, passeren, verhogen, transmit, receive, vpn_to_index,
  sup_terminate, pager, Exit, resumed, terminated, is_valid,
}
use pand_aossh.Support.Init.{Sys, call, userstacktop, uprocmax, launch_uproc}

abbrev pub kuseg : ℕ
kuseg = 0x8000_0000

abbrev pub maxstrlen : ℕ
maxstrlen = 128

abbrev pub termw_mutex : ℕ
termw_mutex = 32

abbrev pub termr_mutex : ℕ
termr_mutex = 40

abbrev pub transmitchar : ℕ
transmitchar = 2

abbrev pub receivechar : ℕ
receivechar = 2

-- The page of the address is one of the page table's.
abbrev pub is_mapped : (addr : ℕ) → Bool
is_mapped addr = elim (vpn_to_index addr) [ none ↦ false | some _ ↦ true ]

-- The page of the address is in a frame.
abbrev pub is_resident : (asid addr : ℕ) → Vm → Bool
is_resident asid addr v = elim (vpn_to_index addr) [
  | none ↦ false
  | some p ↦ is_valid (v.page_tables asid p)
]

-- The Pager on an access that faults; `code` is 13 for a load and 15 for a store.
abbrev pub fault : (asid code addr : ℕ) → Sys → Exit × Sys
fault asid code addr s = let r = pager asid code addr s.vm in (r.1, record s { vm = r.0 })

-- What an access to the byte does before it: nothing, or the Pager runs.
unfoldable pub touch : (asid code addr : ℕ) → Sys → Exit × Sys
touch asid code addr s = if is_resident asid addr s.vm then (resumed, s) else fault asid code addr s

abbrev pub end_uproc : (asid : ℕ) → Sys → Sys
end_uproc asid s = record s { vm = sup_terminate asid s.vm }

-- A DOIO on the terminal: its status is the next answer.
abbrev pub terminal : Call → Sys → ℕ × Sys
terminal c s =
    let s1 = call c s in
    (s.vm.answer s.vm.answered, record s1 { vm = record s1.vm { answered = suc s.vm.answered } })

abbrev pub char_command : ℕ → ℕ
char_command c = bit_or (c % 256 * 2 ^ 8) transmitchar

-- The body of the loop of `writeTerminal` behind the access to the character at a; `next` is the rest
-- of the loop.
abbrev pub write_char : (next : Sys → Option ℕ × Sys) → (a : ℕ) → Exit × Sys → Option ℕ × Sys
write_char next a (resumed, t) =
    let r = terminal (transmit (char_command (t.memory a))) t in
    let status = r.0 % 256 in
    let rest = next r.1 in
    if status == 5 then rest else (some (minus status), call (verhogen (dev_mutex termw_mutex)) r.1)
write_char next a (terminated, t) = (none, t)

-- The loop of `writeTerminal`, with n characters left; `none` says that the U-proc was ended.
unfoldable pub write_loop : (n i asid addr : ℕ) → Sys → Option ℕ × Sys
write_loop zero i asid addr s = (some i, call (verhogen (dev_mutex termw_mutex)) s)
write_loop (suc n) i asid addr s =
    write_char (write_loop n (i + 1) asid addr) (addr + i) (touch asid 13 (addr + i) s)

-- The address is outside the logical space.
abbrev pub is_outside : (addr : ℕ) → Bool
is_outside addr = ltb addr kuseg || leb userstacktop addr

unfoldable pub write_terminal : (asid addr len : ℕ) → Sys → Option ℕ × Sys
write_terminal asid addr len s =
    if is_outside addr || is_neg len || ltb maxstrlen len
    then (none, end_uproc asid s)
    else write_loop len 0 asid addr (call (passeren (dev_mutex termw_mutex)) s)

-- The body of the loop of `readTerminal` behind the access to the place a for the character c; `next`
-- is the rest of the loop.
abbrev pub store_char :
    (next : Sys → Option (Option ℕ × Sys)) → (count a c : ℕ) → Exit × Sys → Option (Option ℕ × Sys)
store_char next count a c (resumed, t) =
    let s2 = record t { memory = update t.memory a c } in
    let rest = next s2 in
    if c == b'\n' then some (some (count + 1), call (verhogen (dev_mutex termr_mutex)) s2) else rest
store_char next count a c (terminated, t) = some (none, t)

-- The loop of `readTerminal` with count characters stored, on fuel.
unfoldable pub read_loop : (fuel count asid addr : ℕ) → Sys → Option (Option ℕ × Sys)
read_loop zero count asid addr s = none
read_loop (suc fuel) count asid addr s =
    let r = terminal (receive receivechar) s in
    let status = r.0 % 256 in
    let c = r.0 / 2 ^ 8 % 256 in
    let stored =
      store_char (read_loop fuel (count + 1) asid addr) count (addr + count) c
        (touch asid 15 (addr + count) r.1) in
    if status == 5
    then stored
    else some (some (minus status), call (verhogen (dev_mutex termr_mutex)) r.1)

unfoldable pub read_terminal : (fuel asid addr : ℕ) → Sys → Option (Option ℕ × Sys)
read_terminal fuel asid addr s =
    if is_outside addr
    then some (none, end_uproc asid s)
    else read_loop fuel 0 asid addr (call (passeren (dev_mutex termr_mutex)) s)

unfoldable pub do_execute : (asid : ℕ) → Sys → ℕ × Sys
do_execute asid s =
    if is_neg asid || (asid == 0) || ltb uprocmax asid
    then (minus 1, s)
    else (0, call (passeren shell_semaphore) (launch_uproc asid s))

-- How a handler leaves.
pub data Leave : Type 0 where
  ldst : State → Leave
  ended : Leave
  out_of_fuel : Leave

-- Back to the U-proc behind the `ecall`, with the result in a0.
abbrev pub give_result : State → Option ℕ × Sys → Leave × Sys
give_result state (none, s) = (ended, s)
give_result state (some v, s) =
    (ldst (record state { reg_a0 = v; pc_epc = add32 state.pc_epc 4 }), s)

unfoldable pub sup_syscall_handler : (fuel asid : ℕ) → State → Sys → Leave × Sys
sup_syscall_handler fuel asid state s =
    let number = state.reg_a0 in
    let executed = do_execute state.reg_a1 s in
    if number == 2
    then (ended, end_uproc asid s)
    else if number == 4
    then give_result state (write_terminal asid state.reg_a1 state.reg_a2 s)
    else if number == 5
    then (elim (read_terminal fuel asid state.reg_a1 s) [
      | none ↦ (out_of_fuel, s)
      | some r ↦ give_result state r
    ])
    else if number == 6
    then give_result state (some executed.0, executed.1)
    else (ended, end_uproc asid s)

unfoldable pub general_exception_handler : (fuel asid : ℕ) → State → Sys → Leave × Sys
general_exception_handler fuel asid state s =
    if state.cause % 256 == 8
    then sup_syscall_handler fuel asid state s
    else (ended, end_uproc asid s)
