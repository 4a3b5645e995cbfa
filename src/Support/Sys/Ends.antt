-- ===== src/Support/Sys/Ends.antt =====
-- The handler of the Support Level always leaves: a read cannot go on beyond the page table's pages.
use pand_aossh.Prelude.{ℕ, ◌+◌, ◌-◌, ◌*◌, ◌≡◌, Option, none, some, if◌then◌else◌, ltb, leb}
use pand_aossh.Types.{State}
use pand_aossh.Support.Init.{Sys, userstacktop}
use pand_aossh.Support.Sys.{Leave, ldst, ended, out_of_fuel, kuseg}
use pand_aossh.Support.Sys.Handler.{behind}

-- From each address between the bounds, an address that no page of the page table holds is at most
-- this far.
abbrev pub furthest : ℕ
furthest = 31 * 4096

abbrev limit : ℕ → ℕ
limit addr =
    if ltb addr (kuseg + furthest)
    then kuseg + furthest - addr
    else if leb (userstacktop - 4096) addr
    then userstacktop - addr
    else 0

-- It was not the fuel that ended the loop.
abbrev pub Ends : Option (Option ℕ × Sys) → Type 0
Ends none = ⊥
Ends (some _) = Unit {0}

-- How the handler leaves: behind the `ecall` with some result, or with the U-proc ended.
abbrev pub Leaves : State → Leave × Sys → Type 0
Leaves state (ldst next, s) = (v : ℕ) × (next ≡ behind state v)
Leaves state (ended, s) = Unit {0}
Leaves state (out_of_fuel, s) = ⊥
