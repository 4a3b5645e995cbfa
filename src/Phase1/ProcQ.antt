-- ===== src/Phase1/ProcQ.antt =====
-- phase1/pcb.c: process queues. A queue is the list of its blocks, head first.
pub mod Order
use pand_aossh.Prelude.{
  ℕ, Bool, true, false, Option, none, some, List, [], ◌∷◌, ◌==◌, if◌then◌else◌,
}
use pand_aossh.Prelude.Words.{slt}
use pand_aossh.Types.{Pcb}

abbrev pub mk_empty_proc_q : List ℕ
mk_empty_proc_q = []

abbrev pub empty_proc_q : List ℕ → Bool
empty_proc_q [] = true
empty_proc_q (_ ∷ _) = false

-- Before the first block of lower priority; behind all if there is none.
unfoldable pub insert_proc_q : (table : ℕ → Pcb) (p : ℕ) → List ℕ → List ℕ
insert_proc_q table p [] = p ∷ []
insert_proc_q table p (iter ∷ rest) =
    if slt (table iter).p_prio (table p).p_prio
    then p ∷ iter ∷ rest
    else iter ∷ insert_proc_q table p rest

abbrev pub head_proc_q : List ℕ → Option ℕ
head_proc_q [] = none
head_proc_q (p ∷ _) = some p

abbrev pub remove_proc_q : List ℕ → Option ℕ × List ℕ
remove_proc_q [] = (none, [])
remove_proc_q (p ∷ rest) = (some p, rest)

-- The queue after the loop, and whether the block was found.
unfoldable pub out_proc_q : ℕ → List ℕ → Option ℕ × List ℕ
out_proc_q p [] = (none, [])
out_proc_q p (iter ∷ rest) =
    let r = out_proc_q p rest in if iter == p then (some p, rest) else (r.0, iter ∷ r.1)
