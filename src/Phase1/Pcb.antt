-- ===== src/Phase1/Pcb.antt =====
-- phase1/pcb.c: allocation of process control blocks and the process tree.
pub mod Pool
pub mod Tree
use pand_aossh.Prelude.{
  ℕ, Bool, true, false, Option, none, some, List, [], ◌∷◌, ◌++◌, update, range, erase,
}
use pand_aossh.Prelude.Words.{inc32}
use pand_aossh.Types.{Pcb, Phase1}

abbrev pub max_proc : ℕ
max_proc = 20

-- The write `table[p] = c`.
abbrev pub set_pcb : ℕ → Pcb → Phase1 → Phase1
set_pcb p c s = record s { table = update s.table p c }

-- The loop of `initPcbs` over the blocks that are left.
unfoldable pub init_loop : List ℕ → Phase1 → Phase1
init_loop [] s = s
init_loop (p ∷ ps) s = init_loop ps (record s {
  table = update s.table p (record (s.table p) { p_pid = 0 });
  pcb_free = s.pcb_free ++ p ∷ [];
})

unfoldable pub init_pcbs : Phase1 → Phase1
unfolding init_loop
init_pcbs s = init_loop (range 0 max_proc) (record s { pcb_free = [] })

unfoldable pub free_pcb : Option ℕ → Phase1 → Phase1
free_pcb none s = s
free_pcb (some p) s = record s { pcb_free = s.pcb_free ++ p ∷ [] }

-- What `allocPcb` leaves in the block: the processor state is not touched.
abbrev pub fresh_pcb : ℕ → Pcb → Pcb
fresh_pcb pid c = record c {
  p_pid = pid;
  p_child = [];
  p_parent = none;
  p_sem_add = 0;
  p_support_struct = 0;
  p_time = 0;
  p_prio = 0;
}

unfoldable pub alloc_from : List ℕ → Phase1 → Option ℕ × Phase1
alloc_from [] s = (none, s)
alloc_from (p ∷ rest) s = (
  some p,
  record s {
    table = update s.table p (fresh_pcb s.next_pid (s.table p));
    pcb_free = rest;
    next_pid = inc32 s.next_pid;
  },
)

unfoldable pub alloc_pcb : Phase1 → Option ℕ × Phase1
unfolding alloc_from
alloc_pcb s = alloc_from s.pcb_free s

unfoldable pub empty_child : ℕ → Phase1 → Bool
empty_child p s = elim ((s.table p).p_child) [ [] ↦ true | _ ↦ false ]

unfoldable pub insert_child : (prnt p : ℕ) → Phase1 → Phase1
insert_child prnt p s =
    let s1 = set_pcb p (record (s.table p) { p_parent = some prnt }) s in
    set_pcb prnt (record (s1.table prnt) { p_child = (s1.table prnt).p_child ++ p ∷ [] }) s1

unfoldable pub remove_first : ℕ → List ℕ → Phase1 → Option ℕ × Phase1
remove_first p [] s = (none, s)
remove_first p (child ∷ rest) s =
    let s1 = set_pcb p (record (s.table p) { p_child = rest }) s in
    (some child, set_pcb child (record (s1.table child) { p_parent = none }) s1)

unfoldable pub remove_child : Option ℕ → Phase1 → Option ℕ × Phase1
unfolding remove_first
remove_child none s = (none, s)
remove_child (some p) s = remove_first p (s.table p).p_child s

-- The block leaves the list of the parent that it names.
unfoldable pub unlink_sib : (p : ℕ) → Option ℕ → Phase1 → Option ℕ × Phase1
unlink_sib p none s = (none, s)
unlink_sib p (some prnt) s =
    let s1 = set_pcb prnt (record (s.table prnt) { p_child = erase p (s.table prnt).p_child }) s in
    (some p, set_pcb p (record (s1.table p) { p_parent = none }) s1)

unfoldable pub out_child : Option ℕ → Phase1 → Option ℕ × Phase1
unfolding unlink_sib
out_child none s = (none, s)
out_child (some p) s = unlink_sib p (s.table p).p_parent s
