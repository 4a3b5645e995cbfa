-- ===== src/Phase1/Asl.antt =====
-- phase1/asl.c: the active semaphore list. Each function walks `semd_h` to the first descriptor
-- with the key; `find` is that walk.
pub mod Queues
pub mod Invariant
pub mod Removal
use pand_aossh.Prelude.{
  ℕ, Option, none, some, List, [], ◌∷◌, ◌++◌, ◌==◌, if◌then◌else◌, range, has, erase,
}
use pand_aossh.Types.{Semd, Phase1}
use pand_aossh.Phase1.Pcb.{max_proc, set_pcb}

unfoldable pub find : ℕ → List Semd → Option Semd
find sem [] = none
find sem (s ∷ rest) = if s.s_key == sem then some s else find sem rest

-- The first descriptor with the key gets another queue.
unfoldable pub set_procq : ℕ → List ℕ → List Semd → List Semd
set_procq sem q [] = []
set_procq sem q (s ∷ rest) =
    if s.s_key == sem then record s { s_procq = q } ∷ rest else s ∷ set_procq sem q rest

-- The first descriptor with the key leaves the list.
unfoldable pub unlink : ℕ → List Semd → List Semd
unlink sem [] = []
unlink sem (s ∷ rest) = if s.s_key == sem then rest else s ∷ unlink sem rest

unfoldable pub init_asl : Phase1 → Phase1
init_asl s = record s { semd_free = range 0 max_proc; semd_h = [] }

abbrev pub set_sem_add : (p sem : ℕ) → Phase1 → Phase1
set_sem_add p sem s = set_pcb p (record (s.table p) { p_sem_add = sem }) s

-- A new descriptor from the free list.
activate : (sem p : ℕ) → List ℕ → Phase1 → ℕ × Phase1
activate sem p [] s = (1, s)
activate sem p (d ∷ rest) s = (
  0,
  set_sem_add p sem (record s {
    semd_free = rest;
    semd_h = s.semd_h ++ record { index = d; s_key = sem; s_procq = p ∷ [] } ∷ [];
  }),
)

-- 0 when the block was queued, 1 otherwise.
unfoldable pub insert_blocked : (sem : ℕ) → Option ℕ → Phase1 → ℕ × Phase1
unfolding activate
insert_blocked sem none s = (1, s)
insert_blocked sem (some p) s = if sem == 0 then (1, s) else elim (find sem s.semd_h) [
  | some d ↦
      (0, set_sem_add p sem (record s { semd_h = set_procq sem (d.s_procq ++ p ∷ []) s.semd_h }))
  | none ↦ activate sem p s.semd_free s
]

-- The descriptor d keeps the queue q; an empty queue sends it back to the free list.
unfoldable pub shrink : (sem : ℕ) → Semd → List ℕ → Phase1 → Phase1
shrink sem d [] s = record s {
  semd_h = unlink sem s.semd_h;
  semd_free = s.semd_free ++ d.index ∷ [];
}
shrink sem d (x ∷ q) s = record s { semd_h = set_procq sem (x ∷ q) s.semd_h }

remove_head : (sem : ℕ) → Semd → List ℕ → Phase1 → Option ℕ × Phase1
remove_head sem d [] s = (none, s)
remove_head sem d (p ∷ rest) s = (some p, shrink sem d rest (set_sem_add p 0 s))

unfoldable pub remove_blocked : (sem : ℕ) → Phase1 → Option ℕ × Phase1
unfolding remove_head
remove_blocked sem s =
    if sem == 0
    then (none, s)
    else elim (find sem s.semd_h) [ none ↦ (none, s) | some d ↦ remove_head sem d d.s_procq s ]

unfoldable pub remove_at : (sem p : ℕ) → Semd → Phase1 → Option ℕ × Phase1
remove_at sem p d s =
    if has p d.s_procq
    then (some p, shrink sem d (erase p d.s_procq) (set_sem_add p 0 s))
    else (none, s)

unfoldable pub out_from : (sem p : ℕ) → Phase1 → Option ℕ × Phase1
unfolding remove_at
out_from sem p s =
    if sem == 0
    then (none, s)
    else elim (find sem s.semd_h) [ none ↦ (none, s) | some d ↦ remove_at sem p d s ]

unfoldable pub out_blocked : Option ℕ → Phase1 → Option ℕ × Phase1
unfolding out_from
out_blocked none s = (none, s)
out_blocked (some p) s = out_from (s.table p).p_sem_add p s

unfoldable pub head_blocked : (sem : ℕ) → Phase1 → Option ℕ
head_blocked sem s = if sem == 0 then none else elim (find sem s.semd_h) [
  | none ↦ none
  | some d ↦ elim (d.s_procq) [ [] ↦ none | p ∷ _ ↦ some p ]
]
