-- ===== src/Examples/Queues.antt =====
-- Process queues, the pools, the process tree and the active semaphore list.
use pand_aossh.Prelude.{◌≡◌, refl, some, [], ◌∷◌, arith, range}
use pand_aossh.Listx.{init_list_head, list_add_tail}
use pand_aossh.Listx.Ring.{IsRing, init_list_head-IsRing, list_add_tail-IsRing}
use pand_aossh.Listx.ProcQ.{
  insert_proc_q_lem, remove_proc_q_lem, out_proc_q_lem, Inserts, Done, Takes, Removes,
}
use pand_aossh.Listx.ProcQ
use pand_aossh.Phase1.ProcQ.{insert_proc_q}
use pand_aossh.Phase1.ProcQ.Order.{IsOrdered, Placed, insert_proc_q-Placed, insert_proc_q-IsOrdered}
use pand_aossh.Phase1.Pcb.{max_proc, init_pcbs, insert_child, remove_child, out_child}
use pand_aossh.Phase1.Pcb.Pool.{IsPool, alloc_times, alloc_times-init_pcbs, handed_out}
use pand_aossh.Phase1.Pcb.Tree.{IsTree, Moves, insert_child_lem, remove_child_lem, out_child_lem}
use pand_aossh.Phase1.Pcb.Tree
use pand_aossh.Phase1.Asl.Removal
use pand_aossh.Phase1.Asl.{insert_blocked, remove_blocked, out_blocked, head_blocked}
use pand_aossh.Phase1.Asl.Invariant.{IsAsl, Inserted, insert_blocked_lem}
use pand_aossh.Phase1.Asl.Removal.{remove_blocked_lem, out_blocked_lem, head_blocked_lem}
use pand_aossh.Examples.Data.{blocks, pools, links}

empty-IsRing : IsRing (init_list_head 100 (λ a. record { next = 0; prev = 0 })) 100 []
empty-IsRing = init_list_head-IsRing (λ a. record { next = 0; prev = 0 }) 100

links-IsRing : IsRing links 100 (2 ∷ 1 ∷ [])
links-IsRing =
    list_add_tail-IsRing
      (list_add_tail 2 100 (init_list_head 100 (λ a. record { next = 0; prev = 0 }))) 100 1 (2 ∷ [])
      (list_add_tail-IsRing (init_list_head 100 (λ a. record { next = 0; prev = 0 })) 100 2 []
        empty-IsRing refl)
      refl

insert_proc_q_lem_example :
    Done (Inserts links blocks 100 3 (2 ∷ 1 ∷ [])) (ProcQ.insert_proc_q 3 blocks 100 3 links)
insert_proc_q_lem_example =
    insert_proc_q_lem 3 blocks 3 100 links (2 ∷ 1 ∷ []) links-IsRing refl (omega arith)

remove_proc_q_lem_example : Removes links 100 (2 ∷ 1 ∷ []) (ProcQ.remove_proc_q 100 links)
remove_proc_q_lem_example = remove_proc_q_lem 100 links (2 ∷ 1 ∷ []) links-IsRing

out_proc_q_lem_example : Done (Takes links 100 1 (2 ∷ 1 ∷ [])) (ProcQ.out_proc_q 3 100 1 links)
out_proc_q_lem_example = out_proc_q_lem 3 1 100 links (2 ∷ 1 ∷ []) links-IsRing (omega arith)

ordered : IsOrdered blocks (4 ∷ 2 ∷ 1 ∷ [])
ordered = ((refl, (refl, tt)), ((refl, tt), (tt, tt)))

insert_proc_q-Placed_example :
    Placed blocks 3 (4 ∷ 2 ∷ 1 ∷ []) (insert_proc_q blocks 3 (4 ∷ 2 ∷ 1 ∷ []))
insert_proc_q-Placed_example = insert_proc_q-Placed blocks 3 (4 ∷ 2 ∷ 1 ∷ []) ordered

insert_proc_q-IsOrdered_example : IsOrdered blocks (insert_proc_q blocks 3 (4 ∷ 2 ∷ 1 ∷ []))
insert_proc_q-IsOrdered_example = insert_proc_q-IsOrdered blocks 3 (4 ∷ 2 ∷ 1 ∷ []) ordered

pools-IsPool : IsPool pools
pools-IsPool = record { distinct = (refl, (refl, tt)); inside = λ p m. ground arith }

alloc_times-init_pcbs_example :
    (alloc_times 21 (init_pcbs pools)).0 ≡ handed_out 21 (range 0 max_proc)
alloc_times-init_pcbs_example = alloc_times-init_pcbs 21 pools

pub pools-IsTree : IsTree pools
pools-IsTree = record {
  distinct = λ p. ground arith;
  listed = λ p c e. ground arith;
  owned = λ p c e. ground arith;
}

insert_child_lem_example :
    Moves 0 1 (some 0) (1 ∷ []) pools (insert_child 0 1 pools) × IsTree (insert_child 0 1 pools)
insert_child_lem_example = insert_child_lem pools 0 1 pools-IsTree refl

remove_child_lem_example : Tree.Pops 5 (6 ∷ 7 ∷ []) pools (remove_child (some 5) pools)
remove_child_lem_example = remove_child_lem 5 pools pools-IsTree

out_child_lem_example : Tree.Leaves 7 (some 5) pools (out_child (some 7) pools)
out_child_lem_example = out_child_lem 7 pools pools-IsTree

pub pools-IsAsl : IsAsl pools
pools-IsAsl = record {
  unique = (refl, tt);
  nonzero = refl;
  waiting = ((λ h. cc), tt);
  total = refl;
}

insert_blocked_lem_example :
    Inserted pools pools-IsAsl 0x3000 1 (insert_blocked 0x3000 (some 1) pools)
insert_blocked_lem_example = insert_blocked_lem pools pools-IsAsl 0x3000 1 refl

remove_blocked_lem_example : Removal.Pops 0x1000 (3 ∷ 4 ∷ []) pools (remove_blocked 0x1000 pools)
unfolding pand_aossh.Phase1.Asl.Queues.procq_of
remove_blocked_lem_example = remove_blocked_lem 0x1000 pools pools-IsAsl

out_blocked_lem_example : Removal.Leaves 0x1000 4 pools (out_blocked (some 4) pools)
out_blocked_lem_example = out_blocked_lem 4 pools pools-IsAsl
