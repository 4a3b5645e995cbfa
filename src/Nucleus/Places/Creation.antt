-- ===== src/Nucleus/Places/Creation.antt =====
-- CREATEPROCESS keeps each block in one place.
use pand_aossh.Prelude.{
  ℕ, ◌≤◌, ◌≡◌, refl, ap, Option, none, some, List, [], ◌∷◌, arith, ==_refl, Option-split,
}
use pand_aossh.Prelude.Counts.{occurs}
use pand_aossh.Types.{Phase1}
use pand_aossh.Phase1.Pcb.{alloc_pcb, insert_child, alloc_from}
use pand_aossh.Nucleus.Globals.{Kernel, panic, active_procs_add, modify_pcb}
use pand_aossh.Nucleus.Scheduler.{scheduler}
use pand_aossh.Nucleus.Syscalls.{create_process, create_with, start_child}
use pand_aossh.Nucleus.Places.{Placed, PlacedIn, IsLive, free, inside, move-Placed, write-Placed}
use pand_aossh.Nucleus.Places.Moves.{ready-Placed}
use pand_aossh.Nucleus.Places.Family.{insert_child-Placed}
use pand_aossh.Nucleus.Places.Blocked.{hand-Placed}
use pand_aossh.Nucleus.Places.Birth.{active_procs_add-Adds, entry_left, alloc-Placed, Adds}
use pand_aossh.Nucleus.Places.Choice.{IsSound, scheduler-IsSound}

-- A block in hand is live.
hand-IsLive :
    {hand : List ℕ} {current yielder : Option ℕ} {ready : List ℕ} {active : List (Option ℕ)}
    (s : Phase1) (p : ℕ)
    → Placed hand current yielder ready active s
    → 1 ≤ occurs p hand
    → IsLive s p
hand-IsLive s p v h =
    let e = v.place p in
    let r : inside p ≤ 1 = ground arith in (omega (arith, e, h, r), ground (arith, e, h))

start_child-PlacedIn :
    (p child : ℕ) (procs : List (Option ℕ)) (t : Kernel)
    → Placed (child ∷ []) (some p) none t.ready_queue procs t.phase1
    → t.yielded_process ≡ none
    → (t.phase1.table child).p_parent ≡ none
    → PlacedIn [] (start_child p child procs t)
unfolding start_child
start_child-PlacedIn p child procs t v y e =
    let s = t.phase1 in
    let v1 : Placed (p ∷ child ∷ []) none none t.ready_queue procs s =
      move-Placed v (λ a. omega arith) in
    let r_p = ==_refl p in
    let r_c = ==_refl child in
    let s1 = insert_child p child s in
    let v2 : Placed (p ∷ child ∷ []) none none t.ready_queue procs s1 =
      insert_child-Placed s p child v1 (hand-IsLive s p v1 (ground (arith, r_p)))
        (hand-IsLive s child v1 (ground (arith, r_c))) e in
    let s2 = (start_child p child procs t).phase1 in
    let v3 : Placed (p ∷ child ∷ []) none none t.ready_queue procs s2 =
      write-Placed s1 p _ v2 refl refl refl in
    rw y (ready-Placed s2 s2.table child (ready-Placed s2 s2.table p v3))

start_child-idle :
    (p child : ℕ) (procs : List (Option ℕ)) (t : Kernel)
    → (start_child p child procs t).current_process ≡ none
unfolding start_child
start_child-idle p child procs t = refl

module _ (p : ℕ) (k : Kernel) (v : PlacedIn [] k) (y : k.yielded_process ≡ none)
    (c : k.current_process ≡ some p) where
  create_with-IsSound :
      (l : List ℕ)
      → k.phase1.pcb_free ≡ l
      → IsSound (
          create_with p (alloc_from l k.phase1).0 (record k { phase1 = (alloc_from l k.phase1).1 }))
  unfolding create_with alloc_from
  create_with-IsSound [] e = (write-Placed k.phase1 p _ v refl refl refl, y, tt)
  create_with-IsSound (child ∷ rest) e =
      let s = (alloc_from (child ∷ rest) k.phase1).1 in
      let t =
        modify_pcb child
          (λ c. record c {
            p_s = k.user_states k.saved_state.reg_a1;
            p_support_struct = k.saved_state.reg_a3;
            p_prio = k.saved_state.reg_a2;
          })
          (record k { phase1 = s }) in
      let r = ==_refl child in
      let here : 1 ≤ free k.phase1 child = let o = ap (occurs child) e in ground (arith, o, r) in
      Option-split IsSound (active_procs_add child k.active_procs) (t, panic)
        (λ procs. scheduler (start_child p child procs t))
        (λ full. absurd (entry_left k.phase1 child v here full))
        (λ procs found.
          let add : Adds child k.active_procs (some procs) =
            rw found at (active_procs_add-Adds child k.active_procs) in
          let taken = alloc-Placed k.phase1 child v here rest procs e add in
          let ready : Placed (child ∷ []) (some p) none k.ready_queue procs s =
            rw (c, y) at taken in
          let named : Placed (child ∷ []) (some p) none k.ready_queue procs t.phase1 =
            hand-Placed s child _ ready refl refl in
          scheduler-IsSound (start_child p child procs t)
            (start_child-PlacedIn p child procs t named y (ground (arith, r)))
            (start_child-idle p child procs t))

  -- CREATEPROCESS keeps each block in one place, and always finds an entry of `activeProcs`.
  pub create_process-IsSound : IsSound (create_process p k)
  unfolding create_process alloc_pcb
  create_process-IsSound = create_with-IsSound k.phase1.pcb_free refl
