-- ===== src/Nucleus/Places/Burial.antt =====
-- The end of `terminateProcess` frees the block.
use pand_aossh.Prelude.{
  ℕ, ◌+◌, ◌≤◌, ◌≡◌, sym, ap, ◌∙◌, true, false, Option, none, some, List, [], ◌∷◌, arith, ◌==◌, has,
  ==→eq, ==_refl,
}
use pand_aossh.Prelude.Counts.{one, occurs, occurs-append}
use pand_aossh.Types.{Phase1}
use pand_aossh.Phase1.Pcb.{out_child, free_pcb}
use pand_aossh.Nucleus.Globals.{Kernel, active_procs_remove}
use pand_aossh.Nucleus.Process.{unblock, finish, forget}
use pand_aossh.Nucleus.Conservation.{unblock-Same}
use pand_aossh.Nucleus.Running.{finish-yielder}
use pand_aossh.Nucleus.Soft.{IsCounted}
use pand_aossh.Nucleus.Soft.Finish.{finish-IsCounted}
use pand_aossh.Nucleus.Places.{Placed, PlacedIn, IsLive, free, listed, inside}
use pand_aossh.Nucleus.Places.Family.{out_child-Placed, out_child-OnlyFamilies}
use pand_aossh.Nucleus.Places.Finish.{
  unblock-Placed, unblock-others, unblock-SameNames, listed-active_procs_remove,
  length-active_procs_remove,
}

module _ {current : Option ℕ} {ready : List ℕ} {active : List (Option ℕ)} (p : ℕ) (s : Phase1) where
  -- A block in hand that has no family becomes free.
  bury-Placed :
      Placed (p ∷ []) current none ready active s
      → (s.table p).p_parent ≡ none
      → (s.table p).p_child ≡ []
      → Placed [] current none ready (active_procs_remove p active) (free_pcb (some p) s)
  unfolding free_pcb
  bury-Placed v e f =
      let here = v.place p in
      let small : inside p ≤ 1 = ground arith in
      let self = ==_refl p in
      let alive = v.alive p in
      let live : (free s p ≡ 0) × (inside p ≡ 1) = ground (arith, here, small, self) in
      let on : 1 ≤ listed active p = let l = live in omega (arith, l.0, l.1, alive) in
      let t = free_pcb (some p) s in
      let n : (a : ℕ) → free t a ≡ free s a + one p a =
        λ a. let o = occurs-append a s.pcb_free (p ∷ []) in omega (arith, o) in
      record {
        asl = record {
          unique = v.asl.unique;
          nonzero = v.asl.nonzero;
          waiting = v.asl.waiting;
          total = v.asl.total;
        };
        named = v.named;
        tree = record { distinct = v.tree.distinct; listed = v.tree.listed; owned = v.tree.owned };
        kin = λ q c g.
            let k = v.kin q c g in
            let n_q = n q in
            let n_c = n c in
            let child : has c (s.table q).p_child ≡ true = v.tree.listed q c g in
            let q_ne : (p == q) ≡ true → has c (s.table q).p_child ≡ false =
              λ z. ap (λ b. has c (s.table b).p_child) (sym (==→eq p q z)) ∙ ap (has c) f in
            let c_ne : (p == c) ≡ true → (s.table c).p_parent ≡ none =
              λ z. ap (λ b. (s.table b).p_parent) (sym (==→eq p c z)) ∙ e in
            let (h, i) = k in
            ((ground (arith, n_q, q_ne, child, h), h.1), (ground (arith, n_c, c_ne, g, i), i.1));
        place = λ a. let m = n a in omega (arith, m, v.place a);
        alive = λ a.
            let m = n a in omega (arith, m, listed-active_procs_remove p a active on, v.alive a);
        slots = length-active_procs_remove p active ∙ v.slots;
      }

-- What the end of `terminateProcess` does for the block p.
pub record Buried (p : ℕ) (k t : Kernel) : Type 0 where
  pub placed : PlacedIn [] t
  pub yielder : t.yielded_process ≡ none
  pub current : t.current_process ≡ forget p k.current_process
  pub frees : (a : ℕ) → free t.phase1 a ≡ free k.phase1 a + one p a
  pub pids : (a : ℕ) → (t.phase1.table a).p_pid ≡ (k.phase1.table a).p_pid
  pub counted : (base : ℕ) → IsCounted base k → IsCounted base t

pub finish-Buried :
    (p : ℕ) (k : Kernel)
    → PlacedIn [] k
    → k.yielded_process ≡ none
    → IsLive k.phase1 p
    → (k.phase1.table p).p_child ≡ []
    → Buried p k (finish p k)
unfolding finish free_pcb
finish-Buried p k v y h f =
    let k1 : Kernel = record k {
      phase1 = (out_child (some p) k.phase1).1;
      active_procs = active_procs_remove p k.active_procs;
    } in
    let t = unblock p k1 in
    let (w, orphan) = out_child-Placed k.phase1 p v in
    let frees = ap (occurs p) (out_child-OnlyFamilies p k.phase1).frees in
    let live : IsLive k1.phase1 p = (frees ∙ h.0, h.1) in
    let start : Placed [] k.current_process none k.ready_queue k.active_procs k1.phase1 =
      rw y at w in
    let same = unblock-SameNames p k1 in
    let others = unblock-others p k1 in
    let out = unblock-Placed p k1 start live in
    let end =
      bury-Placed p t.phase1 out (same.family.parents p ∙ orphan.alone)
        (same.family.lists p ∙ orphan.others p f) in
    let ty : t.yielded_process ≡ none = finish-yielder p k ∙ y in
    record {
      placed = rw (others.1, others.0, others.2, ty) end;
      yielder = finish-yielder p k ∙ y;
      current = ap (forget p) others.1;
      frees = λ a.
          let o = occurs-append a t.phase1.pcb_free (p ∷ []) in
          let e = ap (occurs a) (unblock-Same p k1).0 in
          let g = ap (occurs a) (out_child-OnlyFamilies p k.phase1).frees in omega (arith, o, e, g);
      counted = λ base c. finish-IsCounted base p k v y c;
      pids = λ a. same.pids a ∙ (out_child-OnlyFamilies p k.phase1).pids a;
    }
