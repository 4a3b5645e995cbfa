-- ===== src/Nucleus/Places/Finish.antt =====
-- The end of `terminateProcess`: the block leaves every place and becomes free.
use pand_aossh.Prelude.{
  ℕ, ◌+◌, ◌≤◌, ◌≡◌, refl, sym, ap, ◌∙◌, subst, Option, none, some, List, [], ◌∷◌, arith, ◌==◌,
  if◌then◌else◌, erase, length, inl, inr, Bool-cases, ==→eq, ==_refl, if-split, Option-split,
}
use pand_aossh.Prelude.Counts.{one, occurs, held}
use pand_aossh.Types.{Pcb, Phase1, Semd}
use pand_aossh.Phase1.ProcQ.{out_proc_q}
use pand_aossh.Phase1.Asl.{find, set_sem_add, shrink, out_from, remove_at, out_blocked}
use pand_aossh.Phase1.Asl.Invariant.{queue}
use pand_aossh.Nucleus.Globals.{Kernel, active_procs_remove}
use pand_aossh.Nucleus.Process.{unblock, forget}
use pand_aossh.Nucleus.Places.{Placed, IsLive, listed, move-Placed, waiting, inside, SameFamily}
use pand_aossh.Nucleus.Places.Moves.{queue_null}
use pand_aossh.Nucleus.Places.Blocked.{out-Placed, hand-Placed}

held-forget : (p a : ℕ) (o : Option ℕ) → held (forget p o) a ≡ (if p == a then 0 else held o a)
held-forget p a none = ground arith
held-forget p a (some q) = ground arith

occurs-out_proc_q :
    (p a : ℕ) (l : List ℕ)
    → occurs p l ≤ 1
    → occurs a (out_proc_q p l).1 ≡ (if p == a then 0 else occurs a l)
unfolding out_proc_q
occurs-out_proc_q p a [] h = ground arith
occurs-out_proc_q p a (x ∷ l) h = ground (arith, occurs-out_proc_q p a l)

pub listed-active_procs_remove :
    (p a : ℕ) (l : List (Option ℕ))
    → 1 ≤ listed l p
    → listed (active_procs_remove p l) a + one p a ≡ listed l a
unfolding active_procs_remove
listed-active_procs_remove p a [] h = absurd (omega arith)
listed-active_procs_remove p a (none ∷ l) h = ground (arith, listed-active_procs_remove p a l)
listed-active_procs_remove p a (some q ∷ l) h = ground (arith, listed-active_procs_remove p a l)

pub length-active_procs_remove :
    (p : ℕ) (l : List (Option ℕ)) → length (active_procs_remove p l) ≡ length l
unfolding active_procs_remove
length-active_procs_remove p [] = refl
length-active_procs_remove p (none ∷ l) = omega (arith, length-active_procs_remove p l)
length-active_procs_remove p (some q ∷ l) = ground (arith, length-active_procs_remove p l)

-- The ready queue and the current process without the block.
cleared :
    (p a : ℕ) (current : Option ℕ) (ready : List ℕ)
    → occurs p ready ≤ 1
    → held (forget p current) a
        + occurs a (out_proc_q p ready).1
        + (if p == a then held current p + occurs p ready else 0)
      ≡ held current a + occurs a ready
cleared p a current ready h =
    let e = held-forget p a current in
    let f = occurs-out_proc_q p a ready h in
    elim (Bool-cases (p == a)) [
      | inl z ↦
          let same = ==→eq p a z in
          let c : held current p ≡ held current a = ap (held current) same in
          let r : occurs p ready ≡ occurs a ready = ap (λ b. occurs b ready) same in
          ground (arith, e, f, z, c, r)
      | inr z ↦ ground (arith, e, f, z)
    ]

module _ {current : Option ℕ} {ready : List ℕ} {active : List (Option ℕ)} (p : ℕ) (s : Phase1) where
  taken-Placed :
      Placed (p ∷ []) current none ready active s
      → Placed (p ∷ []) (forget p current) none (out_proc_q p ready).1 active s
  taken-Placed v =
      let e = v.place p in
      let i : inside p ≤ 1 = ground arith in
      let few : occurs p ready + held current p ≤ 0 =
        let r = ==_refl p in ground (arith, e, i, r) in
      move-Placed v
        (λ a. let c = cleared p a current ready (omega (arith, few)) in ground (arith, c, few))

  running-Placed :
      Placed [] current none ready active s
      → IsLive s p
      → waiting s p ≡ 0
      → Placed (p ∷ []) (forget p current) none (out_proc_q p ready).1 active s
  running-Placed v h w =
      let e = v.place p in
      let i : inside p ≡ 1 = let l = h.1 in ground (arith, l) in
      let f = h.0 in
      let few : held current p + occurs p ready ≡ 1 = omega (arith, e, i, w, f) in
      move-Placed v
        (λ a. let c = cleared p a current ready (omega (arith, few)) in ground (arith, c, few))

pub unblock-phase1 :
    (p : ℕ) (k : Kernel)
    → (unblock p k).phase1 ≡ (
        if (k.phase1.table p).p_sem_add == 0
        then k.phase1
        else set_sem_add p 0 (out_blocked (some p) k.phase1).1)
unfolding unblock
unblock-phase1 p k = ground arith

-- What `finish` does before the block is freed.
pub unblock-Placed :
    {current : Option ℕ} {ready : List ℕ} {active : List (Option ℕ)} (p : ℕ) (k : Kernel)
    → Placed [] current none ready active k.phase1
    → IsLive k.phase1 p
    → Placed (p ∷ []) (forget p current) none (out_proc_q p ready).1 active (unblock p k).phase1
unblock-Placed {current} {ready} {active} p k v h =
    let s = k.phase1 in
    let P : Phase1 → Type 0 =
      λ t. Placed (p ∷ []) (forget p current) none (out_proc_q p ready).1 active t in
    let sem : ℕ = (s.table p).p_sem_add in
    let t = (out_blocked (some p) s).1 in
    subst P (sym (unblock-phase1 p k)) (
      if-split P (sem == 0) s (set_sem_add p 0 t)
        (λ z.
          let null : queue s 0 ≡ [] = queue_null s v.asl in
          let w : waiting s p ≡ 0 =
            ap (λ j. occurs p (queue s j)) (==→eq sem 0 z) ∙ ap (occurs p) null in
          running-Placed p s v h w)
        (λ z. elim (out-Placed s p v) [
          | inl (e, w) ↦ hand-Placed t p _ (taken-Placed p t w) refl refl
          | inr (e, same, w) ↦
              hand-Placed t p _ (subst P (sym same) (running-Placed p s v h w)) refl refl
        ]))

pub unblock-others :
    (p : ℕ) (k : Kernel)
    → ((unblock p k).ready_queue ≡ k.ready_queue)
      × ((unblock p k).current_process ≡ k.current_process)
      × ((unblock p k).active_procs ≡ k.active_procs)
unfolding unblock
unblock-others p k = ground arith

shrink-table : (sem : ℕ) (d : Semd) (q : List ℕ) (s : Phase1) → (shrink sem d q s).table ≡ s.table
unfolding shrink
shrink-table sem d [] s = refl
shrink-table sem d (x ∷ q) s = refl

-- The families and the process ids of the two are the same.
pub record SameNames (s t : Phase1) : Type 0 where
  pub family : SameFamily s t
  pub pids : (q : ℕ) → (t.table q).p_pid ≡ (s.table q).p_pid

remove_at-SameNames : (sem p : ℕ) (d : Semd) (s : Phase1) → SameNames s (remove_at sem p d s).1
unfolding remove_at
remove_at-SameNames sem p d s =
    let e : (q : ℕ)
        → (shrink sem d (erase p d.s_procq) (set_sem_add p 0 s)).table q
          ≡ (set_sem_add p 0 s).table q =
      λ q. ap (λ (f : ℕ → Pcb). f q) (shrink-table sem d (erase p d.s_procq) (set_sem_add p 0 s)) in
    record {
      family = record {
        parents = λ q. let f = e q in ground (arith, f);
        lists = λ q. let f = e q in ground (arith, f);
      };
      pids = λ q. let f = e q in ground (arith, f);
    }

SameNames-refl : (s : Phase1) → SameNames s s
SameNames-refl s = record {
  family = record { parents = λ q. refl; lists = λ q. refl };
  pids = λ q. refl;
}

out_blocked-SameNames : (p : ℕ) (s : Phase1) → SameNames s (out_blocked (some p) s).1
unfolding out_blocked out_from
out_blocked-SameNames p s = go (s.table p).p_sem_add
  where
    go : (sem : ℕ) → SameNames s (out_from sem p s).1
    go sem =
        if-split (λ (r : Option ℕ × Phase1). SameNames s r.1) (sem == 0) (none, s) _
          (λ h. SameNames-refl s)
          (λ h.
            Option-split (λ (r : Option ℕ × Phase1). SameNames s r.1) (find sem s.semd_h) (none, s)
              (λ d. remove_at sem p d s) (λ c. SameNames-refl s)
              (λ d c. remove_at-SameNames sem p d s))

pub unblock-SameNames : (p : ℕ) (k : Kernel) → SameNames k.phase1 (unblock p k).phase1
unblock-SameNames p k =
    let o = out_blocked-SameNames p k.phase1 in
    subst (SameNames k.phase1) (sym (unblock-phase1 p k)) (
      if-split (SameNames k.phase1) ((k.phase1.table p).p_sem_add == 0) _ _
        (λ _. SameNames-refl k.phase1)
        (λ _. record {
          family = record {
            parents = λ q.
                let e = o.family.parents q in let f = o.family.parents p in ground (arith, e, f);
            lists =
                λ q. let e = o.family.lists q in let f = o.family.lists p in ground (arith, e, f);
          };
          pids = λ q. let e = o.pids q in let f = o.pids p in ground (arith, e, f);
        }))
