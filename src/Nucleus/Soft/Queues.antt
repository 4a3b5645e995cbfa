-- ===== src/Nucleus/Soft/Queues.antt =====
-- The ways onto and off the queues, and the number of processes that wait for a device or the clock.
use pand_aossh.Prelude.{
  ℕ, ◌+◌, ◌≤◌, ◌≡◌, refl, sym, ap, ◌∙◌, subst, true, false, Option, none, some, List, [], ◌∷◌,
  arith, ◌==◌, inl, inr, ◌⊎◌, List-cases, ==→eq, ==_refl, if-split,
}
use pand_aossh.Prelude.Counts.{occurs}
use pand_aossh.Types.{Pcb, Phase1}
use pand_aossh.Phase1.Pcb.{max_proc}
use pand_aossh.Phase1.Asl.{remove_blocked, insert_blocked}
use pand_aossh.Phase1.Asl.Invariant.{IsAsl, queue, insert_blocked_lem}
use pand_aossh.Phase1.Asl.Removal.{Pops, remove_blocked_lem}
use pand_aossh.Nucleus.Globals.{Kernel, charge, modify_pcb}
use pand_aossh.Nucleus.Process.{block}
use pand_aossh.Nucleus.Conservation.{remove_blocked-free, insert_blocked-free}
use pand_aossh.Nucleus.Places.{Placed, PlacedIn, waiting, inside, move-Placed, write-Placed}
use pand_aossh.Nucleus.Places.Blocked.{remove-Placed, insert-Placed, hand-Placed, grab}
use pand_aossh.Nucleus.Soft.{is_soft, bit_of, soft_waiters, moved_soft, hand_soft, total_le, soft}

pub soft_le :
    {hand : List ℕ} {current yielder : Option ℕ} {ready : List ℕ} {active : List (Option ℕ)}
    (base : ℕ) (s : Phase1)
    → Placed hand current yielder ready active s
    → soft_waiters base s ≤ max_proc
soft_le base s v = total_le (soft base s) max_proc (λ a.
    let e = v.place a in
    let i : inside a ≤ 1 = ground arith in
    let w : waiting s a ≤ 1 = omega (arith, e, i) in
    if-split (λ (n : ℕ). n ≤ 1) (is_soft base (s.table a).p_sem_add) (waiting s a) 0 (λ _. w)
      (λ _. omega arith))

-- What `removeBlocked` does: nothing, or it takes a block, which is one less.
abbrev pub Takes : (base : ℕ) → Kernel → (sem : ℕ) → Option ℕ × Phase1 → Type 0
Takes base k sem r =
    ((r.0 ≡ none) × (r.1 ≡ k.phase1))
    ⊎ ((p : ℕ) × (r.0 ≡ some p)
        × PlacedIn (p ∷ []) (record k { phase1 = r.1 })
        × (soft_waiters base r.1 + bit_of (is_soft base sem) ≡ soft_waiters base k.phase1))

pub remove_blocked-Takes :
    (base : ℕ) (k : Kernel) (sem : ℕ)
    → PlacedIn [] k
    → Takes base k sem (remove_blocked sem k.phase1)
remove_blocked-Takes base k sem v =
    let s = k.phase1 in
    let r = remove_blocked sem s in
    let h = remove_blocked_lem sem s v.asl in
    elim (List-cases (queue s sem)) [
      | inl e ↦ let g : Pops sem [] s r = rw e at h in inl g
      | inr (p, rest, e) ↦
          let g : Pops sem (p ∷ rest) s r = rw e at h in
          let w : PlacedIn (p ∷ []) (record k { phase1 = r.1 }) =
            subst (λ o. PlacedIn (grab o []) (record k { phase1 = r.1 })) g.0
              (remove-Placed s sem v) in
          let own : (s.table p).p_sem_add ≡ sem =
            v.named p sem (let o = ap (occurs p) e in let q = ==_refl p in ground (arith, o, q)) in
          let d =
            moved_soft base s r.1 p (remove_blocked-free sem s)
              (λ a n. ap (λ (f : ℕ → Pcb). (f a).p_sem_add) g.1.table ∙ ground (arith, n)) v w in
          inr (
            p,
            g.0,
            w,
            subst (λ j. soft_waiters base r.1 + bit_of (is_soft base j) ≡ soft_waiters base s) own
                d,
          )
    ]

insert_blocked-sems :
    (sem p a : ℕ) (s : Phase1)
    → IsAsl s
    → (sem == 0) ≡ false
    → (s.table p).p_sem_add ≡ sem
    → (((insert_blocked sem (some p) s).1.table a).p_sem_add ≡ (s.table a).p_sem_add)
insert_blocked-sems sem p a s v z e = elim (insert_blocked_lem s v sem p z) [
  | inl (_, q) ↦
      let same : (a == p) ≡ true → (s.table a).p_sem_add ≡ sem =
        λ h. ap (λ b. (s.table b).p_sem_add) (==→eq a p h) ∙ e in
      ap (λ (f : ℕ → Pcb). (f a).p_sem_add) q.table ∙ ground (arith, same)
  | inr (_, r) ↦ rw r.unchanged refl
]

-- A process that blocks is one more.
pub block_soft :
    (base sem p : ℕ) (k : Kernel)
    → (sem == 0) ≡ false
    → PlacedIn [] k
    → k.yielded_process ≡ none
    → k.current_process ≡ some p
    → soft_waiters base k.phase1 + bit_of (is_soft base sem)
      ≡ soft_waiters base (block sem p k).phase1
unfolding block charge
block_soft base sem p k z v y c =
    let s = k.phase1 in
    let start : Placed [] (some p) none k.ready_queue k.active_procs s = rw (c, y) at v in
    let taken : Placed (p ∷ []) none none k.ready_queue k.active_procs s =
      move-Placed start (λ a. omega arith) in
    let s1 = (charge p k).phase1 in
    let charged : Placed (p ∷ []) none none k.ready_queue k.active_procs s1 =
      write-Placed s p _ taken refl refl refl in
    let s2 = (modify_pcb p (λ c. record c { p_sem_add = sem }) (charge p k)).phase1 in
    let naming : Placed (p ∷ []) none none k.ready_queue k.active_procs s2 =
      hand-Placed s1 p _ charged refl refl in
    let t = (insert_blocked sem (some p) s2).1 in
    let own : (s2.table p).p_sem_add ≡ sem = let r = ==_refl p in ground (arith, r) in
    let sems = λ (a : ℕ). insert_blocked-sems sem p a s2 naming.asl z own in
    let same = hand_soft base s s2 p refl (λ a n. ground (arith, n)) taken naming in
    let d =
      moved_soft base t s2 p (sym (insert_blocked-free sem p s2)) (λ a n. sym (sems a))
        (insert-Placed s2 sem p z naming) naming in
    let named : (t.table p).p_sem_add ≡ sem = sems p ∙ own in
    let e : soft_waiters base s2 + bit_of (is_soft base sem) ≡ soft_waiters base t =
      subst (λ j. soft_waiters base s2 + bit_of (is_soft base j) ≡ soft_waiters base t) named d in
    rw⁻¹ same e
