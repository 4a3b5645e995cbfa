-- ===== src/Nucleus/Soft/Finish.antt =====
-- A process that dies blocked on a device or the clock is counted off.
use pand_aossh.Prelude.{
  ℕ, ◌+◌, ◌≤◌, ◌≡◌, refl, sym, ap, ◌∙◌, subst, Bool, false, Option, none, some, List, [], arith,
  ◌==◌, if◌then◌else◌, inl, inr, Bool-cases, has, erase,
}
use pand_aossh.Prelude.Words.{dec32}
use pand_aossh.Prelude.Counts.{occurs}
use pand_aossh.Types.{Pcb, Phase1}
use pand_aossh.Phase1.Pcb.{max_proc, out_child, free_pcb}
use pand_aossh.Phase1.Asl.{out_blocked, set_sem_add}
use pand_aossh.Phase1.Asl.Invariant.{queue}
use pand_aossh.Phase1.Asl.Removal.{Released, out_blocked_lem}
use pand_aossh.Nucleus.Globals.{Kernel, active_procs_remove}
use pand_aossh.Nucleus.Process.{unblock, finish}
use pand_aossh.Nucleus.Conservation.{out_blocked-free}
use pand_aossh.Nucleus.Places.{Placed, PlacedIn}
use pand_aossh.Nucleus.Places.Moves.{queue_null}
use pand_aossh.Nucleus.Places.Blocked.{out-Placed, hand-Placed}
use pand_aossh.Nucleus.Places.Family.{out_child-OnlyFamilies, out_child-Placed}
use pand_aossh.Nucleus.Places.Finish.{unblock-phase1}
use pand_aossh.Nucleus.Soft.{
  is_soft, bit_of, soft_waiters, IsCounted, moved_soft, hand_soft, SameWaits-soft, write_soft,
}
use pand_aossh.Nucleus.Soft.Queues.{soft_le}

unblock-count :
    (p : ℕ) (k : Kernel)
    → ((unblock p k).dev_sems ≡ k.dev_sems)
      × ((unblock p k).soft_block_count ≡ (
          if (k.phase1.table p).p_sem_add == 0
          then k.soft_block_count
          else elim ((out_blocked (some p) k.phase1).0) [
            | none ↦ k.soft_block_count
            | some _ ↦
                if is_soft k.dev_sems (k.phase1.table p).p_sem_add
                then dec32 k.soft_block_count
                else k.soft_block_count
          ]))
unfolding unblock
unblock-count p k = ground arith

out_blocked-sems :
    (p a : ℕ) {hand : List ℕ} {current yielder : Option ℕ} {ready : List ℕ}
    {active : List (Option ℕ)} (s : Phase1)
    → Placed hand current yielder ready active s
    → (a == p) ≡ false
    → ((out_blocked (some p) s).1.table a).p_sem_add ≡ (s.table a).p_sem_add
out_blocked-sems p a s v n =
    let sem = (s.table p).p_sem_add in
    let r = out_blocked (some p) s in
    let h = out_blocked_lem p s v.asl in
    elim (Bool-cases (has p (queue s sem))) [
      | inl here ↦
          let g : (r.0 ≡ some p) × Released sem p (erase p (queue s sem)) s r.1 = rw here at h in
          ap (λ (f : ℕ → Pcb). (f a).p_sem_add) g.1.table ∙ ground (arith, n)
      | inr away ↦ let g : (r.0 ≡ none) × (r.1 ≡ s) = rw away at h in rw g.1 refl
    ]

-- The bits of a word that counts c fewer.
dec_counts : (b : Bool) (n m : ℕ) → m + bit_of b ≡ n → n ≤ max_proc → (if b then dec32 n else n) ≡ m
dec_counts b n m e l = ground (arith, e, l)

unblock-IsCounted :
    {current : Option ℕ} {ready : List ℕ} {active : List (Option ℕ)} (base p : ℕ) (k : Kernel)
    → Placed [] current none ready active k.phase1
    → IsCounted base k
    → IsCounted base (unblock p k)
unblock-IsCounted base p k v (d, n) =
    let s = k.phase1 in
    let sem : ℕ = (s.table p).p_sem_add in
    let r = out_blocked (some p) s in
    let t = set_sem_add p 0 r.1 in
    let c = k.soft_block_count in
    let dropped : ℕ = if is_soft base sem then dec32 c else c in
    let count : (unblock p k).soft_block_count
        ≡ (if sem == 0 then c else elim (r.0) [ none ↦ c | some _ ↦ dropped ]) =
      subst
        (λ b. (unblock p k).soft_block_count ≡ (
          if sem == 0
          then c
          else elim (r.0) [ none ↦ c | some _ ↦ if is_soft b sem then dec32 c else c ]))
        d (unblock-count p k).1 in
    let le : c ≤ max_proc = let l = soft_le base s v in omega (arith, n, l) in
    let after : (if sem == 0 then c else elim (r.0) [ none ↦ c | some _ ↦ dropped ])
        ≡ soft_waiters base (if sem == 0 then s else t) =
      elim (Bool-cases (sem == 0)) [
        | inl z ↦ rw z n
        | inr z ↦ rw z (elim (out-Placed s p v) [
          | inl (e, w) ↦
              let moved =
                moved_soft base s r.1 p (out_blocked-free p s) (λ a h. out_blocked-sems p a s v h) v
                  w in
              let same =
                hand_soft base r.1 t p refl (λ a h. ground (arith, h)) w
                  (hand-Placed r.1 p _ w refl refl) in
              rw e (dec_counts (is_soft base sem) c _ (moved ∙ sym n) le ∙ sym same)
          | inr (e, stays, w) ↦
              let null : queue s 0 ≡ [] = queue_null s v.asl in
              let same =
                write_soft base s p (record (s.table p) { p_sem_add = 0 }) w (ap (occurs p) null) in
              rw (e, stays) (n ∙ sym same)
        ])
      ] in
    ((unblock-count p k).0 ∙ d, count ∙ after ∙ ap (soft_waiters base) (sym (unblock-phase1 p k)))

pub finish-IsCounted :
    (base p : ℕ) (k : Kernel)
    → PlacedIn [] k
    → k.yielded_process ≡ none
    → IsCounted base k
    → IsCounted base (finish p k)
unfolding finish free_pcb
finish-IsCounted base p k v y (d, n) =
    let k1 : Kernel = record k {
      phase1 = (out_child (some p) k.phase1).1;
      active_procs = active_procs_remove p k.active_procs;
    } in
    let only = out_child-OnlyFamilies p k.phase1 in
    let same =
      SameWaits-soft base k.phase1 k1.phase1 (record { semds = only.semds.0; sems = only.sems }) in
    let v1 : Placed [] k.current_process none k.ready_queue k.active_procs k1.phase1 =
      rw y at (out_child-Placed k.phase1 p v).0 in
    let (e, m) = unblock-IsCounted base p k1 v1 (d, n ∙ sym same) in
    (
      e,
      m
          ∙ sym (
              SameWaits-soft base (unblock p k1).phase1 (free_pcb (some p) (unblock p k1).phase1)
                (record { semds = refl; sems = λ a. refl })),
    )
