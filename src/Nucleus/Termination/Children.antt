-- ===== src/Nucleus/Termination/Children.antt =====
-- How the steps of `terminateProcess` change the children lists.
use pand_aossh.Prelude.{
  ℕ, zero, suc, ◌+◌, ◌≤◌, ◌<◌, ◌≡◌, refl, Option, none, some, List, [], ◌∷◌, arith, ◌==◌, ltb,
  if◌then◌else◌, length, erase, update, All, ap, subst, sym, if-split, Option-split,
}
use pand_aossh.Types.{Pcb, Semd, Phase1}
use pand_aossh.Phase1.Pcb.{max_proc, set_pcb, out_child, unlink_sib, free_pcb}
use pand_aossh.Phase1.Asl.{find, out_blocked, out_from, remove_at, shrink}
use pand_aossh.Nucleus.Globals.{Kernel}
use pand_aossh.Nucleus.Process.{finish, unblock, child_count}

-- All children are blocks of the table.
abbrev pub IsInside : (ℕ → Pcb) → Type 0
IsInside table = (p : ℕ) → All (λ c. c < max_proc) (table p).p_child

pub child_count-update :
    (table : ℕ → Pcb) (p : ℕ) (c : Pcb) (n : ℕ)
    → child_count (update table p c) n + (if ltb p n then length (table p).p_child else 0)
      ≡ child_count table n + (if ltb p n then length c.p_child else 0)
unfolding child_count
child_count-update table p c zero = ground arith
child_count-update table p c (suc n) = ground (arith, child_count-update table p c n)

-- A write to a block that leaves its children alone, or takes some away.
pub child_count-write :
    (table : ℕ → Pcb) (p : ℕ) (c : Pcb) (n : ℕ)
    → length c.p_child ≤ length (table p).p_child
    → child_count (update table p c) n ≤ child_count table n
child_count-write table p c n h = ground (arith, child_count-update table p c n)

All-erase :
    (p : ℕ) (xs : List ℕ) → All (λ c. c < max_proc) xs → All (λ c. c < max_proc) (erase p xs)
All-erase p [] h = tt
All-erase p (x ∷ xs) h = ground (arith, All-erase p xs h.1)

length-erase-le : (p : ℕ) (xs : List ℕ) → length (erase p xs) ≤ length xs
length-erase-le p [] = omega arith
length-erase-le p (x ∷ xs) = ground (arith, length-erase-le p xs)

-- The tables agree but for one block, which has no child that it did not have.
pub record Tame (table table' : ℕ → Pcb) : Type 0 where
  pub count : child_count table' max_proc ≤ child_count table max_proc
  pub within : IsInside table → IsInside table'

pub Tame-trans : (a b c : ℕ → Pcb) → Tame a b → Tame b c → Tame a c
Tame-trans a b c h g = record {
  count = omega (arith, h.count, g.count);
  within = λ i. g.within (h.within i);
}

pub Tame-refl : (a : ℕ → Pcb) → Tame a a
Tame-refl a = record { count = omega arith; within = λ i. i }

-- A write that leaves the children of the block as they are.
pub Tame-keep :
    (table : ℕ → Pcb) (p : ℕ) (c : Pcb)
    → c.p_child ≡ (table p).p_child
    → Tame table (update table p c)
Tame-keep table p c e = record {
  count = child_count-write table p c max_proc (omega (arith, ap {B = ℕ} length e));
  within = λ i q.
      if-split (λ d. All (λ x. x < max_proc) d.p_child) (q == p) c (table q)
        (λ h. subst (All (λ x. x < max_proc)) (sym e) (i p)) (λ h. i q);
}

Tame-erase :
    (table : ℕ → Pcb) (p a : ℕ)
    → Tame table (update table p (record (table p) { p_child = erase a (table p).p_child }))
Tame-erase table p a = record {
  count = child_count-write table p _ max_proc (length-erase-le a (table p).p_child);
  within = λ i q.
      if-split (λ d. All (λ x. x < max_proc) d.p_child) (q == p) _ (table q)
        (λ h. All-erase a (table p).p_child (i p)) (λ h. i q);
}

unlink_sib-Tame : (p : ℕ) (o : Option ℕ) (s : Phase1) → Tame s.table (unlink_sib p o s).1.table
unfolding unlink_sib
unlink_sib-Tame p none s = Tame-refl s.table
unlink_sib-Tame p (some prnt) s =
    Tame-trans s.table _ _ (Tame-erase s.table prnt p) (Tame-keep _ p _ refl)

shrink-table : (sem : ℕ) (d : Semd) (q : List ℕ) (s : Phase1) → (shrink sem d q s).table ≡ s.table
unfolding shrink
shrink-table sem d [] s = refl
shrink-table sem d (x ∷ q) s = refl

-- The children of every block are the same.
abbrev pub SameChildren : (ℕ → Pcb) → (ℕ → Pcb) → Type 0
SameChildren table table' = (q : ℕ) → (table' q).p_child ≡ (table q).p_child

SameChildren-Tame : (a b : ℕ → Pcb) → SameChildren a b → Tame a b
unfolding child_count
SameChildren-Tame a b h = record {
  count = fewer max_proc;
  within = λ i q. subst (All (λ x. x < max_proc)) (sym (h q)) (i q);
}
  where
    fewer : (n : ℕ) → child_count b n ≤ child_count a n
    fewer zero = omega arith
    fewer (suc n) = omega (arith, fewer n, ap {B = ℕ} length (h n))

remove_at-children :
    (sem p : ℕ) (d : Semd) (s : Phase1) → SameChildren s.table (remove_at sem p d s).1.table
unfolding remove_at
remove_at-children sem p d s q = ground (
  arith,
  shrink-table sem d (erase p d.s_procq) (set_pcb p (record (s.table p) { p_sem_add = 0 }) s),
)

out_blocked-children : (p : ℕ) (s : Phase1) → SameChildren s.table (out_blocked (some p) s).1.table
unfolding out_blocked out_from
out_blocked-children p s q = go (s.table p).p_sem_add
  where
    go : (sem : ℕ) → ((out_from sem p s).1.table q).p_child ≡ (s.table q).p_child
    go sem =
        if-split (λ (r : Option ℕ × Phase1). (r.1.table q).p_child ≡ (s.table q).p_child) (sem == 0)
          (none, s) _ (λ h. refl)
          (λ h.
            Option-split (λ (r : Option ℕ × Phase1). (r.1.table q).p_child ≡ (s.table q).p_child)
              (find sem s.semd_h) (none, s) (λ d. remove_at sem p d s) (λ c. refl)
              (λ d c. remove_at-children sem p d s q))

unblock-children : (p : ℕ) (k : Kernel) → SameChildren k.phase1.table (unblock p k).phase1.table
unfolding unblock
unblock-children p k q =
    ground (arith, out_blocked-children p k.phase1 q, out_blocked-children p k.phase1 p)

pub finish-Tame : (p : ℕ) (k : Kernel) → Tame k.phase1.table (finish p k).phase1.table
unfolding finish free_pcb out_child
finish-Tame p k =
    Tame-trans k.phase1.table _ _ (unlink_sib-Tame p (k.phase1.table p).p_parent k.phase1)
      (SameChildren-Tame _ _ (unblock-children p _))
