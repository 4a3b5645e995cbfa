-- ===== src/Nucleus/Places.antt =====
-- Where the process control blocks are: each is current, yielding, ready, waiting or free, and in one
-- of these places only.
pub mod Moves
pub mod Heads
pub mod Blocked
pub mod Family
pub mod Finish
pub mod Burial
pub mod Outlives
pub mod Ends
pub mod Choice
pub mod Birth
pub mod Creation
pub mod Dying
pub mod Services
pub mod Interrupts
pub mod Start
pub mod Handlers
pub mod Reach
use pand_aossh.Prelude.{
  ℕ, zero, suc, ◌+◌, ◌≤◌, ◌<◌, ◌≡◌, ◌≢◌, refl, sym, ap, ◌∙◌, subst, Bool, true, false, Option, none,
  some, List, [], ◌∷◌, ◌++◌, arith, ◌==◌, ltb, if◌then◌else◌, has, erase, length, update,
  IsDistinct,
}
use pand_aossh.Prelude.Counts.{
  one, occurs, held, occurs-append, occurs-erase, occurs_absent, occurs_present,
}
use pand_aossh.Types.{Pcb, Phase1}
use pand_aossh.Phase1.Pcb.{max_proc, set_pcb}
use pand_aossh.Phase1.Pcb.Tree.{IsTree}
use pand_aossh.Phase1.ProcQ.{insert_proc_q, out_proc_q}
use pand_aossh.Phase1.Asl.Invariant.{IsAsl, IsAsl-table, queue}
use pand_aossh.Nucleus.Globals.{Kernel}

-- How often a block waits on the semaphore that it names.
abbrev pub waiting : Phase1 → ℕ → ℕ
waiting s a = occurs a (queue s (s.table a).p_sem_add)

abbrev pub inside : ℕ → ℕ
inside a = if ltb a max_proc then 1 else 0

abbrev pub free : Phase1 → ℕ → ℕ
free s a = occurs a s.pcb_free

-- How often a block stands in `activeProcs`.
abbrev pub listed : List (Option ℕ) → ℕ → ℕ
listed [] a = 0
listed (o ∷ l) a = held o a + listed l a

abbrev pub IsLive : Phase1 → ℕ → Type 0
IsLive s a = (free s a ≡ 0) × (a < max_proc)

-- The blocks of `hand` are on their way from one place to another; with none in hand each block of
-- the table is in one place. A waiting block names its semaphore; parents and children agree, and
-- are live; and `activeProcs` has the live blocks.
pub record Placed (hand : List ℕ) (current yielder : Option ℕ) (ready : List ℕ)
    (active : List (Option ℕ)) (s : Phase1) : Type 0 where
  pub asl : IsAsl s
  pub named : (a j : ℕ) → 1 ≤ occurs a (queue s j) → (s.table a).p_sem_add ≡ j
  pub tree : IsTree s
  pub kin : (p c : ℕ) → (s.table c).p_parent ≡ some p → IsLive s p × IsLive s c
  pub place :
      (a : ℕ)
      → held current a + held yielder a + occurs a ready + waiting s a + free s a + occurs a hand
        ≡ inside a
  pub alive : (a : ℕ) → listed active a + free s a ≡ inside a
  pub slots : length active ≡ max_proc

abbrev pub PlacedIn : List ℕ → Kernel → Type 0
PlacedIn hand k =
    Placed hand k.current_process k.yielded_process k.ready_queue k.active_procs k.phase1

-- The families of the two are the same.
pub record SameFamily (s t : Phase1) : Type 0 where
  pub parents : (q : ℕ) → (t.table q).p_parent ≡ (s.table q).p_parent
  pub lists : (q : ℕ) → (t.table q).p_child ≡ (s.table q).p_child

pub SameFamily-IsTree : (s t : Phase1) → SameFamily s t → IsTree s → IsTree t
SameFamily-IsTree s t h v = record {
  distinct = λ p. subst IsDistinct (sym (h.lists p)) (v.distinct p);
  listed = λ p c e. ap (has c) (h.lists p) ∙ v.listed p c (sym (h.parents c) ∙ e);
  owned = λ p c e. h.parents c ∙ v.owned p c (ap (has c) (sym (h.lists p)) ∙ e);
}

-- A step that leaves the families, the free blocks and `activeProcs` alone.
pub step-Placed :
    {hand hand' : List ℕ} {current current' yielder yielder' : Option ℕ} {ready ready' : List ℕ}
    {active : List (Option ℕ)} (s t : Phase1)
    → Placed hand current yielder ready active s
    → IsAsl t
    → ((a j : ℕ) → 1 ≤ occurs a (queue t j) → (t.table a).p_sem_add ≡ j)
    → SameFamily s t
    → t.pcb_free ≡ s.pcb_free
    → ((a : ℕ)
        → held current' a + held yielder' a + occurs a ready' + waiting t a + occurs a hand'
          ≡ held current a + held yielder a + occurs a ready + waiting s a + occurs a hand)
    → Placed hand' current' yielder' ready' active t
step-Placed s t v asl named same free_same moved =
    let f : (a : ℕ) → free t a ≡ free s a = λ a. ap (occurs a) free_same in
    record {
      asl = asl;
      named = named;
      tree = SameFamily-IsTree s t same v.tree;
      kin = λ p c e.
          let (h, g) = v.kin p c (sym (same.parents c) ∙ e) in ((f p ∙ h.0, h.1), (f c ∙ g.0, g.1));
      place = λ a. let e = moved a in let g = f a in omega (arith, e, g, v.place a);
      alive = λ a. let g = f a in omega (arith, g, v.alive a);
      slots = v.slots;
    }

-- The variables of the Nucleus change, and no block.
pub move-Placed :
    {hand hand' : List ℕ} {current current' yielder yielder' : Option ℕ} {ready ready' : List ℕ}
    {active : List (Option ℕ)} {s : Phase1}
    → Placed hand current yielder ready active s
    → ((a : ℕ)
        → held current' a + held yielder' a + occurs a ready' + occurs a hand'
          ≡ held current a + held yielder a + occurs a ready + occurs a hand)
    → Placed hand' current' yielder' ready' active s
move-Placed {s = s} v moved =
    step-Placed s s v v.asl v.named (record { parents = λ q. refl; lists = λ q. refl }) refl
      (λ a. let e = moved a in omega (arith, e))

-- A write that leaves the links of the block alone.
pub write-Placed :
    {hand : List ℕ} {current yielder : Option ℕ} {ready : List ℕ} {active : List (Option ℕ)}
    (s : Phase1) (p : ℕ) (c : Pcb)
    → Placed hand current yielder ready active s
    → c.p_sem_add ≡ (s.table p).p_sem_add
    → c.p_parent ≡ (s.table p).p_parent
    → c.p_child ≡ (s.table p).p_child
    → Placed hand current yielder ready active (set_pcb p c s)
write-Placed s p c v e f g =
    let same : (a : ℕ) → ((set_pcb p c s).table a).p_sem_add ≡ (s.table a).p_sem_add =
      λ a. ground arith in
    step-Placed s (set_pcb p c s) v (IsAsl-table s _ v.asl) (λ a j h. same a ∙ v.named a j h)
      (record { parents = λ q. ground arith; lists = λ q. ground arith }) refl
      (λ a.
        let w : waiting (set_pcb p c s) a ≡ waiting s a = ap (λ j. occurs a (queue s j)) (same a) in
        omega (arith, w))
