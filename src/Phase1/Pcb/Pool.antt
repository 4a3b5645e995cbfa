-- ===== src/Phase1/Pcb/Pool.antt =====
-- The pool of free process control blocks.
use pand_aossh.Prelude.{
  ℕ, zero, suc, ◌+◌, ◌≤◌, ◌<◌, ◌≡◌, refl, true, false, Option, none, some, List, [], ◌∷◌, ◌++◌,
  arith, if◌then◌else◌, has, has-append, range, IsDistinct, snoc-IsDistinct, append-nil,
  append_assoc, ◌∙◌, update, subst,
}
use pand_aossh.Prelude.Words.{inc32}
use pand_aossh.Types.{Phase1}
use pand_aossh.Phase1.Pcb.{
  max_proc, init_pcbs, init_loop, free_pcb, fresh_pcb, alloc_pcb, alloc_from,
}

init_loop-free : (ps : List ℕ) (s : Phase1) → (init_loop ps s).pcb_free ≡ s.pcb_free ++ ps
unfolding init_loop
init_loop-free [] s = ground (arith, append-nil s.pcb_free)
init_loop-free (p ∷ ps) s = init_loop-free ps _ ∙ append_assoc s.pcb_free (p ∷ []) ps

init_loop-pid :
    (ps : List ℕ) (s : Phase1) (q : ℕ)
    → ((init_loop ps s).table q).p_pid ≡ (if has q ps then 0 else (s.table q).p_pid)
unfolding init_loop
init_loop-pid [] s q = refl
init_loop-pid (p ∷ ps) s q = ground (
  arith,
  init_loop-pid ps
      (record s {
        table = update s.table p (record (s.table p) { p_pid = 0 });
        pcb_free = s.pcb_free ++ p ∷ [];
      })
      q,
)

has-range : (a from n : ℕ) → from ≤ a → a < from + n → has a (range from n) ≡ true
has-range a from zero h k = absurd (omega arith)
has-range a from (suc n) h k = ground (arith, has-range a (suc from) n)

-- `initPcbs` makes every block of the table free, in the order of the table, with process id 0.
pub init_pcbs_lem :
    (s : Phase1)
    → ((init_pcbs s).pcb_free ≡ range 0 max_proc)
      × ((p : ℕ) → p < max_proc → ((init_pcbs s).table p).p_pid ≡ 0)
unfolding init_pcbs
init_pcbs_lem s = (
  init_loop-free (range 0 max_proc) (record s { pcb_free = [] }),
  λ p h. ground (
    arith,
    init_loop-pid (range 0 max_proc) (record s { pcb_free = [] }) p,
    has-range p 0 max_proc,
  ),
)

-- What `allocPcb` does to the free list.
abbrev pub Allocates : List ℕ → Phase1 → Option ℕ × Phase1 → Type 0
Allocates [] s (r, t) = (r ≡ none) × (t ≡ s)
Allocates (p ∷ rest) s (r, t) =
    (r ≡ some p)
    × (t.pcb_free ≡ rest)
    × (t.table ≡ update s.table p (fresh_pcb s.next_pid (s.table p)))
    × (t.next_pid ≡ inc32 s.next_pid)

-- The blocks of the pool are distinct blocks of the table.
pub record IsPool (s : Phase1) : Type 0 where
  pub distinct : IsDistinct s.pcb_free
  pub inside : (p : ℕ) → has p s.pcb_free ≡ true → p < max_proc

alloc_from-Allocates : (l : List ℕ) (s : Phase1) → Allocates l s (alloc_from l s)
unfolding alloc_from
alloc_from-Allocates [] s = (refl, refl)
alloc_from-Allocates (p ∷ rest) s = (refl, refl, refl, refl)

pub alloc_pcb-Allocates : (s : Phase1) → Allocates s.pcb_free s (alloc_pcb s)
unfolding alloc_pcb
alloc_pcb-Allocates s = alloc_from-Allocates s.pcb_free s

-- A block that has just been taken: it is a block of the table, and it is not free any more.
pub record Taken (p : ℕ) (t : Phase1) : Type 0 where
  pub pool : IsPool t
  pub used : has p t.pcb_free ≡ false
  pub block : p < max_proc

alloc_from-Taken :
    (l : List ℕ) (s : Phase1) (p : ℕ)
    → IsDistinct l
    → ((q : ℕ) → has q l ≡ true → q < max_proc)
    → (alloc_from l s).0 ≡ some p
    → Taken p (alloc_from l s).1
unfolding alloc_from
alloc_from-Taken [] s p d i h = ground arith
alloc_from-Taken (q ∷ rest) s p d i h =
    let same : q ≡ p = ground arith in
    record {
      pool = record { distinct = d.1; inside = λ r m. i r (ground arith) };
      used = ground arith;
      block = ground (arith, i q);
    }

-- From a pool without duplicates `allocPcb` hands out a block of the table that is not free any
-- more, and leaves such a pool.
pub alloc_pcb-Taken :
    (s : Phase1) (p : ℕ) → IsPool s → (alloc_pcb s).0 ≡ some p → Taken p (alloc_pcb s).1
unfolding alloc_pcb
alloc_pcb-Taken s p v h = alloc_from-Taken s.pcb_free s p v.distinct v.inside h

-- `freePcb` of a block of the table that is not free keeps the pool without duplicates.
pub free_pcb-IsPool :
    (s : Phase1) (p : ℕ)
    → IsPool s
    → has p s.pcb_free ≡ false
    → p < max_proc
    → IsPool (free_pcb (some p) s)
unfolding free_pcb
free_pcb-IsPool s p v out h = record {
  distinct = snoc-IsDistinct p s.pcb_free v.distinct out;
  inside = λ q m. ground (arith, has-append q s.pcb_free (p ∷ []), v.inside q);
}

-- n calls of `allocPcb` in a row, and what they return.
pub alloc_times : ℕ → Phase1 → List (Option ℕ) × Phase1
alloc_times zero s = ([], s)
alloc_times (suc n) s =
    let r = alloc_pcb s in let rest = alloc_times n r.1 in (r.0 ∷ rest.0, rest.1)

-- The blocks of a free list in order, then NULL for ever.
abbrev pub handed_out : ℕ → List ℕ → List (Option ℕ)
handed_out zero l = []
handed_out (suc n) [] = none ∷ handed_out n []
handed_out (suc n) (p ∷ l) = some p ∷ handed_out n l

alloc_times-handed_out :
    (n : ℕ) (l : List ℕ) (s : Phase1) → s.pcb_free ≡ l → (alloc_times n s).0 ≡ handed_out n l
unfolding alloc_times
alloc_times-handed_out zero l s e = refl
alloc_times-handed_out (suc n) [] s e =
    let a = subst (λ l. Allocates l s (alloc_pcb s)) e (alloc_pcb-Allocates s) in
    rw (a.0, a.1, alloc_times-handed_out n [] s e)
alloc_times-handed_out (suc n) (p ∷ l) s e =
    let a = subst (λ l. Allocates l s (alloc_pcb s)) e (alloc_pcb-Allocates s) in
    rw (a.0, alloc_times-handed_out n l (alloc_pcb s).1 a.1)

-- After `initPcbs` the calls of `allocPcb` return the blocks of the table one after the other, each
-- once, and NULL from then on.
pub alloc_times-init_pcbs :
    (n : ℕ) (s : Phase1) → (alloc_times n (init_pcbs s)).0 ≡ handed_out n (range 0 max_proc)
alloc_times-init_pcbs n s =
    alloc_times-handed_out n (range 0 max_proc) (init_pcbs s) (init_pcbs_lem s).0
