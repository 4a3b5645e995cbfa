-- ===== src/Nucleus/Places/Outlives.antt =====
-- What `terminateProcess` and its loop leave of the processes that they do not end.
use pand_aossh.Prelude.{
  ℕ, ◌≡◌, refl, ap, ◌∙◌, true, false, Option, none, some, [], ◌∷◌, arith, ◌==◌, has, inl, inr,
  List-cases, ==→eq, ==_refl, ◌⊎◌,
}
use pand_aossh.Prelude.Words.{minus}
use pand_aossh.Prelude.Counts.{occurs}
use pand_aossh.Phase1.Pcb.{remove_child}
use pand_aossh.Phase1.Pcb.Tree.{Pops, remove_child_lem}
use pand_aossh.Nucleus.Globals.{Kernel, modify_pcb}
use pand_aossh.Nucleus.Process.{finish, forget, and_then}
use pand_aossh.Nucleus.Soft.{IsCounted, KeepsCount, KeepsCount-IsCounted}
use pand_aossh.Nucleus.Places.{PlacedIn, IsLive, free}
use pand_aossh.Nucleus.Places.Family.{remove_child-Placed, remove_child-OnlyFamilies}
use pand_aossh.Nucleus.Places.Burial.{Buried, finish-Buried}

-- The two after a recursion: all blocks are placed, the current process is the same or gone, and the
-- live blocks that are marked with the process id -1 are still live and marked. A right count of the
-- soft-blocked processes stays right.
pub record Outlives (k t : Kernel) : Type 0 where
  pub placed : PlacedIn [] t
  pub yielder : t.yielded_process ≡ none
  pub current : (t.current_process ≡ k.current_process) ⊎ (t.current_process ≡ none)
  pub marked :
      (q : ℕ)
      → IsLive k.phase1 q
      → (k.phase1.table q).p_pid ≡ minus 1
      → IsLive t.phase1 q × ((t.phase1.table q).p_pid ≡ minus 1)
  pub counted : (base : ℕ) → IsCounted base k → IsCounted base t

stays_or_leaves :
    {a b c : Option ℕ} → (b ≡ a) ⊎ (b ≡ none) → (c ≡ b) ⊎ (c ≡ none) → (c ≡ a) ⊎ (c ≡ none)
stays_or_leaves f (inr g) = inr g
stays_or_leaves (inl f) (inl g) = inl (g ∙ f)
stays_or_leaves (inr f) (inl g) = inr (g ∙ f)

forget_cases : (p : ℕ) (o : Option ℕ) → (forget p o ≡ o) ⊎ (forget p o ≡ none)
forget_cases p none = inr refl
forget_cases p (some q) = ground arith

Outlives-trans : {a b c : Kernel} → Outlives a b → Outlives b c → Outlives a c
Outlives-trans f g = record {
  counted = λ base h. g.counted base (f.counted base h);
  placed = g.placed;
  yielder = g.yielder;
  current = stays_or_leaves f.current g.current;
  marked = λ q h e. let (i, d) = f.marked q h e in g.marked q i d;
}

-- The result of `terminateProcess` for p.
abbrev pub Ended : ℕ → Kernel → Option Kernel → Type 0
Ended p k none = Unit {0}
Ended p k (some t) =
    Outlives k t × (((k.phase1.table p).p_pid == minus 1) ≡ false → free t.phase1 p ≡ 1)

-- The result of its loop.
abbrev pub Childless : ℕ → Kernel → Option Kernel → Type 0
Childless p k none = Unit {0}
Childless p k (some t) = Outlives k t × ((t.phase1.table p).p_child ≡ [])

marking : (p : ℕ) (k : Kernel) → KeepsCount k (modify_pcb p (λ c. record c { p_pid = minus 1 }) k)
marking p k = record {
  waits = record { semds = refl; sems = λ a. ground arith };
  devices = refl;
  count = refl;
}

-- Blocks that are marked are not the one that ends.
finish-Outlives :
    (p : ℕ) (k t : Kernel)
    → Outlives (modify_pcb p (λ c. record c { p_pid = minus 1 }) k) t
    → ((k.phase1.table p).p_pid == minus 1) ≡ false
    → IsLive t.phase1 p
    → Buried p t (finish p t)
    → Ended p k (some (finish p t))
finish-Outlives p k t o h live b = (
  record {
    counted =
        λ base c. b.counted base (o.counted base (KeepsCount-IsCounted base k _ (marking p k) c));
    placed = b.placed;
    yielder = b.yielder;
    current = stays_or_leaves o.current (elim (forget_cases p t.current_process) [
      | inl e ↦ inl (b.current ∙ e)
      | inr e ↦ inr (b.current ∙ e)
    ]);
    marked = λ q i e.
        let m = o.marked q i (let f = e in ground (arith, f)) in
        let f = b.frees q in
        let g = b.pids q in
        let p_ne : (p == q) ≡ true → (k.phase1.table p).p_pid ≡ minus 1 =
          λ z. ap (λ a. (k.phase1.table a).p_pid) (==→eq p q z) ∙ e in
        ground (arith, m, f, g, p_ne, h);
  },
  λ _. let f = b.frees p in let l = live.0 in let r = ==_refl p in ground (arith, f, l, r),
)

pub Outlives-refl : {k : Kernel} → PlacedIn [] k → k.yielded_process ≡ none → Outlives k k
Outlives-refl v y = record {
  counted = λ base h. h;
  placed = v;
  yielder = y;
  current = inl refl;
  marked = λ q h e. (h, e);
}

pub finish_after :
    (p : ℕ) (k : Kernel) (r : Option Kernel)
    → IsLive k.phase1 p
    → ((k.phase1.table p).p_pid == minus 1) ≡ false
    → Childless p (modify_pcb p (λ c. record c { p_pid = minus 1 }) k) r
    → Ended p k (and_then r (λ k'. some (finish p k')))
finish_after p k none h a c = tt
finish_after p k (some t) h a (o, f) =
    let live = (o.marked p h (ground arith)).0 in
    finish-Outlives p k t o a live (finish-Buried p t o.placed o.yielder live f)

-- Taking a child off the list of p.
pub taken_child :
    (p : ℕ) (k : Kernel)
    → PlacedIn [] k
    → k.yielded_process ≡ none
    → Outlives k (record k { phase1 = (remove_child (some p) k.phase1).1 })
taken_child p k v y =
    let only = remove_child-OnlyFamilies p k.phase1 in
    record {
      counted = λ base c.
          KeepsCount-IsCounted base k (record k { phase1 = (remove_child (some p) k.phase1).1 })
            (record {
              waits = record { semds = only.semds.0; sems = only.sems };
              devices = refl;
              count = refl;
            })
            c;
      placed = remove_child-Placed k.phase1 p v;
      yielder = y;
      current = inl refl;
      marked = λ q h e. ((ap (occurs q) only.frees ∙ h.0, h.1), only.pids q ∙ e);
    }

pub child_cases :
    (p : ℕ) (k : Kernel)
    → PlacedIn [] k
    → (((remove_child (some p) k.phase1).0 ≡ none) × ((k.phase1.table p).p_child ≡ []))
      ⊎ ((c : ℕ) × ((remove_child (some p) k.phase1).0 ≡ some c) × IsLive k.phase1 c)
child_cases p k v =
    let r = remove_child (some p) k.phase1 in
    let h = remove_child_lem p k.phase1 v.tree in
    elim (List-cases (k.phase1.table p).p_child) [
      | inl e ↦ let g : Pops p [] k.phase1 r = rw e at h in inl (g.0, e)
      | inr (c, l, e) ↦
          let g : Pops p (c ∷ l) k.phase1 r = rw e at h in
          let mine : has c (k.phase1.table p).p_child ≡ true = rw e (ground arith) in
          inr (c, g.0, (v.kin p c (v.tree.owned p c mine)).1)
    ]

Childless-trans :
    (p : ℕ) (k t : Kernel) (r : Option Kernel) → Outlives k t → Childless p t r → Childless p k r
Childless-trans p k t none o h = tt
Childless-trans p k t (some u) o (h, e) = (Outlives-trans o h, e)

pub next_child :
    (p c : ℕ) (k k1 : Kernel) (r : Option Kernel) (f : Kernel → Option Kernel)
    → Outlives k k1
    → Ended c k1 r
    → ((t : Kernel) → Outlives k t → Childless p t (f t))
    → Childless p k (and_then r f)
next_child p c k k1 none f o e next = tt
next_child p c k k1 (some t) f o (e, _) next =
    let w = Outlives-trans o e in Childless-trans p k t (f t) w (next t w)
