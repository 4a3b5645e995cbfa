-- ===== src/Nucleus/Places/Birth.antt =====
-- A free block becomes a process: it leaves the free list and gets an entry of `activeProcs`.
use pand_aossh.Prelude.{
  ℕ, ◌+◌, ◌≤◌, ◌≡◌, ◌≢◌, refl, sym, ap, ◌∙◌, subst, true, false, Option, none, some, List, [], ◌∷◌,
  arith, ◌==◌, has, length, inl, inr, Bool-cases, Option-cases, List-cases, ==→eq,
}
use pand_aossh.Prelude.Counts.{one, occurs}
use pand_aossh.Types.{Phase1}
use pand_aossh.Phase1.Pcb.{max_proc, alloc_from}
use pand_aossh.Phase1.Asl.Invariant.{queue}
use pand_aossh.Nucleus.Globals.{active_procs_add}
use pand_aossh.Nucleus.Places.{Placed, free, listed, waiting, inside, SameFamily, SameFamily-IsTree}
use pand_aossh.Nucleus.Places.Heads.{length_pigeon}

-- The processes that `activeProcs` names.
abbrev pub entries : List (Option ℕ) → List ℕ
entries [] = []
entries (none ∷ l) = entries l
entries (some q ∷ l) = q ∷ entries l

occurs-entries : (a : ℕ) (l : List (Option ℕ)) → occurs a (entries l) ≡ listed l a
occurs-entries a [] = refl
occurs-entries a (none ∷ l) = omega (arith, occurs-entries a l)
occurs-entries a (some q ∷ l) = omega (arith, occurs-entries a l)

-- `activeProcsAdd` fills one entry, or there is no empty one.
abbrev pub Adds : ℕ → List (Option ℕ) → Option (List (Option ℕ)) → Type 0
Adds p l none = length (entries l) ≡ length l
Adds p l (some m) = ((a : ℕ) → listed m a ≡ listed l a + one p a) × (length m ≡ length l)

pub active_procs_add-Adds : (p : ℕ) (l : List (Option ℕ)) → Adds p l (active_procs_add p l)
unfolding active_procs_add
active_procs_add-Adds p [] = refl
active_procs_add-Adds p (none ∷ l) = (λ a. omega arith, refl)
active_procs_add-Adds p (some q ∷ l) = go (active_procs_add p l) (active_procs_add-Adds p l)
  where
    go :
        (r : Option (List (Option ℕ)))
        → Adds p l r
        → Adds p (some q ∷ l) (elim r [ none ↦ none | some procs ↦ some (some q ∷ procs) ])
    go none h = omega (arith, h)
    go (some m) h = (λ a. let e = h.0 a in omega (arith, e), omega (arith, h.1))

module _ {current yielder : Option ℕ} {ready : List ℕ} {active : List (Option ℕ)} (s : Phase1)
    (p : ℕ) (v : Placed [] current yielder ready active s) (f : 1 ≤ free s p) where
  -- There is an empty entry.
  pub entry_left : active_procs_add p active ≢ none
  entry_left e =
      let h : Adds p active none = rw e at (active_procs_add-Adds p active) in
      let n = length_pigeon max_proc (p ∷ entries active) (λ a.
        let o = occurs-entries a active in
        let l = v.alive a in
        let same : (p == a) ≡ true → 1 ≤ free s a =
          λ z. subst (λ b. 1 ≤ free s b) (==→eq p a z) f in
        ground (arith, o, l, same)) in
      omega (arith, n, h, v.slots)

  pub orphan : (s.table p).p_parent ≡ none
  orphan = elim (Option-cases (s.table p).p_parent) [
    | inl e ↦ e
    | inr (q, e) ↦ absurd (let k = (v.kin q p e).1.0 in omega (arith, k, f))
  ]

  childless : (s.table p).p_child ≡ []
  childless = elim (List-cases (s.table p).p_child) [
    | inl e ↦ e
    | inr (c, l, e) ↦
        let mine : has c (s.table p).p_child ≡ true = rw e (ground arith) in
        absurd (let k = (v.kin p c (v.tree.owned p c mine)).0.0 in omega (arith, k, f))
  ]

  pub nowhere : (j : ℕ) → occurs p (queue s j) ≡ 0
  nowhere j =
      let e = v.place p in
      let n = v.named p j in
      let small : inside p ≤ 1 = ground arith in
      let at : (s.table p).p_sem_add ≡ j → waiting s p ≡ occurs p (queue s j) =
        λ e. ap (λ i. occurs p (queue s i)) e in
      ground (arith, n, e, at, f, small)

  -- The block that `allocPcb` returns, once it is in `activeProcs`.
  pub alloc-Placed :
      (rest : List ℕ) (procs : List (Option ℕ))
      → s.pcb_free ≡ p ∷ rest
      → Adds p active (some procs)
      → Placed (p ∷ []) current yielder ready procs (alloc_from (p ∷ rest) s).1
  unfolding alloc_from
  alloc-Placed rest procs e add =
      let t = (alloc_from (p ∷ rest) s).1 in
      let n : (a : ℕ) → free s a ≡ free t a + one p a =
        λ a. let o = ap (occurs a) e in omega (arith, o) in
      let none_p : (a j : ℕ) → (a == p) ≡ true → occurs a (queue s j) ≡ 0 =
        λ a j z. ap (λ b. occurs b (queue s j)) (==→eq a p z) ∙ nowhere j in
      let at : (a : ℕ) → (a == p) ≡ false → (t.table a).p_sem_add ≡ (s.table a).p_sem_add =
        λ a. ground arith in
      let same : SameFamily s t = record {
        parents = λ q.
            let same : (q == p) ≡ true → (s.table q).p_parent ≡ none =
              λ z. ap (λ b. (s.table b).p_parent) (==→eq q p z) ∙ orphan in
            ground (arith, same);
        lists = λ q.
            let same : (q == p) ≡ true → (s.table q).p_child ≡ [] =
              λ z. ap (λ b. (s.table b).p_child) (==→eq q p z) ∙ childless in
            ground (arith, same);
      } in
      record {
        asl = record {
          unique = v.asl.unique;
          nonzero = v.asl.nonzero;
          waiting = v.asl.waiting;
          total = v.asl.total;
        };
        named = λ a j h. let m = v.named a j h in let z = none_p a j in ground (arith, m, z, h);
        tree = SameFamily-IsTree s t same v.tree;
        kin = λ q c g.
            let (h, i) = v.kin q c (sym (same.parents c) ∙ g) in
            let n_q = n q in
            let n_c = n c in ((omega (arith, n_q, h.0), h.1), (omega (arith, n_c, i.0), i.1));
        place = λ a.
            let w : waiting t a ≡ waiting s a = elim (Bool-cases (a == p)) [
              | inl here ↦
                  none_p a (t.table a).p_sem_add here ∙ sym (none_p a (s.table a).p_sem_add here)
              | inr away ↦ ap (λ j. occurs a (queue s j)) (at a away)
            ] in
            let m = n a in omega (arith, w, m, v.place a);
        alive = λ a. let m = n a in let o = add.0 a in omega (arith, m, o, v.alive a);
        slots = add.1 ∙ v.slots;
      }
