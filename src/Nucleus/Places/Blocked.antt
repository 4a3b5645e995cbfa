-- ===== src/Nucleus/Places/Blocked.antt =====
-- The ways between the places: the active semaphore list. A block that is in hand finds a descriptor.
use pand_aossh.Prelude.{
  ℕ, ◌+◌, ◌<◌, ◌≡◌, refl, sym, ap, ◌∙◌, true, false, Option, none, some, List, [], ◌∷◌, arith, ◌==◌,
  if◌then◌else◌, has, erase, length, inl, inr, Bool-cases, ==→eq, ◌⊎◌,
}
use pand_aossh.Prelude.Counts.{one, occurs, occurs-append, occurs-erase, occurs_absent}
use pand_aossh.Types.{Pcb, Phase1}
use pand_aossh.Phase1.Pcb.{max_proc, set_pcb}
use pand_aossh.Phase1.Asl.{remove_blocked, insert_blocked, out_blocked}
use pand_aossh.Phase1.Asl.Invariant.{IsAsl-table, queue, Queued, insert_blocked_lem}
use pand_aossh.Phase1.Asl.Removal.{Released, Pops, remove_blocked_lem, out_blocked_lem}
use pand_aossh.Nucleus.Conservation.{remove_blocked-free, out_blocked-free, insert_blocked-free}
use pand_aossh.Nucleus.Places.{Placed, step-Placed, waiting}
use pand_aossh.Nucleus.Places.Moves.{Released-Placed}
use pand_aossh.Nucleus.Places.Heads.{length_pigeon, heads, length-heads, occurs-heads}

-- The block that was taken, if there was one, is in hand.
abbrev pub grab : Option ℕ → List ℕ → List ℕ
grab none hand = hand
grab (some p) hand = p ∷ hand

module _ {hand : List ℕ} {current yielder : Option ℕ} {ready : List ℕ} {active : List (Option ℕ)}
    (s : Phase1) where
  -- A block in hand waits nowhere.
  absent : (p j : ℕ) → Placed (p ∷ hand) current yielder ready active s → occurs p (queue s j) ≡ 0
  absent p j v =
      let e = v.place p in
      let n = v.named p j in
      let at : (s.table p).p_sem_add ≡ j → waiting s p ≡ occurs p (queue s j) =
        λ e. ap (λ i. occurs p (queue s i)) e in
      ground (arith, n, e, at)

  -- There is a descriptor for it.
  room : (p : ℕ) → Placed (p ∷ hand) current yielder ready active s → length s.semd_h < max_proc
  room p v =
      let l = heads s.semd_h in
      let n = length_pigeon max_proc (p ∷ l) (λ a.
        let e = v.place a in
        let h = occurs-heads a (s.table a).p_sem_add s.semd_h v.asl.unique (v.named a) in
        omega (arith, e, h)) in
      omega (arith, n, length-heads s.semd_h v.asl.waiting)

  -- A write to a block in hand that leaves its family alone.
  pub hand-Placed :
      (p : ℕ) (c : Pcb)
      → Placed (p ∷ hand) current yielder ready active s
      → c.p_parent ≡ (s.table p).p_parent
      → c.p_child ≡ (s.table p).p_child
      → Placed (p ∷ hand) current yielder ready active (set_pcb p c s)
  hand-Placed p c v f g =
      let t = set_pcb p c s in
      let same : (a : ℕ) → (a == p) ≡ false → (t.table a).p_sem_add ≡ (s.table a).p_sem_add =
        λ a. ground arith in
      let none_p : (a j : ℕ) → (a == p) ≡ true → occurs a (queue s j) ≡ 0 =
        λ a j e. ap (λ b. occurs b (queue s j)) (==→eq a p e) ∙ absent p j v in
      step-Placed s t v (IsAsl-table s _ v.asl)
        (λ a j h.
          let n = v.named a j h in
          let e = same a in let z = none_p a j in ground (arith, n, e, z, h))
        (record { parents = λ q. ground arith; lists = λ q. ground arith }) refl
        (λ a.
          let w : waiting t a ≡ waiting s a = elim (Bool-cases (a == p)) [
            | inl here ↦
                none_p a (t.table a).p_sem_add here ∙ sym (none_p a (s.table a).p_sem_add here)
            | inr away ↦ ap (λ j. occurs a (queue s j)) (same a away)
          ] in
          omega (arith, w))

  -- The block joins the queue.
  Queued-Placed :
      (sem p : ℕ) (t : Phase1)
      → Placed (p ∷ hand) current yielder ready active s
      → Queued sem p s t
      → t.pcb_free ≡ s.pcb_free
      → Placed hand current yielder ready active t
  Queued-Placed sem p t v q free_same =
      let at : (a : ℕ) → (t.table a).p_sem_add ≡ (if a == p then sem else (s.table a).p_sem_add) =
        λ a. ap (λ (f : ℕ → Pcb). (f a).p_sem_add) q.table ∙ ground arith in
      let none_p : (a j : ℕ) → (a == p) ≡ true → occurs a (queue s j) ≡ 0 =
        λ a j e. ap (λ b. occurs b (queue s j)) (==→eq a p e) ∙ absent p j v in
      let n : (a j : ℕ)
          → occurs a (queue t j)
            ≡ (if j == sem then occurs a (queue s j) + one p a else occurs a (queue s j)) =
        λ a j.
          let e = ap (occurs a) (q.queues j) in
          let f = occurs-append a (queue s sem) (p ∷ []) in
          elim (Bool-cases (j == sem)) [
            | inl z ↦
                let same : occurs a (queue s j) ≡ occurs a (queue s sem) =
                  ap (λ i. occurs a (queue s i)) (==→eq j sem z) in
                ground (arith, e, f, z, same)
            | inr z ↦ ground (arith, e, f, z)
          ] in
      step-Placed s t v q.inv
        (λ a j h.
          let e = n a j in
          let m = at a in
          let z = none_p a j in let o = v.named a j in ground (arith, e, m, z, o, h))
        (record {
          parents = λ a. ap (λ (f : ℕ → Pcb). (f a).p_parent) q.table ∙ ground arith;
          lists = λ a. ap (λ (f : ℕ → Pcb). (f a).p_child) q.table ∙ ground arith;
        })
        free_same
        (λ a.
          let gone : waiting t a ≡ waiting s a + one p a = elim (Bool-cases (a == p)) [
            | inl here ↦
                let t_a : (t.table a).p_sem_add ≡ sem =
                  at a ∙ ap (λ b. if b then sem else (s.table a).p_sem_add) here in
                let w_t : waiting t a ≡ occurs a (queue t sem) =
                  ap (λ j. occurs a (queue t j)) t_a in
                let e = n a sem in
                let z = none_p a sem here in
                let y = none_p a (s.table a).p_sem_add here in ground (arith, w_t, e, z, y)
            | inr away ↦
                let j : ℕ = (s.table a).p_sem_add in
                let t_a : (t.table a).p_sem_add ≡ j = at a ∙ ap (λ b. if b then sem else j) away in
                let w_t : waiting t a ≡ occurs a (queue t j) = ap (λ j. occurs a (queue t j)) t_a in
                let e = n a j in ground (arith, w_t, e, away)
          ] in
          omega (arith, gone))

  pub insert-Placed :
      (sem p : ℕ)
      → (sem == 0) ≡ false
      → Placed (p ∷ hand) current yielder ready active s
      → Placed hand current yielder ready active (insert_blocked sem (some p) s).1
  insert-Placed sem p z v = elim (insert_blocked_lem s v.asl sem p z) [
    | inl (_, q) ↦ Queued-Placed sem p _ v q (insert_blocked-free sem p s)
    | inr (_, r) ↦ absurd (let h = room p v in let e = r.exhausted in omega (arith, h, e))
  ]

  Pops-Placed :
      (sem : ℕ) (q : List ℕ) (r : Option ℕ × Phase1)
      → Placed hand current yielder ready active s
      → queue s sem ≡ q
      → r.1.pcb_free ≡ s.pcb_free
      → Pops sem q s r
      → Placed (grab r.0 hand) current yielder ready active r.1
  Pops-Placed sem [] (r, t) v e f h = rw (h.0, h.1) v
  Pops-Placed sem (p ∷ rest) (r, t) v e f h =
      rw h.0
        (Released-Placed s sem p rest t v h.1 (λ a. let o = ap (occurs a) e in omega (arith, o)) f)

  pub remove-Placed :
      (sem : ℕ)
      → Placed hand current yielder ready active s
      → Placed
          (grab (remove_blocked sem s).0 hand)
          current
          yielder
          ready
          active
          (remove_blocked sem s).1
  remove-Placed sem v =
      Pops-Placed sem (queue s sem) (remove_blocked sem s) v refl (remove_blocked-free sem s)
        (remove_blocked_lem sem s v.asl)

  -- `outBlocked` finds a block that waits, and changes nothing for one that does not.
  pub out-Placed :
      (p : ℕ)
      → Placed hand current yielder ready active s
      → (((out_blocked (some p) s).0 ≡ some p)
          × Placed (p ∷ hand) current yielder ready active (out_blocked (some p) s).1)
        ⊎ (((out_blocked (some p) s).0 ≡ none)
            × ((out_blocked (some p) s).1 ≡ s)
            × (waiting s p ≡ 0))
  out-Placed p v =
      let sem = (s.table p).p_sem_add in
      let r = out_blocked (some p) s in
      let h = out_blocked_lem p s v.asl in
      elim (Bool-cases (has p (queue s sem))) [
        | inl here ↦
            let g : (r.0 ≡ some p) × Released sem p (erase p (queue s sem)) s r.1 = rw here at h in
            inl (
              g.0,
              Released-Placed s sem p (erase p (queue s sem)) r.1 v g.1
                  (λ a. occurs-erase a p (queue s sem) here) (out_blocked-free p s),
            )
        | inr away ↦
            let g : (r.0 ≡ none) × (r.1 ≡ s) = rw away at h in
            inr (g.0, g.1, occurs_absent p (queue s sem) away)
      ]
