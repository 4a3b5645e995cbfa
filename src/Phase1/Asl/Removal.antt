-- ===== src/Phase1/Asl/Removal.antt =====
-- Taking blocks off the active semaphore list: `removeBlocked`, `outBlocked` and `headBlocked`.
use pand_aossh.Prelude.{
  ℕ, ◌≡◌, refl, inl, inr, true, Option, none, some, List, [], ◌∷◌, arith, ◌==◌, if◌then◌else◌, has,
  Bool-cases, Option-cases, erase, update,
}
use pand_aossh.Types.{Semd, Phase1}
use pand_aossh.Phase1.Asl.{
  find, shrink, remove_head, out_from, remove_blocked, out_blocked, head_blocked, set_sem_add,
}
use pand_aossh.Phase1.Asl.Queues.{find-none, find-some, procq_of_absent}
use pand_aossh.Phase1.Asl.Invariant.{IsAsl, IsAsl-table, queue, Replaces, shrink_lem}

-- A block left the queue of sem: the state t is s with the queue q there.
pub record Released (sem p : ℕ) (q : List ℕ) (s t : Phase1) : Type 0 where
  pub queues : Replaces sem q s t
  pub inv : IsAsl t
  pub table : t.table ≡ update s.table p (record (s.table p) { p_sem_add = 0 })

shrink-table : (sem : ℕ) (d : Semd) (q : List ℕ) (s : Phase1) → (shrink sem d q s).table ≡ s.table
unfolding shrink
shrink-table sem d [] s = refl
shrink-table sem d (x ∷ q) s = refl

shrink-Released :
    (sem p : ℕ) (d : Semd) (q : List ℕ) (s : Phase1)
    → IsAsl s
    → find sem s.semd_h ≡ some d
    → Released sem p q s (shrink sem d q (set_sem_add p 0 s))
shrink-Released sem p d q s v e =
    let t = set_sem_add p 0 s in
    let (queues, inv) = shrink_lem t (IsAsl-table s t.table v) sem d q e in
    record { queues = queues; inv = inv; table = shrink-table sem d q t }

-- What `removeBlocked` does to a queue.
abbrev pub Pops : (sem : ℕ) → List ℕ → Phase1 → Option ℕ × Phase1 → Type 0
Pops sem [] s (r, t) = (r ≡ none) × (t ≡ s)
Pops sem (p ∷ rest) s (r, t) = (r ≡ some p) × Released sem p rest s t

remove_head-Pops :
    (sem : ℕ) (d : Semd) (q : List ℕ) (s : Phase1)
    → IsAsl s
    → find sem s.semd_h ≡ some d
    → Pops sem q s (remove_head sem d q s)
unfolding remove_head
remove_head-Pops sem d [] s v e = (refl, refl)
remove_head-Pops sem d (p ∷ rest) s v e = (refl, shrink-Released sem p d rest s v e)

-- With the invariant, `removeBlocked` takes the block at the head of the queue of its key, keeps
-- the invariant and touches no other queue; without waiting blocks it returns NULL and changes
-- nothing.
pub remove_blocked_lem :
    (sem : ℕ) (s : Phase1) → IsAsl s → Pops sem (queue s sem) s (remove_blocked sem s)
unfolding remove_blocked
remove_blocked_lem sem s v = elim (Bool-cases (sem == 0)) [
  | inl z ↦
      let empty : queue s sem ≡ [] = procq_of_absent sem s.semd_h (ground (arith, v.nonzero)) in
      rw (z, empty) (refl, refl)
  | inr z ↦ elim (Option-cases (find sem s.semd_h)) [
    | inl e ↦ rw (z, e, (find-none sem s.semd_h e).0) (refl, refl)
    | inr (d, e) ↦
        rw (z, e, (find-some sem s.semd_h d e).0) (remove_head-Pops sem d d.s_procq s v e)
  ]
]

-- What `outBlocked` does with a block that claims to wait on sem.
abbrev pub Leaves : (sem p : ℕ) → Phase1 → Option ℕ × Phase1 → Type 0
Leaves sem p s (r, t) =
    if has p (queue s sem)
    then (r ≡ some p) × Released sem p (erase p (queue s sem)) s t
    else (r ≡ none) × (t ≡ s)

-- With the invariant, `outBlocked` takes the block out of the queue of the semaphore that its
-- `p_semAdd` names, wherever it stands there, and keeps the invariant; if it is not there, it
-- returns NULL and changes nothing.
pub out_blocked_lem :
    (p : ℕ) (s : Phase1) → IsAsl s → Leaves (s.table p).p_sem_add p s (out_blocked (some p) s)
unfolding out_blocked
out_blocked_lem p s v = go (s.table p).p_sem_add
  where
    go : (sem : ℕ) → Leaves sem p s (out_from sem p s)
    go sem = elim (Bool-cases (sem == 0)) [
      | inl z ↦
          let empty : queue s sem ≡ [] = procq_of_absent sem s.semd_h (ground (arith, v.nonzero)) in
          rw (z, empty) (refl, refl)
      | inr z ↦ elim (Option-cases (find sem s.semd_h)) [
        | inl e ↦ rw (z, e, (find-none sem s.semd_h e).0) (refl, refl)
        | inr (d, e) ↦
            rw (z, e, (find-some sem s.semd_h d e).0)
              (elim (Bool-cases (has p d.s_procq)) [
                | inl here ↦ rw here (refl, shrink-Released sem p d (erase p d.s_procq) s v e)
                | inr away ↦ rw away (refl, refl)
              ])
      ]
    ]

abbrev first : List ℕ → Option ℕ
first [] = none
first (p ∷ _) = some p

Pops-first :
    (sem : ℕ) (q : List ℕ) (s : Phase1) (r : Option ℕ × Phase1) → Pops sem q s r → r.0 ≡ first q
Pops-first sem [] s (r, t) h = h.0
Pops-first sem (p ∷ rest) s (r, t) h = h.0

head_blocked-first : (sem : ℕ) (s : Phase1) → IsAsl s → head_blocked sem s ≡ first (queue s sem)
unfolding head_blocked
head_blocked-first sem s v =
    let absent : (sem == 0) ≡ true → queue s sem ≡ [] =
      λ z. procq_of_absent sem s.semd_h (ground (arith, v.nonzero)) in
    elim (Bool-cases (sem == 0)) [
      | inl z ↦ rw (z, absent z)
      | inr z ↦ elim (Option-cases (find sem s.semd_h)) [
        | inl e ↦ rw (z, e, (find-none sem s.semd_h e).0)
        | inr (d, e) ↦ rw (z, e, (find-some sem s.semd_h d e).0) (head_of d.s_procq)
      ]
    ]
  where
    head_of : (q : List ℕ) → Path (Option ℕ) (elim q [ [] ↦ none | p ∷ _ ↦ some p ]) (first q)
    head_of [] = refl
    head_of (p ∷ q) = refl

-- With the invariant, `headBlocked` shows the block at the head of the queue, the one that
-- `removeBlocked` would return.
pub head_blocked_lem :
    (sem : ℕ) (s : Phase1)
    → IsAsl s
    → (head_blocked sem s ≡ first (queue s sem)) × (head_blocked sem s ≡ (remove_blocked sem s).0)
head_blocked_lem sem s v =
    let shown = head_blocked-first sem s v in
    (
      shown,
      cc (
        shown,
        Pops-first sem (queue s sem) s (remove_blocked sem s) (remove_blocked_lem sem s v),
      ),
    )
