-- ===== src/Phase1/Asl/Invariant.antt =====
-- The invariant of the active semaphore list, and insertBlocked as an operation on queues.
use pand_aossh.Prelude.{
  ℕ, ◌+◌, ◌≡◌, refl, ◌⊎◌, inl, inr, false, none, some, List, [], ◌∷◌, ◌++◌, arith, ◌==◌,
  if◌then◌else◌, has, has-append, length, length-append, IsDistinct, snoc-IsDistinct, All, snoc-All,
  Option-cases, update, ap, length-range,
}
use pand_aossh.Types.{Pcb, Semd, Phase1}
use pand_aossh.Phase1.Pcb.{max_proc}
use pand_aossh.Phase1.Asl.{find, set_procq, init_asl, insert_blocked, shrink, activate, set_sem_add}
use pand_aossh.Phase1.Asl.Queues.{
  procq_of, keys, HasWaiters, find-none, find-some, procq_of-set_procq, procq_of-snoc,
  procq_of-unlink, keys-set_procq, keys-snoc, has-keys-unlink, keys-unlink-IsDistinct,
  length-unlink, length-set_procq, set_procq-HasWaiters, snoc_ne, unlink-HasWaiters,
}

-- Keys are distinct and not NULL, no active queue is empty, and no descriptor is lost.
pub record IsAsl (s : Phase1) : Type 0 where
  pub unique : IsDistinct (keys s.semd_h)
  pub nonzero : has 0 (keys s.semd_h) ≡ false
  pub waiting : All HasWaiters s.semd_h
  pub total : length s.semd_free + length s.semd_h ≡ max_proc

-- The processes that wait on a semaphore, in the order in which they will be woken.
abbrev pub queue : Phase1 → ℕ → List ℕ
queue s sem = procq_of sem s.semd_h

pub init_asl-IsAsl : (s : Phase1) → IsAsl (init_asl s)
unfolding init_asl
init_asl-IsAsl s = record {
  unique = tt;
  nonzero = refl;
  waiting = tt;
  total = omega (arith, length-range 0 max_proc);
}

-- The queue of one key is replaced.
abbrev pub Replaces : (sem : ℕ) → List ℕ → Phase1 → Phase1 → Type 0
Replaces sem q s t = (j : ℕ) → queue t j ≡ (if j == sem then q else queue s j)

-- A block is queued: the state t is s with p at the end of the queue of sem.
pub record Queued (sem p : ℕ) (s t : Phase1) : Type 0 where
  pub queues : Replaces sem (queue s sem ++ p ∷ []) s t
  pub inv : IsAsl t
  pub table : t.table ≡ update s.table p (record (s.table p) { p_sem_add = sem })

-- No descriptor is left for a key without one.
pub record Refused (sem : ℕ) (s t : Phase1) : Type 0 where
  pub unchanged : t ≡ s
  pub exhausted : length s.semd_h ≡ max_proc
  pub empty : queue s sem ≡ []

module _ (s : Phase1) (v : IsAsl s) where
  join_queue :
      (sem p : ℕ) (d : Semd)
      → find sem s.semd_h ≡ some d
      → Queued sem p s
          (set_sem_add p sem (record s { semd_h = set_procq sem (d.s_procq ++ p ∷ []) s.semd_h }))
  join_queue sem p d e =
      let (q, _, present) = find-some sem s.semd_h d e in
      let q' : List ℕ = d.s_procq ++ p ∷ [] in
      record {
        queues = λ j. rw q (procq_of-set_procq j sem q' s.semd_h present);
        inv = record {
          unique = rw (keys-set_procq sem q' s.semd_h) v.unique;
          nonzero = rw (keys-set_procq sem q' s.semd_h) v.nonzero;
          waiting = set_procq-HasWaiters sem q' s.semd_h (snoc_ne d.s_procq p) v.waiting;
          total = rw (length-set_procq sem q' s.semd_h) v.total;
        };
        table = refl;
      }

  new_queue :
      (sem p d : ℕ) (rest : List ℕ)
      → (sem == 0) ≡ false
      → find sem s.semd_h ≡ none
      → s.semd_free ≡ d ∷ rest
      → Queued sem p s (
          set_sem_add p sem (record s {
            semd_free = rest;
            semd_h = s.semd_h ++ record { index = d; s_key = sem; s_procq = p ∷ [] } ∷ [];
          }))
  new_queue sem p d rest z e f =
      let new : Semd = record { index = d; s_key = sem; s_procq = p ∷ [] } in
      let (q, absent) = find-none sem s.semd_h e in
      record {
        queues = λ j. rw q (procq_of-snoc j new s.semd_h absent);
        inv = record {
          unique =
              rw (keys-snoc new s.semd_h) (snoc-IsDistinct sem (keys s.semd_h) v.unique absent);
          nonzero =
              rw (keys-snoc new s.semd_h, has-append 0 (keys s.semd_h) (sem ∷ []))
                (ground (arith, v.nonzero));
          waiting = snoc-All HasWaiters new s.semd_h (λ h. cc) v.waiting;
          total =
              omega (arith, length-append {0} s.semd_h (new ∷ []), v.total, ap {B = ℕ} length f);
        };
        table = refl;
      }

  abbrev pub Inserted : (sem p : ℕ) → ℕ × Phase1 → Type 0
  Inserted sem p r = ((r.0 ≡ 0) × Queued sem p s r.1) ⊎ ((r.0 ≡ 1) × Refused sem s r.1)

  activate_lem :
      (sem p : ℕ) (free : List ℕ)
      → (sem == 0) ≡ false
      → find sem s.semd_h ≡ none
      → s.semd_free ≡ free
      → Inserted sem p (activate sem p free s)
  unfolding activate
  activate_lem sem p [] z e f = inr (
    refl,
    record {
      unchanged = refl;
      exhausted = omega (arith, v.total, ap {B = ℕ} length f);
      empty = (find-none sem s.semd_h e).0;
    },
  )
  activate_lem sem p (d ∷ rest) z e f = inl (refl, new_queue sem p d rest z e f)

  -- With the invariant and a key that is not NULL, `insertBlocked` puts the block at the end of
  -- the queue of the key, keeps the invariant and touches no other queue; or it is refused
  -- because every descriptor is in use and none has the key, and then nothing changes.
  pub insert_blocked_lem :
      (sem p : ℕ) → (sem == 0) ≡ false → Inserted sem p (insert_blocked sem (some p) s)
  unfolding insert_blocked
  insert_blocked_lem sem p z = elim (Option-cases (find sem s.semd_h)) [
    | inl e ↦ rw (z, e) (activate_lem sem p s.semd_free z e refl)
    | inr (d, e) ↦ rw (z, e) (inl (refl, join_queue sem p d e))
  ]

  pub shrink_lem :
      (sem : ℕ) (d : Semd) (q : List ℕ)
      → find sem s.semd_h ≡ some d
      → Replaces sem q s (shrink sem d q s) × IsAsl (shrink sem d q s)
  unfolding shrink
  shrink_lem sem d [] e =
      let (_, _, present) = find-some sem s.semd_h d e in
      (
        λ j. procq_of-unlink j sem s.semd_h v.unique present,
        record {
          unique = keys-unlink-IsDistinct sem s.semd_h v.unique;
          nonzero = has-keys-unlink 0 sem s.semd_h v.nonzero;
          waiting = unlink-HasWaiters sem s.semd_h v.waiting;
          total = omega (
            arith,
            v.total,
            length-unlink sem s.semd_h present,
            length-append {0} s.semd_free (d.index ∷ []),
          );
        },
      )
  shrink_lem sem d (x ∷ q) e =
      let (_, _, present) = find-some sem s.semd_h d e in
      (
        λ j. procq_of-set_procq j sem (x ∷ q) s.semd_h present,
        record {
          unique = rw (keys-set_procq sem (x ∷ q) s.semd_h) v.unique;
          nonzero = rw (keys-set_procq sem (x ∷ q) s.semd_h) v.nonzero;
          waiting = set_procq-HasWaiters sem (x ∷ q) s.semd_h (λ h. cc) v.waiting;
          total = rw (length-set_procq sem (x ∷ q) s.semd_h) v.total;
        },
      )

-- The table does not matter to the list.
pub IsAsl-table : (s : Phase1) (t : ℕ → Pcb) → IsAsl s → IsAsl (record s { table = t })
IsAsl-table s t v = record {
  unique = v.unique;
  nonzero = v.nonzero;
  waiting = v.waiting;
  total = v.total;
}
