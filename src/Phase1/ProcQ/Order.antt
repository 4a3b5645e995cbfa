-- ===== src/Phase1/ProcQ/Order.antt =====
-- The order of process queues: descending priority, and first come first served within one.
use pand_aossh.Prelude.{
  ℕ, suc, ◌≡◌, refl, true, false, ◌||◌, none, some, List, [], ◌∷◌, ◌++◌, arith, ◌==◌, if◌then◌else◌,
  has, length, All, erase, inl, inr, Bool-cases,
}
use pand_aossh.Prelude.Words.{slt}
use pand_aossh.Types.{Pcb}
use pand_aossh.Phase1.ProcQ.{insert_proc_q, out_proc_q}

-- The priority of x is below that of y, as signed integers.
abbrev pub Below : (ℕ → Pcb) → ℕ → ℕ → Type 0
Below table x y = slt (table x).p_prio (table y).p_prio ≡ true

abbrev pub NotBelow : (ℕ → Pcb) → ℕ → ℕ → Type 0
NotBelow table x y = slt (table x).p_prio (table y).p_prio ≡ false

-- No block stands behind one of lower priority.
abbrev pub IsOrdered : (ℕ → Pcb) → List ℕ → Type 0
IsOrdered table [] = Unit {0}
IsOrdered table (x ∷ xs) = All (NotBelow table x) xs × IsOrdered table xs

-- Where a block went: behind all that are not below it up to the first that is.
pub record Placed (table : ℕ → Pcb) (p : ℕ) (xs result : List ℕ) : Type 0 where
  pub before : List ℕ
  pub behind : List ℕ
  pub queue : xs ≡ before ++ behind
  pub placed : result ≡ before ++ p ∷ behind
  pub ahead : All (λ x. NotBelow table x p) before
  pub lower : All (λ x. Below table x p) behind

Below-trans : (table : ℕ → Pcb) (x y p : ℕ) → NotBelow table x y → Below table x p → Below table y p
Below-trans table x y p h k = ground arith

All-Below :
    (table : ℕ → Pcb) (x p : ℕ) (ys : List ℕ)
    → Below table x p
    → All (NotBelow table x) ys
    → All (λ y. Below table y p) ys
All-Below table x p [] h a = tt
All-Below table x p (y ∷ ys) h a = (Below-trans table x y p a.0 h, All-Below table x p ys h a.1)

-- In an ordered queue the new block is the last of its priority: all before it are not below it,
-- and all behind it are.
pub insert_proc_q-Placed :
    (table : ℕ → Pcb) (p : ℕ) (xs : List ℕ)
    → IsOrdered table xs
    → Placed table p xs (insert_proc_q table p xs)
unfolding insert_proc_q
insert_proc_q-Placed table p [] o = record {
  before = [];
  behind = [];
  queue = refl;
  placed = refl;
  ahead = tt;
  lower = tt;
}
insert_proc_q-Placed table p (x ∷ xs) o =
    elim (Bool-cases (slt (table x).p_prio (table p).p_prio)) [
      | inl below ↦ record {
        before = [];
        behind = x ∷ xs;
        queue = refl;
        placed = rw below;
        ahead = tt;
        lower = (below, All-Below table x p xs below o.0);
      }
      | inr above ↦
          let rest = insert_proc_q-Placed table p xs o.1 in
          record {
            before = x ∷ rest.before;
            behind = rest.behind;
            queue = rw (← rest.queue);
            placed = rw (above, rest.placed);
            ahead = (above, rest.ahead);
            lower = rest.lower;
          }
    ]

insert-NotBelow :
    (table : ℕ → Pcb) (x p : ℕ) (xs : List ℕ)
    → NotBelow table x p
    → All (NotBelow table x) xs
    → All (NotBelow table x) (insert_proc_q table p xs)
unfolding insert_proc_q
insert-NotBelow table x p [] h a = (h, tt)
insert-NotBelow table x p (y ∷ ys) h a = ground (arith, insert-NotBelow table x p ys h a.1)

pub All-NotBelow :
    (table : ℕ → Pcb) (p x : ℕ) (xs : List ℕ)
    → Below table x p
    → All (NotBelow table x) xs
    → All (NotBelow table p) xs
All-NotBelow table p x [] h a = tt
All-NotBelow table p x (y ∷ ys) h a = ground (arith, All-NotBelow table p x ys h a.1)

-- `insertProcQ` keeps a queue ordered by priority.
pub insert_proc_q-IsOrdered :
    (table : ℕ → Pcb) (p : ℕ) (xs : List ℕ)
    → IsOrdered table xs
    → IsOrdered table (insert_proc_q table p xs)
unfolding insert_proc_q
insert_proc_q-IsOrdered table p [] o = (tt, tt)
insert_proc_q-IsOrdered table p (x ∷ xs) o =
    elim (Bool-cases (slt (table x).p_prio (table p).p_prio)) [
      | inl below ↦ rw below ((ground arith, All-NotBelow table p x xs below o.0), o)
      | inr above ↦
          rw above (insert-NotBelow table x p xs above o.0, insert_proc_q-IsOrdered table p xs o.1)
    ]

pub has-insert_proc_q :
    (table : ℕ → Pcb) (a p : ℕ) (xs : List ℕ)
    → has a (insert_proc_q table p xs) ≡ ((a == p) || has a xs)
unfolding insert_proc_q
has-insert_proc_q table a p [] = refl
has-insert_proc_q table a p (x ∷ xs) = ground (arith, has-insert_proc_q table a p xs)

pub length-insert_proc_q :
    (table : ℕ → Pcb) (p : ℕ) (xs : List ℕ) → length (insert_proc_q table p xs) ≡ suc (length xs)
unfolding insert_proc_q
length-insert_proc_q table p [] = refl
length-insert_proc_q table p (x ∷ xs) = ground (arith, length-insert_proc_q table p xs)

-- `outProcQ` removes the first occurrence of the block and returns it, or NULL if there is none.
pub out_proc_q-erase :
    (p : ℕ) (xs : List ℕ)
    → ((out_proc_q p xs).1 ≡ erase p xs)
      × ((out_proc_q p xs).0 ≡ (if has p xs then some p else none))
unfolding out_proc_q
out_proc_q-erase p [] = (refl, refl)
out_proc_q-erase p (x ∷ xs) = ground (arith, out_proc_q-erase p xs)

pub insert_proc_q-behind :
    (table : ℕ → Pcb) (p x : ℕ) (xs : List ℕ)
    → NotBelow table x p
    → insert_proc_q table p (x ∷ xs) ≡ x ∷ insert_proc_q table p xs
unfolding insert_proc_q
insert_proc_q-behind table p x xs h = rw h
