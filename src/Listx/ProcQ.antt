-- ===== src/Listx/ProcQ.antt =====
-- phase1/pcb.c: process queues at the level of pointers. `p_list` is the first field of `pcb_t`, so
-- `container_of` is the identity on addresses, and a block stands at the address of its `p_list`.
-- The loops run on fuel, one unit for each node and one for the sentinel.
use pand_aossh.Prelude.{
  ℕ, zero, suc, ==_refl, ◌<◌, ◌≡◌, refl, false, Option, none, some, List, [], ◌∷◌, ◌++◌,
  append_assoc, arith, ◌==◌, if◌then◌else◌, has, has-append, length, inl, inr, Bool-cases,
}
use pand_aossh.Prelude.Words.{slt}
use pand_aossh.Types.{Pcb}
use pand_aossh.Listx.{Links, init_list_head, list_add_between, list_add_tail, list_del, list_empty}
use pand_aossh.Listx.Chain.{first, SameOutside, Chain-cut_prev, Chain-cut_next, Chain-node_next}
use pand_aossh.Listx.Ring.{
  IsRing, IsRing-add, IsRing-del, IsRing-frame, init_list_head-IsRing, init_within, list_empty_iff,
  add_within, del_within,
}
use pand_aossh.Phase1.ProcQ

-- The loop of `insertProcQ` at the node `pos`.
insert_loop : ℕ → (ℕ → Pcb) → (p head pos : ℕ) → Links → Option Links
insert_loop zero table p head pos m = none
insert_loop (suc fuel) table p head pos m =
    let rest = insert_loop fuel table p head (m pos).next m in
    if pos == head
    then some (list_add_tail p head m)
    else if slt (table pos).p_prio (table p).p_prio
    then some (list_add_between p (m pos).prev pos m)
    else rest

unfoldable pub insert_proc_q : ℕ → (ℕ → Pcb) → (head p : ℕ) → Links → Option Links
unfolding insert_loop
insert_proc_q fuel table head p m = insert_loop fuel table p head (m head).next m

unfoldable pub head_proc_q : (head : ℕ) → Links → Option ℕ
head_proc_q head m = if list_empty head m then none else some (m head).next

unfoldable pub remove_proc_q : (head : ℕ) → Links → Option ℕ × Links
remove_proc_q head m =
    if list_empty head m
    then (none, m)
    else (some (m head).next, init_list_head (m head).next (list_del (m head).next m))

-- The loop of `outProcQ` at the node `pos`; the outer `none` says that the fuel ran out.
out_loop : ℕ → (p head pos : ℕ) → Links → Option (Option ℕ × Links)
out_loop zero p head pos m = none
out_loop (suc fuel) p head pos m =
    let rest = out_loop fuel p head (m pos).next m in
    if pos == head then some (none, m) else if pos == p then some (some p, list_del pos m) else rest

unfoldable pub out_proc_q : ℕ → (head p : ℕ) → Links → Option (Option ℕ × Links)
unfolding out_loop
out_proc_q fuel head p m = out_loop fuel p head (m head).next m

-- The run ends within its fuel, and its result has the property.
abbrev pub Done {ℓ} : {A : Type ℓ} → (A → Type 0) → Option A → Type 0
Done P none = ⊥
Done P (some a) = P a

abbrev pub Inserts : Links → (ℕ → Pcb) → (head p : ℕ) → List ℕ → Links → Type 0
Inserts m table head p xs g =
    IsRing g head (ProcQ.insert_proc_q table p xs) × SameOutside (p ∷ head ∷ xs) m g

insert_loop_lem :
    (fuel : ℕ) (table : ℕ → Pcb) (p head : ℕ) (m : Links) (pre rest : List ℕ)
    → IsRing m head (pre ++ rest)
    → has p (head ∷ pre ++ rest) ≡ false
    → length rest < fuel
    → Done
        (λ g.
          IsRing g head (pre ++ ProcQ.insert_proc_q table p rest)
          × SameOutside (p ∷ head ∷ pre ++ rest) m g)
        (insert_loop fuel table p head (first rest head) m)
unfolding insert_loop ProcQ.insert_proc_q list_add_tail
insert_loop_lem zero table p head m pre rest r h f = absurd (omega arith)
insert_loop_lem (suc fuel) table p head m pre [] r h f =
    rw (==_refl head, Chain-cut_prev m head pre [] head r.chain)
      (IsRing-add m head p pre [] r h, add_within m head p pre [] h)
insert_loop_lem (suc fuel) table p head m pre (x ∷ rest) r h f =
    let more : (x == head) ≡ false = ground (arith, has-append head pre (x ∷ rest), r.apart) in
    rw more (elim (Bool-cases (slt (table x).p_prio (table p).p_prio)) [
      | inl lower ↦
          rw (lower, Chain-cut_prev m head pre (x ∷ rest) head r.chain)
            (IsRing-add m head p pre (x ∷ rest) r h, add_within m head p pre (x ∷ rest) h)
      | inr higher ↦
          rw (higher, Chain-node_next m head x pre rest head r.chain)
            (simp append_assoc at (
              insert_loop_lem fuel table p head m (pre ++ x ∷ []) rest
                (rw (append_assoc pre (x ∷ []) rest) r) (rw (append_assoc pre (x ∷ []) rest) h)
                (omega arith)))
    ])

-- With fuel for the walk and a block that is not in the ring, `insertProcQ` ends with a ring of
-- the order that the list-level function gives, and writes to no other node.
pub insert_proc_q_lem :
    (fuel : ℕ) (table : ℕ → Pcb) (p head : ℕ) (m : Links) (xs : List ℕ)
    → IsRing m head xs
    → has p (head ∷ xs) ≡ false
    → length xs < fuel
    → Done (Inserts m table head p xs) (insert_proc_q fuel table head p m)
unfolding insert_proc_q
insert_proc_q_lem fuel table p head m xs r h f =
    rw (Chain-cut_next m head [] xs head r.chain) (insert_loop_lem fuel table p head m [] xs r h f)

-- What `removeProcQ` did to a ring of the nodes xs.
abbrev pub Removes : Links → (head : ℕ) → List ℕ → Option ℕ × Links → Type 0
Removes m head [] (r, g) = (r ≡ none) × (g ≡ m)
Removes m head (x ∷ xs) (r, g) =
    (r ≡ some x) × IsRing g head xs × IsRing g x [] × SameOutside (head ∷ x ∷ xs) m g

-- `removeProcQ` on a ring unlinks the first node, returns it linked to itself alone, and writes to
-- no node outside the ring; on an empty ring it returns NULL and changes nothing.
pub remove_proc_q_lem :
    (head : ℕ) (m : Links) (xs : List ℕ)
    → IsRing m head xs
    → Removes m head xs (remove_proc_q head m)
unfolding remove_proc_q
remove_proc_q_lem head m [] r = rw (list_empty_iff m head [] r) (refl, refl)
remove_proc_q_lem head m (x ∷ xs) r =
    rw (list_empty_iff m head (x ∷ xs) r, r.chain.0)
      (
        refl,
        IsRing-frame (list_del x m) head (init_list_head x (list_del x m)) xs (x ∷ [])
            (IsRing-del m head x [] xs r) (init_within (list_del x m) x)
            (λ y i. ground (arith, r.apart, r.distinct)),
        init_list_head-IsRing (list_del x m) x,
        λ y o. ground (arith, init_within (list_del x m) x y, del_within m head x [] xs r y),
      )

-- What `outProcQ` did to a ring of the nodes xs.
abbrev pub Takes : Links → (head p : ℕ) → List ℕ → Option ℕ × Links → Type 0
Takes m head p xs (r, g) =
    (r ≡ (ProcQ.out_proc_q p xs).0)
    × IsRing g head (ProcQ.out_proc_q p xs).1
    × SameOutside (head ∷ xs) m g

out_loop_lem :
    (fuel p head : ℕ) (m : Links) (pre rest : List ℕ)
    → IsRing m head (pre ++ rest)
    → length rest < fuel
    → Done
        (λ (r, g).
          (r ≡ (ProcQ.out_proc_q p rest).0)
          × IsRing g head (pre ++ (ProcQ.out_proc_q p rest).1)
          × SameOutside (head ∷ pre ++ rest) m g)
        (out_loop fuel p head (first rest head) m)
unfolding out_loop ProcQ.out_proc_q
out_loop_lem zero p head m pre rest r f = absurd (omega arith)
out_loop_lem (suc fuel) p head m pre [] r f = rw (==_refl head) (refl, r, λ y o. refl)
out_loop_lem (suc fuel) p head m pre (x ∷ rest) r f =
    let more : (x == head) ≡ false = ground (arith, has-append head pre (x ∷ rest), r.apart) in
    rw more (elim (Bool-cases (x == p)) [
      | inl hit ↦ rw hit (refl, IsRing-del m head x pre rest r, del_within m head x pre rest r)
      | inr miss ↦
          rw (miss, Chain-node_next m head x pre rest head r.chain)
            (simp append_assoc at (
              out_loop_lem fuel p head m (pre ++ x ∷ []) rest
                (rw (append_assoc pre (x ∷ []) rest) r) (omega arith)))
    ])

-- With fuel for the walk, `outProcQ` ends: it unlinks the block if it is in the queue, says
-- whether it was, and writes to no node outside the ring.
pub out_proc_q_lem :
    (fuel p head : ℕ) (m : Links) (xs : List ℕ)
    → IsRing m head xs
    → length xs < fuel
    → Done (Takes m head p xs) (out_proc_q fuel head p m)
unfolding out_proc_q
out_proc_q_lem fuel p head m xs r f =
    rw (Chain-cut_next m head [] xs head r.chain) (out_loop_lem fuel p head m [] xs r f)
