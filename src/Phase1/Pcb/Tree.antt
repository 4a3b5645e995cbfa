-- ===== src/Phase1/Pcb/Tree.antt =====
-- The process tree: the children lists and the parent links agree.
use pand_aossh.Prelude.{
  ℕ, ◌≡◌, refl, true, false, Option, none, some, List, [], ◌∷◌, ◌++◌, arith, ◌==◌, if◌then◌else◌,
  has, has-append, erase, IsDistinct, snoc-IsDistinct, erase-IsDistinct, has-erase_self,
  has-erase_ne, ap, subst,
}
use pand_aossh.Types.{Phase1}
use pand_aossh.Phase1.Pcb.{insert_child, remove_child, out_child, remove_first, unlink_sib}

abbrev children : Phase1 → ℕ → List ℕ
children s p = (s.table p).p_child

abbrev parent : Phase1 → ℕ → Option ℕ
parent s p = (s.table p).p_parent

-- A block is in the children list of its parent, once, and in no other list.
pub record IsTree (s : Phase1) : Type 0 where
  pub distinct : (p : ℕ) → IsDistinct (children s p)
  pub listed : (p c : ℕ) → parent s c ≡ some p → has c (children s p) ≡ true
  pub owned : (p c : ℕ) → has c (children s p) ≡ true → parent s c ≡ some p

-- The family after a change: c has the parent o, and only the list of p is another one.
pub record Moves (p c : ℕ) (o : Option ℕ) (l : List ℕ) (s t : Phase1) : Type 0 where
  pub parents : (q : ℕ) → parent t q ≡ (if q == c then o else parent s q)
  pub lists : (q : ℕ) → children t q ≡ (if q == p then l else children s q)

-- In a consistent tree `insertChild` of a block without a parent makes it the last child, changes
-- no other link, and keeps the tree consistent.
pub insert_child_lem :
    (s : Phase1) (prnt p : ℕ)
    → IsTree s
    → parent s p ≡ none
    → Moves prnt p (some prnt) (children s prnt ++ p ∷ []) s (insert_child prnt p s)
      × IsTree (insert_child prnt p s)
unfolding insert_child
insert_child_lem s prnt p v o =
    let absent : has p (children s prnt) ≡ false = ground (arith, v.owned prnt p) in
    (
      record { parents = λ q. ground arith; lists = λ q. ground arith },
      record {
        distinct =
            λ q. ground (arith, v.distinct q, snoc-IsDistinct p (children s prnt), v.distinct prnt);
        listed = λ q c e. ground (arith, v.listed q c, has-append c (children s prnt) (p ∷ []));
        owned = λ q c e. ground (arith, v.owned q c, has-append c (children s prnt) (p ∷ []));
      },
    )

-- What `removeChild` does to the children list of p.
abbrev pub Pops : (p : ℕ) → List ℕ → Phase1 → Option ℕ × Phase1 → Type 0
Pops p [] s (r, t) = (r ≡ none) × (t ≡ s)
Pops p (c ∷ rest) s (r, t) = (r ≡ some c) × Moves p c none rest s t × IsTree t

remove_first-Pops :
    (p : ℕ) (l : List ℕ) (s : Phase1)
    → IsTree s
    → children s p ≡ l
    → Pops p l s (remove_first p l s)
unfolding remove_first
remove_first-Pops p [] s v e = (refl, refl)
remove_first-Pops p (c ∷ rest) s v e =
    let d : IsDistinct (c ∷ rest) = subst IsDistinct e (v.distinct p) in
    let h : (a : ℕ) → has a (children s p) ≡ has a (c ∷ rest) = λ a. ap (has a) e in
    (
      refl,
      record { parents = λ q. ground arith; lists = λ q. ground arith },
      record {
        distinct = λ q. ground (arith, v.distinct q, d);
        listed = λ q a i. ground (arith, v.listed q a, h a);
        owned = λ q a i. ground (arith, v.owned q a, v.owned p c, h a, h c, d.0);
      },
    )

-- In a consistent tree `removeChild` takes the eldest child out of the family and keeps the tree
-- consistent, or returns NULL and changes nothing when there is none.
pub remove_child_lem :
    (p : ℕ) (s : Phase1) → IsTree s → Pops p (children s p) s (remove_child (some p) s)
unfolding remove_child
remove_child_lem p s v = remove_first-Pops p (children s p) s v refl

-- What `outChild` does to a block with the parent o.
abbrev pub Leaves : (p : ℕ) → Option ℕ → Phase1 → Option ℕ × Phase1 → Type 0
Leaves p none s (r, t) = (r ≡ none) × (t ≡ s)
Leaves p (some o) s (r, t) = (r ≡ some p) × Moves o p none (erase p (children s o)) s t × IsTree t

unlink_sib-Leaves :
    (p : ℕ) (o : Option ℕ) (s : Phase1)
    → IsTree s
    → parent s p ≡ o
    → Leaves p o s (unlink_sib p o s)
unfolding unlink_sib
unlink_sib-Leaves p none s v e = (refl, refl)
unlink_sib-Leaves p (some o) s v e =
    let gone = has-erase_self p (children s o) (v.distinct o) in
    (
      refl,
      record { parents = λ q. ground arith; lists = λ q. ground arith },
      record {
        distinct =
            λ q. ground (arith, v.distinct q, erase-IsDistinct p (children s o) (v.distinct o));
        listed = λ q a i. ground (arith, v.listed q a, has-erase_ne a p (children s o));
        owned = λ q a i.
            ground (arith, v.owned q a, v.owned o a, gone, has-erase_ne a p (children s o));
      },
    )

-- In a consistent tree `outChild` takes a block out of its parent's list, wherever it stands, and
-- keeps the tree consistent; for a block without a parent it returns NULL and changes nothing.
pub out_child_lem : (p : ℕ) (s : Phase1) → IsTree s → Leaves p (parent s p) s (out_child (some p) s)
unfolding out_child
out_child_lem p s v = unlink_sib-Leaves p (parent s p) s v refl
