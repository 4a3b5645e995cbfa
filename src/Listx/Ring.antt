-- ===== src/Listx/Ring.antt =====
-- Which sequence a circular list stands for, and what the operations of listx.h do to it.
use pand_aossh.Prelude.{
  ℕ, ◌≡◌, refl, true, false, List, [], ◌∷◌, ◌++◌, append-nil, arith, ◌==◌, has, has-append,
  IsDistinct,
}
use pand_aossh.Listx.{
  Links, init_list_head, list_add_between, list_add, list_add_tail, list_del, list_empty,
}
use pand_aossh.Listx.Chain.{
  Chain, last, first, SameOutside, Chain-add, Chain-del, Chain-cut_prev, Chain-cut_next,
  Chain-node_next, add-SameOutside, del-SameOutside, has-last, ne-first, Chain-frame,
}

-- `head` is the sentinel of a circular list with the nodes `xs`, in this order.
pub record IsRing (m : Links) (head : ℕ) (xs : List ℕ) : Type 0 where
  pub chain : Chain m head xs head
  pub distinct : IsDistinct xs
  pub apart : has head xs ≡ false

insert-IsDistinct :
    (new : ℕ) (xs ys : List ℕ)
    → IsDistinct (xs ++ ys)
    → has new (xs ++ ys) ≡ false
    → IsDistinct (xs ++ new ∷ ys)
insert-IsDistinct new [] ys d h = (h, d)
insert-IsDistinct new (x ∷ xs) ys d h = ground (
  arith,
  insert-IsDistinct new xs ys d.1,
  has-append x xs (new ∷ ys),
  has-append x xs ys,
  has-append new xs ys,
)

remove-IsDistinct : (e : ℕ) (xs ys : List ℕ) → IsDistinct (xs ++ e ∷ ys) → IsDistinct (xs ++ ys)
remove-IsDistinct e [] ys d = d.1
remove-IsDistinct e (x ∷ xs) ys d =
    ground (arith, remove-IsDistinct e xs ys d.1, has-append x xs (e ∷ ys), has-append x xs ys)

module _ (m : Links) (head : ℕ) where
  -- `__list_add` between two neighbours of a ring.
  pub IsRing-add :
      (new : ℕ) (xs ys : List ℕ)
      → IsRing m head (xs ++ ys)
      → has new (head ∷ xs ++ ys) ≡ false
      → IsRing (list_add_between new (last head xs) (first ys head) m) head (xs ++ new ∷ ys)
  IsRing-add new xs ys r h = record {
    chain = Chain-add m head new xs ys head r.chain (r.apart, r.distinct, r.apart) (ground arith);
    distinct = insert-IsDistinct new xs ys r.distinct (ground arith);
    apart = ground (arith, has-append head xs (new ∷ ys), has-append head xs ys, r.apart);
  }

  -- `list_del` of a node of a ring leaves the ring of the other nodes, in their order.
  pub IsRing-del :
      (e : ℕ) (xs ys : List ℕ)
      → IsRing m head (xs ++ e ∷ ys)
      → IsRing (list_del e m) head (xs ++ ys)
  IsRing-del e xs ys r = record {
    chain =
        Chain-del m head e xs ys head r.chain (r.apart, r.distinct, r.apart)
          (Chain-cut_prev m head xs (e ∷ ys) head r.chain)
          (Chain-node_next m head e xs ys head r.chain);
    distinct = remove-IsDistinct e xs ys r.distinct;
    apart = ground (arith, has-append head xs (e ∷ ys), has-append head xs ys, r.apart);
  }

  -- A ring is kept by any change of the memory that spares its own nodes.
  pub IsRing-frame :
      (g : Links) (xs touched : List ℕ)
      → IsRing m head xs
      → SameOutside touched m g
      → ((y : ℕ) → has y (head ∷ xs) ≡ true → has y touched ≡ false)
      → IsRing g head xs
  IsRing-frame g xs touched r same apart = record {
    chain =
        Chain-frame m g head xs head (λ y h. ground (arith, same y, apart y))
          (λ y h. ground (arith, same y, apart y)) r.chain;
    distinct = r.distinct;
    apart = r.apart;
  }

  pub init_list_head-IsRing : IsRing (init_list_head head m) head []
  unfolding init_list_head
  init_list_head-IsRing = record {
    chain = (ground arith, ground arith);
    distinct = tt;
    apart = refl;
  }

  pub init_within : SameOutside (head ∷ []) m (init_list_head head m)
  unfolding init_list_head
  init_within y h = ground arith

  pub list_empty_iff :
      (xs : List ℕ) → IsRing m head xs → list_empty head m ≡ elim xs [ [] ↦ true | _ ↦ false ]
  unfolding list_empty
  list_empty_iff [] r = ground (arith, r.chain.0)
  list_empty_iff (x ∷ xs) r = ground (arith, r.chain.0, r.apart)

  -- `list_add` of a node that is not in the ring makes it the first.
  pub list_add-IsRing :
      (new : ℕ) (xs : List ℕ)
      → IsRing m head xs
      → has new (head ∷ xs) ≡ false
      → IsRing (list_add new head m) head (new ∷ xs)
  unfolding list_add
  list_add-IsRing new xs r h =
      rw (Chain-cut_next m head [] xs head r.chain) (IsRing-add new [] xs r h)

  -- `list_add_tail` of a node that is not in the ring makes it the last.
  pub list_add_tail-IsRing :
      (new : ℕ) (xs : List ℕ)
      → IsRing m head xs
      → has new (head ∷ xs) ≡ false
      → IsRing (list_add_tail new head m) head (xs ++ new ∷ [])
  unfolding list_add_tail
  list_add_tail-IsRing new xs r h =
      let r' : IsRing m head (xs ++ []) = rw (append-nil xs) r in
      rw (Chain-cut_prev m head xs [] head r'.chain)
        (IsRing-add new xs [] r' (ground (arith, append-nil xs)))

  -- Both writes stay within the ring and the node.
  pub add_within :
      (new : ℕ) (xs ys : List ℕ)
      → has new (head ∷ xs ++ ys) ≡ false
      → SameOutside
          (new ∷ head ∷ xs ++ ys)
          m
          (list_add_between new (last head xs) (first ys head) m)
  add_within new xs ys h y o =
      let front = has-last head xs ys in
      let hp : (new == last head xs) ≡ false = ground arith in
      let hn : (new == first ys head) ≡ false =
        ne-first new ys head (ground (arith, has-append new xs ys)) in
      add-SameOutside new (last head xs) (first ys head) m hp hn y
        (ground (arith, ne-first y ys head, has-append y xs ys))

  pub del_within :
      (e : ℕ) (xs ys : List ℕ)
      → IsRing m head (xs ++ e ∷ ys)
      → SameOutside (head ∷ xs ++ e ∷ ys) m (list_del e m)
  del_within e xs ys r y o = del-SameOutside e m y (
      ground (
        arith,
        Chain-cut_prev m head xs (e ∷ ys) head r.chain,
        Chain-node_next m head e xs ys head r.chain,
        has-last head xs (e ∷ ys),
        ne-first y ys head,
        has-append y xs (e ∷ ys),
      ))
