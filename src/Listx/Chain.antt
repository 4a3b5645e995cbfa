-- ===== src/Listx/Chain.antt =====
-- Segments of a doubly linked list, and the writes of `__list_add` and `list_del` on them.
use pand_aossh.Prelude.{
  ℕ, ◌≡◌, true, false, List, [], ◌∷◌, ◌++◌, arith, ◌==◌, if◌then◌else◌, has, has-append, IsDistinct,
}
use pand_aossh.Listx.{Links, list_add_between, list_del}

-- From `a` the `next` links lead through `xs` to `b`, and the `prev` links lead back.
abbrev pub Chain : Links → ℕ → List ℕ → ℕ → Type 0
Chain m a [] b = ((m a).next ≡ b) × ((m b).prev ≡ a)
Chain m a (x ∷ xs) b = ((m a).next ≡ x) × ((m x).prev ≡ a) × Chain m x xs b

-- The nodes are distinct from one another and from the end.
abbrev pub IsSimple : ℕ → List ℕ → ℕ → Type 0
IsSimple a xs b = (has a xs ≡ false) × IsDistinct xs × (has b xs ≡ false)

-- The last node of `a ∷ xs`, and the first of `ys`, then `b`.
abbrev pub last : ℕ → List ℕ → ℕ
last a [] = a
last a (x ∷ xs) = last x xs

abbrev pub first : List ℕ → ℕ → ℕ
first [] b = b
first (y ∷ ys) b = y

-- The memories differ at most at the listed addresses.
abbrev pub SameOutside : List ℕ → Links → Links → Type 0
SameOutside xs m g = (y : ℕ) → has y xs ≡ false → g y ≡ m y

pub Chain-frame :
    (m g : Links) (a : ℕ) (xs : List ℕ) (b : ℕ)
    → ((y : ℕ) → (has y (a ∷ xs) ≡ true) → (g y).next ≡ (m y).next)
    → ((y : ℕ) → (has y (b ∷ xs) ≡ true) → (g y).prev ≡ (m y).prev)
    → Chain m a xs b
    → Chain g a xs b
Chain-frame m g a [] b n p c = ground (arith, n a, p b)
Chain-frame m g a (x ∷ xs) b n p c = (
  ground (arith, n a),
  ground (arith, p x),
  Chain-frame m g x xs b (λ y h. n y (ground arith)) (λ y h. p y (ground arith)) c.2,
)

module _ (new p n : ℕ) (m : Links) (hp : (new == p) ≡ false) (hn : (new == n) ≡ false) where
  pub add-next :
      (y : ℕ)
      → (list_add_between new p n m y).next
        ≡ (if y == p then new else if y == new then n else (m y).next)
  unfolding list_add_between
  add-next y = ground arith

  pub add-prev :
      (y : ℕ)
      → (list_add_between new p n m y).prev
        ≡ (if y == n then new else if y == new then p else (m y).prev)
  unfolding list_add_between
  add-prev y = ground arith

  pub add-SameOutside : SameOutside (new ∷ p ∷ n ∷ []) m (list_add_between new p n m)
  unfolding list_add_between
  add-SameOutside y h = ground arith

Chain-add_front :
    (m : Links) (a new : ℕ) (ys : List ℕ) (b : ℕ)
    → Chain m a ys b
    → IsSimple a ys b
    → has new (a ∷ b ∷ ys) ≡ false
    → Chain (list_add_between new a (first ys b) m) a (new ∷ ys) b
Chain-add_front m a new [] b c s h =
    let hp : (new == a) ≡ false = ground arith in
    let hn : (new == b) ≡ false = ground arith in
    (
      ground (arith, add-next new a b m hp hn a),
      ground (arith, add-prev new a b m hp hn new),
      (ground (arith, add-next new a b m hp hn new), ground (arith, add-prev new a b m hp hn b)),
    )
Chain-add_front m a new (y ∷ ys) b c s h =
    let hp : (new == a) ≡ false = ground arith in
    let hn : (new == y) ≡ false = ground arith in
    (
      ground (arith, add-next new a y m hp hn a),
      ground (arith, add-prev new a y m hp hn new),
      (
        ground (arith, add-next new a y m hp hn new),
        ground (arith, add-prev new a y m hp hn y),
        Chain-frame m (list_add_between new a y m) y ys b
            (λ z i. ground (arith, add-next new a y m hp hn z))
            (λ z i. ground (arith, add-prev new a y m hp hn z)) c.2,
      ),
    )

pub has-last : (x : ℕ) (xs ys : List ℕ) → has (last x xs) (x ∷ xs ++ ys) ≡ true
has-last x [] ys = ground arith
has-last x (z ∷ xs) ys = ground (arith, has-last z xs ys)

pub ne-first : (x : ℕ) (ys : List ℕ) (b : ℕ) → has x (b ∷ ys) ≡ false → (x == first ys b) ≡ false
ne-first x [] b h = ground arith
ne-first x (y ∷ ys) b h = ground arith

-- The two links across a cut.
pub Chain-cut_prev :
    (m : Links) (a : ℕ) (xs ys : List ℕ) (b : ℕ)
    → Chain m a (xs ++ ys) b
    → (m (first ys b)).prev ≡ last a xs
Chain-cut_prev m a [] [] b c = c.1
Chain-cut_prev m a [] (y ∷ ys) b c = c.1
Chain-cut_prev m a (x ∷ xs) ys b c = Chain-cut_prev m x xs ys b c.2

pub Chain-cut_next :
    (m : Links) (a : ℕ) (xs ys : List ℕ) (b : ℕ)
    → Chain m a (xs ++ ys) b
    → (m (last a xs)).next ≡ first ys b
Chain-cut_next m a [] [] b c = c.0
Chain-cut_next m a [] (y ∷ ys) b c = c.0
Chain-cut_next m a (x ∷ xs) ys b c = Chain-cut_next m x xs ys b c.2

pub Chain-add :
    (m : Links) (a new : ℕ) (xs ys : List ℕ) (b : ℕ)
    → Chain m a (xs ++ ys) b
    → IsSimple a (xs ++ ys) b
    → has new (a ∷ b ∷ xs ++ ys) ≡ false
    → Chain (list_add_between new (last a xs) (first ys b) m) a (xs ++ new ∷ ys) b
Chain-add m a new [] ys b c s h = Chain-add_front m a new ys b c s h
Chain-add m a new (x ∷ xs) ys b c s h =
    let p = last x xs in
    let n = first ys b in
    let hp : (new == p) ≡ false = ground (arith, has-last x xs ys) in
    let hn : (new == n) ≡ false = ne-first new ys b (ground (arith, has-append new xs ys)) in
    let ap : (a == p) ≡ false = ground (arith, has-last x xs ys) in
    let xn : (x == n) ≡ false = ne-first x ys b (ground (arith, has-append x xs ys)) in
    (
      ground (arith, add-next new p n m hp hn a),
      ground (arith, add-prev new p n m hp hn x),
      Chain-add m x new xs ys b c.2 (ground arith) (ground arith),
    )

module _ (e : ℕ) (m : Links) where
  -- `list_del` joins the neighbours and leaves the entry alone on a ring of its own.
  pub del-next :
      (y : ℕ)
      → (list_del e m y).next
        ≡ (if y == e then e else if y == (m e).prev then (m e).next else (m y).next)
  unfolding list_del
  del-next y = ground arith

  pub del-prev :
      (y : ℕ)
      → (list_del e m y).prev
        ≡ (if y == e then e else if y == (m e).next then (m e).prev else (m y).prev)
  unfolding list_del
  del-prev y = ground arith

  pub del-SameOutside : SameOutside (e ∷ (m e).prev ∷ (m e).next ∷ []) m (list_del e m)
  unfolding list_del
  del-SameOutside y h = ground arith

pub Chain-del :
    (m : Links) (a e : ℕ) (xs ys : List ℕ) (b : ℕ)
    → Chain m a (xs ++ e ∷ ys) b
    → IsSimple a (xs ++ e ∷ ys) b
    → (m e).prev ≡ last a xs
    → (m e).next ≡ first ys b
    → Chain (list_del e m) a (xs ++ ys) b
Chain-del m a e [] [] b c s hp hn = (ground (arith, del-next e m a), ground (arith, del-prev e m b))
Chain-del m a e [] (y ∷ ys) b c s hp hn = (
  ground (arith, del-next e m a),
  ground (arith, del-prev e m y),
  Chain-frame m (list_del e m) y ys b (λ z i. ground (arith, del-next e m z))
      (λ z i. ground (arith, del-prev e m z)) c.2.2,
)
Chain-del m a e (x ∷ xs) ys b c s hp hn =
    let ends = has-append x xs (e ∷ ys) in
    let xn : (x == first ys b) ≡ false = ne-first x ys b (ground (arith, ends)) in
    let ap : (a == last x xs) ≡ false = ground (arith, has-last x xs (e ∷ ys)) in
    (
      ground (arith, del-next e m a, has-append a xs (e ∷ ys)),
      ground (arith, del-prev e m x, ends),
      Chain-del m x e xs ys b c.2 (ground arith) hp hn,
    )

pub Chain-node_next :
    (m : Links) (a e : ℕ) (xs ys : List ℕ) (b : ℕ)
    → Chain m a (xs ++ e ∷ ys) b
    → (m e).next ≡ first ys b
Chain-node_next m a e [] ys b c = Chain-cut_next m e [] ys b c.2
Chain-node_next m a e (x ∷ xs) ys b c = Chain-node_next m x e xs ys b c.2
