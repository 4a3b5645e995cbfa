-- ===== src/Phase1/Asl/Queues.antt =====
-- The active semaphore list as a map from keys to queues, and the map after each primitive.
use pand_aossh.Prelude.{
  ℕ, suc, ◌≡◌, refl, true, false, none, some, List, [], ◌∷◌, ◌++◌, arith, ◌==◌, if◌then◌else◌, has,
  length, IsDistinct, All,
}
use pand_aossh.Types.{Semd}
use pand_aossh.Phase1.Asl.{find, set_procq, unlink}

unfoldable pub procq_of : ℕ → List Semd → List ℕ
procq_of sem [] = []
procq_of sem (s ∷ rest) = if s.s_key == sem then s.s_procq else procq_of sem rest

abbrev pub keys : List Semd → List ℕ
keys [] = []
keys (s ∷ rest) = s.s_key ∷ keys rest

abbrev pub HasWaiters : Semd → Type 0
HasWaiters s = (s.s_procq ≡ []) → ⊥

pub find-none :
    (sem : ℕ) (l : List Semd)
    → find sem l ≡ none
    → (procq_of sem l ≡ []) × (has sem (keys l) ≡ false)
unfolding find procq_of
find-none sem [] e = (refl, refl)
find-none sem (s ∷ rest) e = ground (arith, find-none sem rest)

pub find-some :
    (sem : ℕ) (l : List Semd) (d : Semd)
    → find sem l ≡ some d
    → (procq_of sem l ≡ d.s_procq) × (d.s_key ≡ sem) × (has sem (keys l) ≡ true)
unfolding find procq_of
find-some sem [] d e = ground arith
find-some sem (s ∷ rest) d e = ground (arith, find-some sem rest d)

pub procq_of_absent : (sem : ℕ) (l : List Semd) → has sem (keys l) ≡ false → procq_of sem l ≡ []
unfolding procq_of
procq_of_absent sem [] h = refl
procq_of_absent sem (s ∷ rest) h = ground (arith, procq_of_absent sem rest)

pub procq_of-set_procq :
    (j sem : ℕ) (q : List ℕ) (l : List Semd)
    → has sem (keys l) ≡ true
    → procq_of j (set_procq sem q l) ≡ (if j == sem then q else procq_of j l)
unfolding set_procq procq_of
procq_of-set_procq j sem q [] h = ground arith
procq_of-set_procq j sem q (s ∷ rest) h = ground (arith, procq_of-set_procq j sem q rest)

pub procq_of-snoc :
    (j : ℕ) (d : Semd) (l : List Semd)
    → has d.s_key (keys l) ≡ false
    → procq_of j (l ++ d ∷ []) ≡ (if j == d.s_key then d.s_procq else procq_of j l)
unfolding procq_of
procq_of-snoc j d [] h = ground arith
procq_of-snoc j d (s ∷ rest) h = ground (arith, procq_of-snoc j d rest)

pub procq_of-unlink :
    (j sem : ℕ) (l : List Semd)
    → IsDistinct (keys l)
    → has sem (keys l) ≡ true
    → procq_of j (unlink sem l) ≡ (if j == sem then [] else procq_of j l)
unfolding unlink procq_of
procq_of-unlink j sem [] u h = ground arith
procq_of-unlink j sem (s ∷ rest) u h =
    ground (arith, procq_of-unlink j sem rest u.1, procq_of_absent sem rest)

pub keys-set_procq : (sem : ℕ) (q : List ℕ) (l : List Semd) → keys (set_procq sem q l) ≡ keys l
unfolding set_procq
keys-set_procq sem q [] = refl
keys-set_procq sem q (s ∷ rest) = ground (arith, keys-set_procq sem q rest)

pub keys-snoc : (d : Semd) (l : List Semd) → keys (l ++ d ∷ []) ≡ keys l ++ d.s_key ∷ []
keys-snoc d [] = refl
keys-snoc d (s ∷ rest) = ground (arith, keys-snoc d rest)

pub has-keys-unlink :
    (j sem : ℕ) (l : List Semd) → has j (keys l) ≡ false → has j (keys (unlink sem l)) ≡ false
unfolding unlink
has-keys-unlink j sem [] h = refl
has-keys-unlink j sem (s ∷ rest) h = ground (arith, has-keys-unlink j sem rest)

pub keys-unlink-IsDistinct :
    (sem : ℕ) (l : List Semd) → IsDistinct (keys l) → IsDistinct (keys (unlink sem l))
unfolding unlink
keys-unlink-IsDistinct sem [] u = tt
keys-unlink-IsDistinct sem (s ∷ rest) u =
    ground (arith, keys-unlink-IsDistinct sem rest u.1, has-keys-unlink s.s_key sem rest)

pub length-unlink :
    (sem : ℕ) (l : List Semd) → has sem (keys l) ≡ true → suc (length (unlink sem l)) ≡ length l
unfolding unlink
length-unlink sem [] h = ground arith
length-unlink sem (s ∷ rest) h = ground (arith, length-unlink sem rest)

pub length-set_procq :
    (sem : ℕ) (q : List ℕ) (l : List Semd) → length (set_procq sem q l) ≡ length l
unfolding set_procq
length-set_procq sem q [] = refl
length-set_procq sem q (s ∷ rest) = ground (arith, length-set_procq sem q rest)

pub set_procq-HasWaiters :
    (sem : ℕ) (q : List ℕ) (l : List Semd)
    → ((q ≡ []) → ⊥)
    → All HasWaiters l
    → All HasWaiters (set_procq sem q l)
unfolding set_procq
set_procq-HasWaiters sem q [] n a = tt
set_procq-HasWaiters sem q (s ∷ rest) n a = ground (arith, set_procq-HasWaiters sem q rest n a.1)

pub snoc_ne : (xs : List ℕ) (x : ℕ) → (xs ++ x ∷ [] ≡ []) → ⊥
snoc_ne [] x e = cc
snoc_ne (y ∷ xs) x e = cc

pub unlink-HasWaiters : (sem : ℕ) (l : List Semd) → All HasWaiters l → All HasWaiters (unlink sem l)
unfolding unlink
unlink-HasWaiters sem [] a = tt
unlink-HasWaiters sem (s ∷ rest) a = ground (arith, unlink-HasWaiters sem rest a.1)
