-- ===== src/Nucleus/Places/Heads.antt =====
-- The heads of the active queues are distinct blocks, so there are at most as many queues as blocks.
use pand_aossh.Prelude.{
  ℕ, zero, suc, ◌≤◌, ◌≡◌, refl, sym, ap, ◌∙◌, true, List, [], ◌∷◌, arith, ◌==◌, ltb, if◌then◌else◌,
  has, erase, length, inl, inr, Bool-cases, ==→eq, IsDistinct, All, length-erase-has,
}
use pand_aossh.Prelude.Counts.{occurs, occurs-erase, occurs_absent}
use pand_aossh.Types.{Semd}
use pand_aossh.Phase1.Asl.Queues.{procq_of, procq_of_absent, keys, HasWaiters}

-- A list that has each number below n at most once, and no other, is no longer than n.
pub length_pigeon :
    (n : ℕ) (l : List ℕ) → ((a : ℕ) → occurs a l ≤ (if ltb a n then 1 else 0)) → length l ≤ n
length_pigeon zero [] h = omega arith
length_pigeon zero (x ∷ l) h = let e = h x in ground (arith, e)
length_pigeon (suc n) l h = elim (Bool-cases (has n l)) [
  | inl here ↦
      let rest =
        length_pigeon n (erase n l)
          (λ a. let e = h a in let o = occurs-erase a n l here in ground (arith, e, o)) in
      omega (arith, rest, length-erase-has n l here)
  | inr away ↦
      let rest =
        length_pigeon n l
          (λ a. let e = h a in let z = occurs_absent n l away in ground (arith, e, z)) in
      omega (arith, rest)
]

-- The heads of the queues.
unfoldable pub heads : List Semd → List ℕ
heads [] = []
heads (d ∷ l) = elim (d.s_procq) [ [] ↦ heads l | p ∷ _ ↦ p ∷ heads l ]

pub length-heads : (l : List Semd) → All HasWaiters l → length (heads l) ≡ length l
unfolding heads
length-heads [] h = refl
length-heads (d ∷ l) h = ground (arith, length-heads l h.1, h.0)

-- A block that names the semaphore on which it waits is the head of one queue at most.
pub occurs-heads :
    (a sem : ℕ) (l : List Semd)
    → IsDistinct (keys l)
    → ((j : ℕ) → 1 ≤ occurs a (procq_of j l) → sem ≡ j)
    → occurs a (heads l) ≤ occurs a (procq_of sem l)
unfolding heads procq_of
occurs-heads a sem [] u named = omega arith
occurs-heads a sem (d ∷ l) u named =
    let gone : (j : ℕ) → (d.s_key == j) ≡ true → occurs a (procq_of j l) ≡ 0 = λ j e.
      ap (λ i. occurs a (procq_of i l)) (sym (==→eq d.s_key j e))
      ∙ ap (occurs a) (procq_of_absent d.s_key l u.0) in
    let rest =
      occurs-heads a sem l u.1
        (λ j h. let n = named j in let z = gone j in ground (arith, n, z, h)) in
    let own = named d.s_key in let z = gone sem in ground (arith, rest, own, z)
