-- ===== src/Prelude/Counts.antt =====
-- How often a number stands in a list.
use Prim.Native.Nat.{ℕ, zero, suc, ◌+◌, ◌≤◌}
use mathlib.Core.Path.{◌≡◌, refl}
use mathlib.Core.Bool.{true, false, ◌&&◌}
use mathlib.Core.Option.{Option, none, some}
use mathlib.Core.List.{List, [], ◌∷◌, ◌++◌}
use native.Mathlib.Omega.{arith}
use pand_aossh.Prelude.Tests.{◌==◌, if◌then◌else◌, ltb, leb}
use pand_aossh.Prelude.Lists.{has, erase, range}

abbrev pub one : ℕ → ℕ → ℕ
one p a = if p == a then 1 else 0

abbrev pub occurs : ℕ → List ℕ → ℕ
occurs a [] = 0
occurs a (x ∷ xs) = one x a + occurs a xs

-- As an option is a list of at most one number.
abbrev pub held : Option ℕ → ℕ → ℕ
held none a = 0
held (some p) a = one p a

pub occurs-append : (a : ℕ) (xs ys : List ℕ) → occurs a (xs ++ ys) ≡ occurs a xs + occurs a ys
occurs-append a [] ys = omega arith
occurs-append a (x ∷ xs) ys = omega (arith, occurs-append a xs ys)

pub occurs-erase :
    (a p : ℕ) (xs : List ℕ) → has p xs ≡ true → occurs a (erase p xs) + one p a ≡ occurs a xs
occurs-erase a p [] h = ground arith
occurs-erase a p (x ∷ xs) h = ground (arith, occurs-erase a p xs)

pub occurs_absent : (a : ℕ) (xs : List ℕ) → has a xs ≡ false → occurs a xs ≡ 0
occurs_absent a [] h = refl
occurs_absent a (x ∷ xs) h = ground (arith, occurs_absent a xs)

pub occurs_present : (a : ℕ) (xs : List ℕ) → has a xs ≡ true → 1 ≤ occurs a xs
occurs_present a [] h = ground arith
occurs_present a (x ∷ xs) h = ground (arith, occurs_present a xs)

pub occurs-range :
    (a from n : ℕ) → occurs a (range from n) ≡ (if leb from a && ltb a (from + n) then 1 else 0)
occurs-range a from zero = ground arith
occurs-range a from (suc n) = ground (arith, occurs-range a (suc from) n)
