-- ===== src/Testers/Shell/Names.antt =====
-- The names of the shell's table, compared by `u_strcmp`, and the answer to a line.
use pand_aossh.Prelude.{
  ℕ, ◌<◌, ◌≡◌, refl, Bool, true, false, ◌&&◌, Option, none, some, List, [], ◌∷◌, arith, ◌==◌,
  if◌then◌else◌, All,
}
use pand_aossh.Prelude.Words.{minus, is_neg}
use pand_aossh.Testers.Libuser.{codes, Request, u_print, u_execute, u_terminate}
use pand_aossh.Testers.Shell.{u_strcmp, name_to_asid, Turn, again, left}

abbrev pub same : List ℕ → List ℕ → Bool
same [] [] = true
same [] (_ ∷ _) = false
same (_ ∷ _) [] = false
same (x ∷ a) (y ∷ b) = (x == y) && same a b

-- A character of a string.
abbrev pub IsChar : ℕ → Type 0
IsChar c = (0 < c) × (c < 256)

-- `u_strcmp` is 0 exactly for equal strings.
pub u_strcmp-same : (a b : List ℕ) → All IsChar a → All IsChar b → (u_strcmp a b == 0) ≡ same a b
unfolding u_strcmp
u_strcmp-same [] [] h k = ground arith
u_strcmp-same [] (y ∷ b) h k = ground (arith, k.0)
u_strcmp-same (x ∷ a) [] h k = ground (arith, h.0)
u_strcmp-same (x ∷ a) (y ∷ b) h k = ground (arith, h.0, k.0, u_strcmp-same a b h.1 k.1)

-- The programs and their ASIDs.
abbrev pub programs : List (List ℕ × ℕ)
programs =
    (codes "echo", 2)
    ∷ (codes "fibEleven", 3)
    ∷ (codes "uname", 4)
    ∷ (codes "sl", 5)
    ∷ (codes "calc", 6)
    ∷ []

abbrev pub lookup : List ℕ → List (List ℕ × ℕ) → Option ℕ
lookup name [] = none
lookup name ((n, asid) ∷ rest) = if same name n then some asid else lookup name rest

abbrev pub or_minus_1 : Option ℕ → ℕ
or_minus_1 none = minus 1
or_minus_1 (some a) = a

first_of :
    (a b c d e : Bool)
    → (if a then 2 else if b then 3 else if c then 4 else if d then 5 else if e then 6 else minus 1)
      ≡ or_minus_1 (
          if a
          then some 2
          else if b
          then some 3
          else if c
          then some 4
          else if d
          then some 5
          else if e
          then some 6
          else none)
first_of a b c d e = ground arith

pub name_to_asid-lookup :
    (name : List ℕ) → All IsChar name → name_to_asid name ≡ or_minus_1 (lookup name programs)
unfolding name_to_asid
name_to_asid-lookup name h =
    let at = λ (n : List ℕ) (k : All IsChar n). u_strcmp-same name n h k in
    simp
      (
        at (codes "echo") (ground arith),
        at (codes "fibEleven") (ground arith),
        at (codes "uname") (ground arith),
        at (codes "sl") (ground arith),
        at (codes "calc") (ground arith),
      )
      (first_of (same name (codes "echo")) (same name (codes "fibEleven"))
        (same name (codes "uname")) (same name (codes "sl")) (same name (codes "calc")))

abbrev pub answer : (leaves : Bool) → Option ℕ → List Request × Bool
answer true o = (u_print (codes "shell: arrivederci\n") ∷ u_terminate ∷ [], false)
answer false none = (u_print (codes "shell: programma sconosciuto\n") ∷ [], true)
answer false (some asid) = (u_execute asid ∷ [], true)

-- What the shell says to a line, and whether it goes on.
abbrev pub say : List ℕ → List Request × Bool
say [] = ([], true)
say (c ∷ s) = answer (same (c ∷ s) (codes "exit")) (lookup (c ∷ s) programs)

abbrev pub turn_of : Bool → Turn
turn_of true = again
turn_of false = left

-- The ASIDs of the table are not negative.
pub lookup_small : (name : List ℕ) (a : ℕ) → lookup name programs ≡ some a → is_neg a ≡ false
lookup_small name a h = ground arith

pub answer_lem :
    (leaves : Bool) (o : Option ℕ)
    → ((a : ℕ) → o ≡ some a → is_neg a ≡ false)
    → Path
        (List Request × Turn)
        (if leaves
          then (u_print (codes "shell: arrivederci\n") ∷ u_terminate ∷ [], left)
          else if is_neg (or_minus_1 o)
          then (u_print (codes "shell: programma sconosciuto\n") ∷ [], again)
          else (u_execute (or_minus_1 o) ∷ [], again))
        ((answer leaves o).0, turn_of (answer leaves o).1)
answer_lem true o small = refl
answer_lem false none small = refl
answer_lem false (some a) small = rw (small a refl)
