-- ===== src/Testers/Libuser/Decimal.antt =====
-- `u_itoa` is right: the text is read back as the number, and fits the buffers of its callers.
use pand_aossh.Prelude.{
  ℕ, zero, suc, ◌+◌, ◌-◌, ◌*◌, ◌/◌, ◌%◌, ◌^◌, ◌≤◌, ◌<◌, ◌≡◌, List, [], ◌∷◌, arith, ◌==◌,
  if◌then◌else◌, length, if-split, All, ◌≢◌, ◌∙◌,
}
use pand_aossh.Prelude.Words.{is_neg, minus, slt}
use pand_aossh.Testers.Libuser.{tmp_loop, u_itoa}

-- The number that decimal digits stand for, behind the number n.
unfoldable pub read_digits : List ℕ → (n : ℕ) → ℕ
read_digits [] n = n
read_digits (c ∷ s) n = read_digits s (10 * n + (c - b'0'))

-- The word that a decimal text with an optional sign stands for.
unfoldable pub read_int : List ℕ → ℕ
unfolding read_digits
read_int [] = 0
read_int (c ∷ s) = if c == b'-' then minus (read_digits s 0) else read_digits (c ∷ s) 0

tenth_below : (v bound : ℕ) → v < 10 * bound → v / 10 < bound
tenth_below v bound h = grind arith

power_suc : (n : ℕ) → 10 ^ suc n ≡ 10 * 10 ^ n
power_suc n = grind arith

tmp_loop-read_digits :
    (fuel v : ℕ) (tmp : List ℕ)
    → v < 2 ^ 31
    → v < 10 ^ fuel
    → read_digits (tmp_loop fuel v tmp) 0 ≡ read_digits tmp v
unfolding tmp_loop read_digits
tmp_loop-read_digits zero v tmp h f = let none_left : v ≡ 0 = omega arith in rw none_left
tmp_loop-read_digits (suc fuel) v tmp h f =
    let rest =
      tmp_loop-read_digits fuel (v / 10) ((b'0' + v % 10) ∷ tmp) (omega arith)
        (tenth_below v (10 ^ fuel) (rw (← power_suc fuel) f)) in
    ground (arith, rest)

IsDigit : ℕ → Type 0
IsDigit c = (b'0' ≤ c) × (c ≤ b'9')

tmp_loop-IsDigit : (fuel v : ℕ) (tmp : List ℕ) → All IsDigit tmp → All IsDigit (tmp_loop fuel v tmp)
unfolding tmp_loop IsDigit
tmp_loop-IsDigit zero v tmp h = h
tmp_loop-IsDigit (suc fuel) v tmp h =
    if-split (All IsDigit) (slt 0 v) (tmp_loop fuel (v / 10) ((b'0' + v % 10) ∷ tmp)) tmp
      (λ _. tmp_loop-IsDigit fuel (v / 10) ((b'0' + v % 10) ∷ tmp) ((omega arith, omega arith), h))
      (λ _. h)

length-tmp_loop : (fuel v : ℕ) (tmp : List ℕ) → length (tmp_loop fuel v tmp) ≤ fuel + length tmp
unfolding tmp_loop
length-tmp_loop zero v tmp = omega arith
length-tmp_loop (suc fuel) v tmp =
    ground (arith, length-tmp_loop fuel (v / 10) ((b'0' + v % 10) ∷ tmp))

read_int-digits : (s : List ℕ) → All IsDigit s → read_int s ≡ read_digits s 0
unfolding read_int IsDigit
read_int-digits [] h = ground arith
read_int-digits (c ∷ s) h = ground (arith, h.0)

digits_lem :
    (v : ℕ)
    → v < 2 ^ 31
    → (read_digits (tmp_loop 10 v []) 0 ≡ v)
      × (read_int (tmp_loop 10 v []) ≡ v)
      × (length (tmp_loop 10 v []) < 11)
unfolding read_digits
digits_lem v h =
    let digits = tmp_loop-read_digits 10 v [] h (omega arith) in
    (
      digits,
      read_int-digits (tmp_loop 10 v []) (tmp_loop-IsDigit 10 v [] tt) ∙ digits,
      omega (arith, length-tmp_loop 10 v []),
    )

-- Every `int` but the least is read back from the text that `u_itoa` writes, and the text and its
-- NUL fit the 16 characters of the buffers.
pub u_itoa-read_int :
    (v : ℕ) → v < 2 ^ 32 → v ≢ 2 ^ 31 → (read_int (u_itoa v) ≡ v) × (length (u_itoa v) < 12)
unfolding u_itoa read_int
u_itoa-read_int v w h =
    let P = λ (s : List ℕ). (read_int s ≡ v) × (length s < 12) in
    if-split P (v == 0) (b'0' ∷ []) _ (λ z. ground arith)
      (λ z.
        if-split P (is_neg v) (b'-' ∷ tmp_loop 10 (minus v) []) (tmp_loop 10 v [])
          (λ n. ground (arith, digits_lem (minus v), h)) (λ n. ground (arith, digits_lem v)))
