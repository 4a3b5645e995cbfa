-- ===== src/Support/Sys/Read.antt =====
-- SYS5: when the line ends, where it is stored, and what comes back.
use pand_aossh.Prelude.{
  ℕ, zero, suc, ◌+◌, ◌/◌, ◌%◌, ◌^◌, ◌≤◌, ◌<◌, ◌≡◌, ◌≢◌, sym, ap, ◌∙◌, subst, true, false, Option,
  none, some, List, [], ◌∷◌, ◌++◌, arith, ◌==◌, append_assoc, eq→==, update, replicate,
}
use pand_aossh.Support.Vm.{dev_mutex, Call, passeren, verhogen, receive}
use pand_aossh.Support.Init.{Sys, call}
use pand_aossh.Support.Sys.Terminal.{touch_resident}
use pand_aossh.Support.Sys.{
  termr_mutex, is_resident, terminal, receivechar, read_loop, is_outside, read_terminal,
}

-- The answer of the DOIO after k others: its status, and the character.
abbrev pub code_at : Sys → ℕ → ℕ
code_at s k = s.vm.answer (s.vm.answered + k) % 256

abbrev pub char_at : Sys → ℕ → ℕ
char_at s k = s.vm.answer (s.vm.answered + k) / 2 ^ 8 % 256

abbrev pub got : (a : ℕ) → Sys → Sys
got a s =
    let r = terminal (receive receivechar) s in
    record r.1 { memory = update r.1.memory a (r.0 / 2 ^ 8 % 256) }

-- The line of n characters and a newline is stored from the address a on, nothing else is written,
-- and the calls are those of the list.
pub record Reads (a n : ℕ) (calls : List Call) (s t : Sys) : Type 0 where
  pub stored : (k : ℕ) → k ≤ n → t.memory (a + k) ≡ char_at s k
  pub below : (b : ℕ) → b < a → t.memory b ≡ s.memory b
  pub above : (b : ℕ) → a + n < b → t.memory b ≡ s.memory b
  pub made : t.vm.trace ≡ s.vm.trace ++ calls

-- The n characters before the newline, and the newline, arrive with a good status, and the
-- pages of their places are in frames.
pub record IsLine (asid a n : ℕ) (s : Sys) : Type 0 where
  pub good : (k : ℕ) → k ≤ n → code_at s k ≡ 5
  pub mapped : (k : ℕ) → k ≤ n → is_resident asid (a + k) s.vm ≡ true
  pub inner : (k : ℕ) → k < n → char_at s k ≢ b'\n'
  pub last : char_at s n ≡ b'\n'

-- The loop ended with the number of characters.
abbrev pub Returns : (count a n : ℕ) (calls : List Call) → Sys → Option (Option ℕ × Sys) → Type 0
Returns count a n calls s none = ⊥
Returns count a n calls s (some (r, t)) = (r ≡ some count) × Reads a n calls s t

abbrev pub received : Call
received = receive receivechar

first_char :
    (asid a n : ℕ) (s : Sys)
    → IsLine asid a n s
    → (s.vm.answer s.vm.answered % 256 ≡ 5)
      × (is_resident asid a s.vm ≡ true)
      × (s.vm.answer s.vm.answered / 2 ^ 8 % 256 ≡ char_at s 0)
first_char asid a n s h =
    let e : s.vm.answered + 0 ≡ s.vm.answered = omega arith in
    let f : a + 0 ≡ a = omega arith in
    (
      subst (λ k. s.vm.answer k % 256 ≡ 5) e (h.good 0 (omega arith)),
      subst (λ b. is_resident asid b s.vm ≡ true) f (h.mapped 0 (omega arith)),
      ap (λ k. s.vm.answer k / 2 ^ 8 % 256) (sym e),
    )

later :
    (s : Sys) (a k : ℕ)
    → s.vm.answer (s.vm.answered + suc k) ≡ (got a s).vm.answer ((got a s).vm.answered + k)
later s a k =
    let e : s.vm.answered + suc k ≡ suc s.vm.answered + k = omega arith in ap s.vm.answer e

rest-IsLine : (asid a n : ℕ) (s : Sys) → IsLine asid a (suc n) s → IsLine asid (suc a) n (got a s)
rest-IsLine asid a n s h = record {
  good = λ k b. ap (λ x. x % 256) (sym (later s a k)) ∙ h.good (suc k) (omega arith);
  mapped = λ k b.
      (let e : a + suc k ≡ suc a + k = omega arith in
        subst (λ b. is_resident asid b s.vm ≡ true) e (h.mapped (suc k) (omega arith)));
  inner = λ k b e. h.inner (suc k) (omega arith) (ap (λ x. x / 2 ^ 8 % 256) (later s a k) ∙ e);
  last = ap (λ x. x / 2 ^ 8 % 256) (sym (later s a n)) ∙ h.last;
}

one-Reads : (a : ℕ) (s : Sys) (o : Call) → Reads a 0 (received ∷ o ∷ []) s (call o (got a s))
one-Reads a s o = record {
  stored = λ k b. ground arith;
  below = λ b l. ground arith;
  above = λ b l. ground arith;
  made = append_assoc s.vm.trace (received ∷ []) (o ∷ []);
}

more-Reads :
    (a n : ℕ) (calls : List Call) (s t : Sys)
    → Reads (suc a) n calls (got a s) t
    → Reads a (suc n) (received ∷ calls) s t
more-Reads a n calls s t h = record {
  stored = stored;
  below = λ b l. h.below b (omega arith) ∙ ground arith;
  above = λ b l. h.above b (omega arith) ∙ ground arith;
  made = h.made ∙ append_assoc s.vm.trace (received ∷ []) calls;
}
  where
    stored : (k : ℕ) → k ≤ suc n → t.memory (a + k) ≡ char_at s k
    stored zero b =
        let e : a + 0 ≡ a = omega arith in
        let f : s.vm.answered ≡ s.vm.answered + 0 = omega arith in
        let here : (got a s).memory a ≡ s.vm.answer s.vm.answered / 2 ^ 8 % 256 = ground arith in
        ap t.memory e ∙ h.below a (omega arith) ∙ here ∙ ap (λ k. s.vm.answer k / 2 ^ 8 % 256) f
    stored (suc k) b =
        let e : a + suc k ≡ suc a + k = omega arith in
        ap t.memory e ∙ h.stored k (omega arith) ∙ ap (λ x. x / 2 ^ 8 % 256) (sym (later s a k))

more-Returns :
    (total a n : ℕ) (calls : List Call) (s : Sys) (r : Option (Option ℕ × Sys))
    → Returns total (suc a) n calls (got a s) r
    → Returns total a (suc n) (received ∷ calls) s r
more-Returns total a n calls s none h = h
more-Returns total a n calls s (some (r, t)) h = (h.0, more-Reads a n calls s t h.1)

module _ (asid addr : ℕ) where
  more_round :
      (fuel count : ℕ) (s : Sys)
      → s.vm.answer s.vm.answered % 256 ≡ 5
      → is_resident asid (addr + count) s.vm ≡ true
      → s.vm.answer s.vm.answered / 2 ^ 8 % 256 ≢ b'\n'
      → read_loop (suc fuel) count asid addr s
        ≡ read_loop fuel (count + 1) asid addr (got (addr + count) s)
  unfolding read_loop
  more_round fuel count s g m c =
      let no : (s.vm.answer s.vm.answered / 2 ^ 8 % 256 == b'\n') ≡ false = ground arith in
      rw (eq→== _ 5 g, touch_resident asid 15 (addr + count) _ m, no)

  last_round :
      (fuel count : ℕ) (s : Sys)
      → s.vm.answer s.vm.answered % 256 ≡ 5
      → is_resident asid (addr + count) s.vm ≡ true
      → s.vm.answer s.vm.answered / 2 ^ 8 % 256 ≡ b'\n'
      → read_loop (suc fuel) count asid addr s
        ≡ some (some (count + 1), call (verhogen (dev_mutex termr_mutex)) (got (addr + count) s))
  unfolding read_loop
  last_round fuel count s g m c =
      rw (eq→== _ 5 g, touch_resident asid 15 (addr + count) _ m, eq→== _ b'\n' c)

  -- The loop takes one unit of fuel for each character of the line.
  read_loop_lem :
      (n fuel count a total : ℕ) (s : Sys)
      → n < fuel
      → addr + count ≡ a
      → count + suc n ≡ total
      → IsLine asid a n s
      → Returns total a n
          (replicate (suc n) received ++ verhogen (dev_mutex termr_mutex) ∷ [])
          s
          (read_loop fuel count asid addr s)
  read_loop_lem n zero count a total s f e g h = absurd (omega arith)
  read_loop_lem zero (suc fuel) count a total s f e g h =
      let first = first_char asid a 0 s h in
      let m : is_resident asid (addr + count) s.vm ≡ true =
        subst (λ b. is_resident asid b s.vm ≡ true) (sym e) first.1 in
      let calls = replicate 1 received ++ verhogen (dev_mutex termr_mutex) ∷ [] in
      subst (Returns total a 0 calls s) (sym (last_round fuel count s first.0 m (first.2 ∙ h.last)))
        (
          ap some (let t : count + 1 ≡ total = omega arith in t),
          subst (λ b. Reads a 0 calls s (call (verhogen (dev_mutex termr_mutex)) (got b s))) (sym e)
              (one-Reads a s (verhogen (dev_mutex termr_mutex))),
        )
  read_loop_lem (suc n) (suc fuel) count a total s f e g h =
      let first = first_char asid a (suc n) s h in
      let m : is_resident asid (addr + count) s.vm ≡ true =
        subst (λ b. is_resident asid b s.vm ≡ true) (sym e) first.1 in
      let calls = replicate (suc n) received ++ verhogen (dev_mutex termr_mutex) ∷ [] in
      let rest =
        read_loop_lem n fuel (count + 1) (suc a) total (got a s) (omega arith) (omega arith)
          (omega arith) (rest-IsLine asid a n s h) in
      subst (Returns total a (suc n) (received ∷ calls) s)
        (sym (more_round fuel count s first.0 m (λ c. h.inner 0 (omega arith) (sym first.2 ∙ c))))
        (subst
          (λ b.
            Returns total a (suc n) (received ∷ calls) s
              (read_loop fuel (count + 1) asid addr (got b s)))
          (sym e)
          (more-Returns total a n calls s (read_loop fuel (count + 1) asid addr (got a s)) rest))

opened-Returns :
    (total a n : ℕ) (calls : List Call) (s : Sys) (r : Option (Option ℕ × Sys))
    → Returns total a n calls (call (passeren (dev_mutex termr_mutex)) s) r
    → Returns total a n (passeren (dev_mutex termr_mutex) ∷ calls) s r
opened-Returns total a n calls s none h = h
opened-Returns total a n calls s (some (r, t)) (e, h) = (
  e,
  record {
    stored = h.stored;
    below = h.below;
    above = h.above;
    made = h.made ∙ append_assoc s.vm.trace (passeren (dev_mutex termr_mutex) ∷ []) calls;
  },
)

-- SYS5 ends when the terminal gives a newline: it returns the number of characters, the newline
-- included, they are stored in order from the address on and nothing else is written, and the
-- terminal's mutex is taken before and released after.
pub read_terminal_lem :
    (asid addr n fuel : ℕ) (s : Sys)
    → is_outside addr ≡ false
    → n < fuel
    → IsLine asid addr n s
    → Returns
        (suc n)
        addr
        n
        (passeren (dev_mutex termr_mutex) ∷ replicate (suc n) received
          ++ verhogen (dev_mutex termr_mutex) ∷ [])
        s
        (read_terminal fuel asid addr s)
unfolding read_terminal
read_terminal_lem asid addr n fuel s g f h =
    let s1 = call (passeren (dev_mutex termr_mutex)) s in
    let line : IsLine asid addr n s1 = record {
      good = h.good;
      mapped = h.mapped;
      inner = h.inner;
      last = h.last;
    } in
    rw g (
      opened-Returns (suc n) addr n _ s (read_loop fuel 0 asid addr s1)
        (read_loop_lem asid addr n fuel 0 addr (suc n) s1 f (omega arith) (omega arith) line))
