-- ===== src/Support/Sys/Rounds.antt =====
-- The rounds of the loop of SYS4.
use pand_aossh.Prelude.{
  ℕ, zero, suc, ◌+◌, ◌%◌, ◌<◌, ◌≡◌, ◌≢◌, refl, sym, ap, ◌∙◌, subst, true, false, Option, none, some,
  List, [], ◌∷◌, ◌++◌, arith, ◌==◌, append_assoc, eq→==,
}
use pand_aossh.Prelude.Words.{minus}
use pand_aossh.Support.Vm.{dev_mutex, Call, verhogen, transmit, terminated}
use pand_aossh.Support.Init.{Sys, call}
use pand_aossh.Support.Sys.{
  termw_mutex, is_mapped, is_resident, touch, write_char, terminal, char_command, write_loop,
}
use pand_aossh.Support.Sys.Terminal.{status, Does, fault_calls, fault-trace, touch_resident}

-- The commands for the n characters from place i on.
abbrev pub commands : (memory : ℕ → ℕ) (addr i n : ℕ) → List Call
commands memory addr i zero = []
commands memory addr i (suc n) =
    transmit (char_command (memory (addr + i))) ∷ commands memory addr (i + 1) n

abbrev pub release : List Call
release = verhogen (dev_mutex termw_mutex) ∷ []

abbrev sent : ℕ → Sys → Sys
sent a s = (terminal (transmit (char_command (s.memory a))) s).1

-- What the rounds behind a good one do, the whole does with one command more in front.
sent-Does :
    (a : ℕ) (s : Sys) (o : Option ℕ) (calls : List Call) (r : Option ℕ × Sys)
    → Does o calls (sent a s) r
    → Does o (transmit (char_command (s.memory a)) ∷ calls) s r
sent-Does a s o calls (r, t) (h, g, m) =
    (h, g ∙ append_assoc s.vm.trace (transmit (char_command (s.memory a)) ∷ []) calls, m)

-- The pages of the n characters from place i on are in frames, and the statuses are good.
abbrev pub Sends : (asid addr n i : ℕ) → Sys → Type 0
Sends asid addr n i s =
    (k : ℕ) → k < n → (is_resident asid (addr + (i + k)) s.vm ≡ true) × (status s k ≡ 5)

module _ (asid addr : ℕ) where
  good_round :
      (n i : ℕ) (s : Sys)
      → is_resident asid (addr + i) s.vm ≡ true
      → s.vm.answer s.vm.answered % 256 ≡ 5
      → write_loop (suc n) i asid addr s ≡ write_loop n (i + 1) asid addr (sent (addr + i) s)
  unfolding write_loop
  good_round n i s m g = rw (touch_resident asid 13 (addr + i) s m, eq→== _ 5 g)

  bad_round :
      (n i : ℕ) (s : Sys)
      → is_resident asid (addr + i) s.vm ≡ true
      → s.vm.answer s.vm.answered % 256 ≢ 5
      → write_loop (suc n) i asid addr s ≡ (
        some (minus (s.vm.answer s.vm.answered % 256)),
        call (verhogen (dev_mutex termw_mutex)) (sent (addr + i) s),
      )
  unfolding write_loop
  bad_round n i s m g =
      let no : (s.vm.answer s.vm.answered % 256 == 5) ≡ false = ground arith in
      rw (touch_resident asid 13 (addr + i) s m, no)

  away_round :
      (n i : ℕ) (s : Sys)
      → (touch asid 13 (addr + i) s).0 ≡ terminated
      → write_loop (suc n) i asid addr s ≡ (none, (touch asid 13 (addr + i) s).1)
  unfolding write_loop
  away_round n i s m =
      ap
        (λ x.
          write_char (write_loop n (i + 1) asid addr) (addr + i)
            (x, (touch asid 13 (addr + i) s).1))
        m

  first_round :
      (n i : ℕ) (s : Sys)
      → Sends asid addr (suc n) i s
      → (is_resident asid (addr + i) s.vm ≡ true) × (s.vm.answer s.vm.answered % 256 ≡ 5)
  first_round n i s h =
      let e : i + 0 ≡ i = omega arith in
      let f : s.vm.answered + 0 ≡ s.vm.answered = omega arith in
      let g = h 0 (omega arith) in
      (
        subst (λ k. is_resident asid (addr + k) s.vm ≡ true) e g.0,
        subst (λ k. s.vm.answer k % 256 ≡ 5) f g.1,
      )

  other_rounds :
      (n i : ℕ) (s : Sys)
      → Sends asid addr (suc n) i s
      → Sends asid addr n (i + 1) (sent (addr + i) s)
  other_rounds n i s h k b =
      let e : i + suc k ≡ i + 1 + k = omega arith in
      let f : s.vm.answered + suc k ≡ suc s.vm.answered + k = omega arith in
      let g = h (suc k) (omega arith) in
      (
        subst (λ k. is_resident asid (addr + k) s.vm ≡ true) e g.0,
        subst (λ k. s.vm.answer k % 256 ≡ 5) f g.1,
      )

  -- What the loop does from place j on.
  abbrev Continues : (left n j : ℕ) → Sys → Option ℕ → List Call → Type 0
  Continues left n j s o calls =
      (t : Sys)
      → t.memory ≡ s.memory
      → t.vm.answer ≡ s.vm.answer
      → t.vm.answered ≡ s.vm.answered + n
      → t.vm.page_tables ≡ s.vm.page_tables
      → Does o calls t (write_loop left j asid addr t)

  -- The n rounds before the others.
  pub write_loop-Does :
      (n left total i j : ℕ) (s : Sys) (o : Option ℕ) (calls : List Call)
      → n + left ≡ total
      → i + n ≡ j
      → Sends asid addr n i s
      → Continues left n j s o calls
      → Does o (commands s.memory addr i n ++ calls) s (write_loop total i asid addr s)
  write_loop-Does zero left total i j s o calls e f h rest =
      let e' : left ≡ total = omega arith in
      let f' : j ≡ i = omega arith in
      subst (λ n. Does o calls s (write_loop n i asid addr s)) e'
        (subst (λ k. Does o calls s (write_loop left k asid addr s)) f'
          (rest s refl refl (omega arith) refl))
  write_loop-Does (suc n) left total i j s o calls e f h rest =
      let e' : suc (n + left) ≡ total = omega arith in
      let here = first_round n i s h in
      let all = commands s.memory addr i (suc n) ++ calls in
      subst (λ m. Does o all s (write_loop m i asid addr s)) e'
        (subst (Does o all s) (sym (good_round (n + left) i s here.0 here.1)) (
          sent-Does (addr + i) s o (commands s.memory addr (i + 1) n ++ calls)
            (write_loop (n + left) (i + 1) asid addr (sent (addr + i) s))
            (write_loop-Does n left (n + left) (i + 1) j (sent (addr + i) s) o calls refl
              (omega arith) (other_rounds n i s h) (λ t m a d p. rest t m a (omega arith) p))))

  pub stop_bad :
      (left n : ℕ) (s t : Sys)
      → is_resident asid (addr + n) t.vm ≡ true
      → status s n ≢ 5
      → t.memory ≡ s.memory
      → t.vm.answer ≡ s.vm.answer
      → t.vm.answered ≡ s.vm.answered + n
      → Does
          (some (minus (status s n)))
          (transmit (char_command (s.memory (addr + n))) ∷ release)
          t
          (write_loop (suc left) n asid addr t)
  stop_bad left n s t m b f a d =
      let e : t.vm.answer t.vm.answered ≡ s.vm.answer (s.vm.answered + n) = rw (a, d) in
      subst (Does _ _ t) (sym (bad_round left n t m (λ g. b (ap (λ x. x % 256) (sym e) ∙ g)))) (
        ap (λ x. some (minus (x % 256))) e,
        append_assoc t.vm.trace (transmit (char_command (t.memory (addr + n))) ∷ []) release
            ∙ ap (λ (g : ℕ → ℕ). t.vm.trace ++ transmit (char_command (g (addr + n))) ∷ release) f,
        refl,
      )

  pub stop_away :
      (left n : ℕ) (s t : Sys)
      → is_mapped (addr + n) ≡ false
      → t.memory ≡ s.memory
      → Does none (fault_calls asid) t (write_loop (suc left) n asid addr t)
  stop_away left n s t m f =
      let gone = fault-trace asid 13 (addr + n) t refl m in
      subst (Does none (fault_calls asid) t) (sym (away_round left n t gone.0))
        (refl, gone.1, gone.2)

  pub stop_all : (i : ℕ) (t : Sys) → Does (some i) release t (write_loop zero i asid addr t)
  unfolding write_loop
  stop_all i t = (refl, refl, refl)
