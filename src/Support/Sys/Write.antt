-- ===== src/Support/Sys/Write.antt =====
-- SYS4: what goes to the terminal, what comes back, and what happens to the terminal's mutex.
use pand_aossh.Prelude.{
  ℕ, suc, ◌+◌, ◌-◌, ◌≤◌, ◌<◌, ◌≡◌, ◌≢◌, refl, sym, ◌∙◌, subst, Bool, true, false, Option, none,
  some, List, [], ◌∷◌, ◌++◌, arith, ltb, append_assoc,
}
use pand_aossh.Prelude.Words.{minus, is_neg}
use pand_aossh.Types.{PteEntry}
use pand_aossh.Support.Vm.{vpn_to_index, is_valid, dev_mutex, Call, passeren, transmit}
use pand_aossh.Support.Init.{Sys, call}
use pand_aossh.Support.Sys.{
  termw_mutex, is_resident, char_command, write_loop, is_outside, write_terminal, maxstrlen,
}
use pand_aossh.Support.Sys.Terminal.{status, Does}
use pand_aossh.Support.Sys.Rounds.{commands, release, Sends, write_loop-Does, stop_bad, stop_all}

-- `is_resident` of the page tables alone.
abbrev is_at : (asid addr : ℕ) → (ℕ → ℕ → PteEntry) → Bool
is_at asid addr tables = elim (vpn_to_index addr) [
  | none ↦ false
  | some p ↦ is_valid (tables asid p)
]

module _ (asid addr : ℕ) where
  open_terminal :
      (len : ℕ) (s : Sys)
      → is_outside addr ≡ false
      → len ≤ maxstrlen
      → write_terminal asid addr len s
        ≡ write_loop len 0 asid addr (call (passeren (dev_mutex termw_mutex)) s)
  unfolding write_terminal
  open_terminal len s g l =
      let a : is_neg len ≡ false = ground arith in
      let b : ltb maxstrlen len ≡ false = ground arith in rw (g, a, b) refl

  open-Does :
      (len : ℕ) (s : Sys) (o : Option ℕ) (calls : List Call)
      → is_outside addr ≡ false
      → len ≤ maxstrlen
      → Does o calls
          (call (passeren (dev_mutex termw_mutex)) s)
          (write_loop len 0 asid addr (call (passeren (dev_mutex termw_mutex)) s))
      → Does o (passeren (dev_mutex termw_mutex) ∷ calls) s (write_terminal asid addr len s)
  open-Does len s o calls g l h =
      subst (Does o (passeren (dev_mutex termw_mutex) ∷ calls) s) (sym (open_terminal len s g l))
        (h.0, h.1 ∙ append_assoc s.vm.trace (passeren (dev_mutex termw_mutex) ∷ []) calls, h.2)

  -- SYS4 for a string of at most 128 characters whose pages are in frames, when the terminal takes
  -- them all: they go out in order and the result is their number. The terminal's
  -- mutex is taken before and released after.
  pub write_terminal_lem :
      (len : ℕ) (s : Sys)
      → is_outside addr ≡ false
      → len ≤ maxstrlen
      → Sends asid addr len 0 s
      → Does
          (some len)
          (passeren (dev_mutex termw_mutex) ∷ commands s.memory addr 0 len ++ release)
          s
          (write_terminal asid addr len s)
  write_terminal_lem len s g l h =
      let s1 = call (passeren (dev_mutex termw_mutex)) s in
      open-Does len s (some len) _ g l (
        write_loop-Does asid addr len 0 len 0 len s1 (some len) release (omega arith) (omega arith)
          h (λ t m a d p. stop_all asid addr len t))

  -- SYS4 for a string of at most 128 characters when the terminal refuses the one after n good ones,
  -- and the pages of these n + 1 are in frames: they have gone out and nothing behind them, the result
  -- is minus the status, and the terminal's mutex is taken before and released after.
  pub write_terminal_refused :
      (len n : ℕ) (s : Sys)
      → is_outside addr ≡ false
      → len ≤ maxstrlen
      → n < len
      → Sends asid addr n 0 s
      → is_resident asid (addr + n) s.vm ≡ true
      → status s n ≢ 5
      → Does
          (some (minus (status s n)))
          (passeren (dev_mutex termw_mutex) ∷ commands s.memory addr 0 n
            ++ transmit (char_command (s.memory (addr + n))) ∷ release)
          s
          (write_terminal asid addr len s)
  write_terminal_refused len n s g l b h m bad =
      let s1 = call (passeren (dev_mutex termw_mutex)) s in
      open-Does len s (some (minus (status s n))) _ g l (
        write_loop-Does asid addr n (suc (len - suc n)) len 0 n s1 (some (minus (status s n))) _
          (omega arith) (omega arith) h
          (λ t f a d p.
            stop_bad asid addr (len - suc n) n s1 t
              (subst (λ (g : ℕ → ℕ → PteEntry). is_at asid (addr + n) g ≡ true) (sym p) m) bad f a
              d))
