-- ===== src/Support/Sys/Terminal.antt =====
-- What the two services on the terminal have in common.
use pand_aossh.Prelude.{
  ℕ, ◌+◌, ◌%◌, ◌≡◌, refl, ap, Bool, true, false, Option, none, some, List, [], ◌∷◌, ◌++◌, ◌==◌,
  if◌then◌else◌, append_assoc,
}
use pand_aossh.Support.Vm.{
  Call, passeren, verhogen, vpn_to_index, sup_terminate, give_up, terminated, resumed, is_valid, Vm,
  pager, swap_pool_sem, master_semaphore, shell_semaphore, term_process,
}
use pand_aossh.Support.Init.{Sys}
use pand_aossh.Support.Sys.{is_mapped, is_resident, touch}

-- The status of the DOIO after k others.
abbrev pub status : Sys → ℕ → ℕ
status s k = s.vm.answer (s.vm.answered + k) % 256

-- The result is o, and the calls are those of the list.
abbrev pub Does : Option ℕ → List Call → Sys → Option ℕ × Sys → Type 0
Does o calls s (r, t) = (r ≡ o) × (t.vm.trace ≡ s.vm.trace ++ calls) × (t.memory ≡ s.memory)

-- What the Pager does for an address outside the logical space.
abbrev pub fault_calls : (asid : ℕ) → List Call
fault_calls asid =
    passeren swap_pool_sem
    ∷ verhogen swap_pool_sem
    ∷ passeren swap_pool_sem
    ∷ verhogen swap_pool_sem
    ∷ verhogen (if asid == 1 then master_semaphore else shell_semaphore)
    ∷ term_process
    ∷ []

unmapped :
    (o : Option ℕ) → (elim o as (λ _. Bool) [ none ↦ false | some _ ↦ true ]) ≡ false → o ≡ none
unmapped none h = refl
unmapped (some p) h = cc

unmapped_absent :
    (asid addr : ℕ) (v : Vm) → vpn_to_index addr ≡ none → is_resident asid addr v ≡ false
unmapped_absent asid addr v e =
    ap
      (λ (o : Option ℕ). (elim o as (λ _. Bool) [
        | none ↦ false
        | some p ↦ is_valid (v.page_tables asid p)
      ]))
      e

-- A page that is in a frame is at hand.
pub touch_resident :
    (asid code addr : ℕ) (s : Sys)
    → is_resident asid addr s.vm ≡ true
    → touch asid code addr s ≡ (resumed, s)
unfolding touch
touch_resident asid code addr s h = rw h refl

-- For an address outside the logical space the Pager ends the U-proc.
pub fault-trace :
    (asid code addr : ℕ) (s : Sys)
    → (code % 256 == 24) ≡ false
    → is_mapped addr ≡ false
    → ((touch asid code addr s).0 ≡ terminated)
      × ((touch asid code addr s).1.vm.trace ≡ s.vm.trace ++ fault_calls asid)
      × ((touch asid code addr s).1.memory ≡ s.memory)
unfolding pager sup_terminate give_up touch
fault-trace asid code addr s c m =
    let e = unmapped (vpn_to_index addr) m in
    rw (unmapped_absent asid addr s.vm e, c, e) (refl, simp append_assoc, refl)
