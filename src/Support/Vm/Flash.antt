-- ===== src/Support/Vm/Flash.antt =====
-- The calls that the Pager makes of the flash devices.
use Prim.Native.Nat.{bit_or}
use pand_aossh.Prelude.{
  ◌-◌, ◌*◌, ◌++◌, List, if◌then◌else◌, append_assoc, append-nil, ℕ, ◌≡◌, sym, ap, ◌∙◌, ◌==◌, eq→==,
  Bool-cases, inl, inr, [], ◌∷◌, Bool-cases,
}
use pand_aossh.Prelude.Words.{minus}
use pand_aossh.Support.Vm.{
  Vm, evict, flash_operation, load_page, page_in, mark_page_present, passeren, verhogen, doio, Call,
  frame_addr, flash_mutex, mark_page_not_valid, swap_pool_sem,
}
use pand_aossh.Support.Vm.Evict.{IsReady, evict_lem}

-- The calls of an operation of the U-proc's flash device.
abbrev pub flash_calls : (asid block frame op : ℕ) → List Call
flash_calls asid block frame op =
    passeren (flash_mutex (asid - 1))
    ∷ doio (asid - 1) (bit_or (block * 256) op) frame
    ∷ verhogen (flash_mutex (asid - 1))
    ∷ []

-- The write-back of the page in frame i, if it is occupied.
abbrev pub evict_calls : ℕ → Vm → List Call
evict_calls i v =
    let s = v.swap_pool i in
    if s.sw_asid == minus 1 then [] else flash_calls s.sw_asid s.sw_page_no (frame_addr i) 3

evict-trace : (i : ℕ) (v : Vm) → (evict i v).1.trace ≡ v.trace ++ evict_calls i v
unfolding evict flash_operation mark_page_not_valid
evict-trace i v = elim (Bool-cases ((v.swap_pool i).sw_asid == minus 1)) [
  | inl e ↦ rw e (simp append-nil)
  | inr e ↦ rw e (simp append_assoc)
]

-- The read of page p into frame i, and the V behind it.
abbrev pub load_calls : (asid p i : ℕ) → List Call
load_calls asid p i = flash_calls asid p (frame_addr i) 2 ++ verhogen swap_pool_sem ∷ []

load_page-trace :
    (asid p i : ℕ) (v : Vm)
    → v.answer v.answered ≡ v.ready
    → (load_page asid p i v).0.trace ≡ v.trace ++ load_calls asid p i
unfolding load_page flash_operation mark_page_present
load_page-trace asid p i v h = rw (eq→== _ _ h) (simp append_assoc)

pub page_in-trace :
    (asid p i : ℕ) (v : Vm)
    → IsReady v
    → (page_in asid p i v).0.trace ≡ v.trace ++ (evict_calls i v ++ load_calls asid p i)
unfolding page_in
page_in-trace asid p i v h =
    let (a, (b, c, d, f), g) = evict_lem i v h in
    let w = (evict i v).1 in
    rw (eq→== _ _ a) (
      load_page-trace asid p i w (ap (λ (f : ℕ → ℕ). f w.answered) c ∙ h w.answered ∙ sym d)
      ∙ ap (λ (l : List Call). l ++ load_calls asid p i) (evict-trace i v)
      ∙ append_assoc v.trace (evict_calls i v) (load_calls asid p i))
