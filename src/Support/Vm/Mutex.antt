-- ===== src/Support/Vm/Mutex.antt =====
-- The Pager holds the swap pool's semaphore only while it works.
use pand_aossh.Prelude.{ℕ, ◌+◌, ◌≡◌, List, [], ◌∷◌, ◌++◌, arith, ◌==◌, ◌%◌, if-split, Option-split}
use pand_aossh.Support.Vm.{
  Vm, Call, Exit, passeren, verhogen, swap_pool_sem, syscall, flash_operation, evict, load_page,
  page_in, give_up, swap_pool_size, frame_addr, flashwrite, flashread, sup_terminate, pager,
  mark_page_present, mark_page_not_valid, vpn_to_index,
}

abbrev pub is_taken : Call → ℕ
is_taken (passeren swap_pool_sem) = 1
is_taken _ = 0

abbrev pub is_given : Call → ℕ
is_given (verhogen swap_pool_sem) = 1
is_given _ = 0

-- The P and the V on the swap pool's semaphore in a trace.
pub taken : List Call → ℕ
taken [] = 0
taken (c ∷ t) = is_taken c + taken t

pub given : List Call → ℕ
given [] = 0
given (c ∷ t) = is_given c + given t

-- From v to t as many P as V were made on it, and n more.
abbrev pub Balance : ℕ → Vm → Vm → Type 0
Balance n v t = taken t.trace + given v.trace ≡ n + given t.trace + taken v.trace

taken-snoc : (t : List Call) (c : Call) → taken (t ++ c ∷ []) ≡ taken t + is_taken c
unfolding taken
taken-snoc [] c = ground arith
taken-snoc (d ∷ t) c = ground (arith, taken-snoc t c)

given-snoc : (t : List Call) (c : Call) → given (t ++ c ∷ []) ≡ given t + is_given c
unfolding given
given-snoc [] c = ground arith
given-snoc (d ∷ t) c = ground (arith, given-snoc t c)

syscall-Balance :
    (c : Call) (v : Vm)
    → (taken (syscall c v).trace ≡ taken v.trace + is_taken c)
      × (given (syscall c v).trace ≡ given v.trace + is_given c)
syscall-Balance c v = (taken-snoc v.trace c, given-snoc v.trace c)

flash_operation-Balance :
    (asid block frame op : ℕ) (v : Vm) → Balance 0 v (flash_operation asid block frame op v).1
unfolding flash_operation
flash_operation-Balance asid block frame op v = grind (arith, taken-snoc, given-snoc)

sup_terminate-Balance : (asid : ℕ) (v : Vm) → Balance 0 v (sup_terminate asid v)
unfolding sup_terminate
sup_terminate-Balance asid v = grind (arith, taken-snoc, given-snoc)

evict-Balance : (i : ℕ) (v : Vm) → Balance 0 v (evict i v).1
unfolding evict mark_page_not_valid
evict-Balance i v = ground (
  arith,
  flash_operation-Balance (v.swap_pool i).sw_asid (v.swap_pool i).sw_page_no (frame_addr i)
      flashwrite (mark_page_not_valid (v.swap_pool i).sw_pte v),
)

give_up-Balance : (asid : ℕ) (v w : Vm) → Balance 1 w v → Balance 0 w (give_up asid v).0
unfolding give_up
give_up-Balance asid v w h = ground (
  arith,
  syscall-Balance (verhogen swap_pool_sem) v,
  sup_terminate-Balance asid (syscall (verhogen swap_pool_sem) v),
)

load_page-Balance : (asid p i : ℕ) (v w : Vm) → Balance 1 w v → Balance 0 w (load_page asid p i v).0
unfolding load_page mark_page_present
load_page-Balance asid p i v w h =
    let r = flash_operation asid p (frame_addr i) flashread v in
    let b : Balance 0 v r.1 = flash_operation-Balance asid p (frame_addr i) flashread v in
    let b1 : Balance 1 w r.1 = omega (arith, b, h) in
    ground (
      arith,
      b1,
      give_up-Balance asid r.1 w b1,
      taken-snoc r.1.trace (verhogen swap_pool_sem),
      given-snoc r.1.trace (verhogen swap_pool_sem),
    )

page_in-Balance : (asid p i : ℕ) (v w : Vm) → Balance 1 w v → Balance 0 w (page_in asid p i v).0
unfolding page_in
page_in-Balance asid p i v w h =
    let r = evict i v in
    let b : Balance 0 v r.1 = evict-Balance i v in
    let b1 : Balance 1 w r.1 = omega (arith, b, h) in
    ground (arith, load_page-Balance asid p i r.1 w b1, give_up-Balance asid r.1 w b1)

-- On every path, errors and termination included, the Pager makes as many V as P on the semaphore
-- of the swap pool.
pub pager-Balance : (asid cause entry_hi : ℕ) (v : Vm) → Balance 0 v (pager asid cause entry_hi v).0
unfolding pager
pager-Balance asid cause entry_hi v =
    let v1 = syscall (passeren swap_pool_sem) v in
    let b : Balance 1 v v1 = omega (arith, syscall-Balance (passeren swap_pool_sem) v) in
    let i = v1.fifo_next in
    if-split (λ (x : Vm × Exit). Balance 0 v x.0) (cause % 256 == 24) _ _
      (λ h. sup_terminate-Balance asid v)
      (λ h.
        Option-split (λ (x : Vm × Exit). Balance 0 v x.0) (vpn_to_index entry_hi) (give_up asid v1)
          (λ p. page_in asid p i (record v1 { fifo_next = (i + 1) % swap_pool_size }))
          (λ e. give_up-Balance asid v1 v b)
          (λ p e.
            page_in-Balance asid p i (record v1 { fifo_next = (i + 1) % swap_pool_size }) v b))
