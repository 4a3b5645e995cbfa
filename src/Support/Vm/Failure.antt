-- ===== src/Support/Vm/Failure.antt =====
-- The Pager when the page that has to leave the frame cannot be written to its flash device.
use pand_aossh.Prelude.{ℕ, ◌+◌, ◌%◌, ◌<◌, ◌≡◌, ◌≢◌, refl, ap, ◌∙◌, false, arith, ◌==◌, some}
use pand_aossh.Prelude.Words.{minus}
use pand_aossh.Support.Vm.{
  is_valid, Vm, Swap, terminated, swap_pool_size, vpn_to_index, pager, page_in, evict, give_up,
  flash_operation, mark_page_not_valid, syscall, passeren, swap_pool_sem, sup_terminate,
  release_frames,
}
use pand_aossh.Support.Vm.Pool.{IsPool, IsSwapPool}
use pand_aossh.Support.Vm.Release.{release_frames_other}

-- The write-back.
abbrev Fails : ℕ → Vm → Type 0
Fails i v =
    ((evict i v).0 ≡ v.answer v.answered)
    × ((evict i v).1.swap_pool ≡ v.swap_pool)
    × (is_valid ((evict i v).1.page_tables (v.swap_pool i).sw_asid (v.swap_pool i).sw_page_no)
        ≡ false)

evict-Fails :
    (i : ℕ) (v : Vm)
    → i < swap_pool_size
    → IsSwapPool v
    → (v.swap_pool i).sw_asid ≢ minus 1
    → Fails i v
unfolding evict flash_operation mark_page_not_valid IsPool
evict-Fails i v b h o =
    let e : ((v.swap_pool i).sw_asid == minus 1) ≡ false = ground (arith, o) in
    let f = (h i b o).0 in rw (e, f) (refl, refl, ground arith)

-- Where the flash device of the page that has to leave reports an error, the Pager ends the U-proc
-- that faulted, and not the one that the page belongs to: of that one the page is still listed in
-- the frame, but its entry is not valid any more, so that the swap pool and the page tables do not
-- agree.
pub pager_stale :
    (asid cause entry_hi p : ℕ) (v : Vm)
    → IsSwapPool v
    → v.fifo_next < swap_pool_size
    → cause % 256 ≢ 24
    → vpn_to_index entry_hi ≡ some p
    → (v.swap_pool v.fifo_next).sw_asid ≢ minus 1
    → (v.swap_pool v.fifo_next).sw_asid ≢ asid
    → v.answer v.answered ≢ v.ready
    → ((pager asid cause entry_hi v).1 ≡ terminated)
      × ((pager asid cause entry_hi v).0.swap_pool v.fifo_next ≡ v.swap_pool v.fifo_next)
      × (is_valid (
            (pager asid cause entry_hi v).0.page_tables
              (v.swap_pool v.fifo_next).sw_asid
              (v.swap_pool v.fifo_next).sw_page_no)
          ≡ false)
unfolding pager page_in give_up sup_terminate
pager_stale asid cause entry_hi p v h b c s o d bad =
    let c' : (cause % 256 == 24) ≡ false = ground (arith, c) in
    let i = v.fifo_next in
    let v1 = syscall (passeren swap_pool_sem) v in
    let v2 : Vm = record v1 { fifo_next = (v1.fifo_next + 1) % swap_pool_size } in
    let (status, pool, invalid) = evict-Fails i v2 b h o in
    let no : ((evict i v2).0 == v.ready) ≡ false = ground (arith, status, bad) in
    rw (c', s, no)
      (
        refl,
        ap (λ (f : ℕ → Swap). release_frames swap_pool_size asid f i) pool
            ∙ release_frames_other swap_pool_size asid v.swap_pool i d,
        invalid,
      )
