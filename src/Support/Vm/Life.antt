-- ===== src/Support/Vm/Life.antt =====
-- The swap pool through any sequence of launches, page faults and ends of U-procs.
use pand_aossh.Prelude.{
  ℕ, ◌+◌, ◌%◌, ◌<◌, ◌≡◌, ◌≢◌, sym, ap, ◌∙◌, subst, Bool, true, false, some, arith, ◌==◌, update,
  Bool-cases, inl, inr, ==→eq,
}
use pand_aossh.Prelude.Words.{minus}
use pand_aossh.Support.Vm.{
  is_valid, Vm, Swap, swap_pool_size, vpn_to_index, pager, sup_terminate, init_swap_structs,
  init_uproc_page_table,
}
use pand_aossh.Support.Vm.Pool.{IsPool, IsSwapPool, one_frame, free_frames-free}
use pand_aossh.Support.Vm.Evict.{IsReady}
use pand_aossh.Support.Vm.Paging.{holder, pager-Paged}
use pand_aossh.Support.Vm.Release.{
  HasNoFrame, release_frames_own, release_frames_other, sup_terminate-IsSwapPool,
  init_uproc_page_table-IsSwapPool, init_swap_structs-IsSwapPool,
}

-- The U-procs that run, and the state of the Pager. A U-proc is launched with an ASID that is not in
-- use; it meets a page fault on a page whose entry is not valid, and the flash devices work; it ends;
-- and between those the TLB, the trace and the answers may change.
pub data Life : (running : ℕ → Bool) → Vm → Type 0 where
  booted : (v : Vm) → Life (λ _. false) (init_swap_structs v)
  launched :
      {running : ℕ → Bool} {v : Vm} (asid : ℕ)
      → Life running v
      → asid ≢ minus 1
      → running asid ≡ false
      → Life (update running asid true) (init_uproc_page_table asid v)
  paged :
      {running : ℕ → Bool} {v : Vm} (asid cause entry_hi p : ℕ)
      → Life running v
      → running asid ≡ true
      → IsReady v
      → cause % 256 ≢ 24
      → vpn_to_index entry_hi ≡ some p
      → is_valid (v.page_tables asid p) ≡ false
      → Life running (pager asid cause entry_hi v).0
  ended :
      {running : ℕ → Bool} {v : Vm} (asid : ℕ)
      → Life running v
      → running asid ≡ true
      → Life (update running asid false) (sup_terminate asid v)
  ran :
      {running : ℕ → Bool} {v : Vm} (t : Vm)
      → Life running v
      → t.swap_pool ≡ v.swap_pool
      → t.page_tables ≡ v.page_tables
      → t.fifo_next ≡ v.fifo_next
      → Life running t

-- An occupied frame belongs to a U-proc that runs.
pub Owned : (running : ℕ → Bool) → (ℕ → Swap) → Type 0
Owned running pool =
    (i : ℕ) → i < swap_pool_size → (pool i).sw_asid ≢ minus 1 → running (pool i).sw_asid ≡ true

-- The swap pool and the page tables agree, the cursor is a frame, and each occupied frame belongs to
-- a U-proc that runs.
abbrev pub Sound : (ℕ → Bool) → Vm → Type 0
Sound running v = IsSwapPool v × (v.fifo_next < swap_pool_size) × Owned running v.swap_pool

booted-Owned : (v : Vm) → Owned (λ _. false) (init_swap_structs v).swap_pool
unfolding Owned init_swap_structs
booted-Owned v i b o = absurd (o (free_frames-free swap_pool_size v.swap_pool i b))

launched-HasNoFrame :
    (running : ℕ → Bool) (asid : ℕ) (v : Vm)
    → asid ≢ minus 1
    → running asid ≡ false
    → Owned running v.swap_pool
    → HasNoFrame asid v
unfolding Owned
launched-HasNoFrame running asid v a r h i b e =
    let true_too = h i b (λ z. a (sym e ∙ z)) in
    let clash : running asid ≡ true = ap running (sym e) ∙ true_too in cc

launched-Owned :
    (running : ℕ → Bool) (asid : ℕ) (pool : ℕ → Swap)
    → Owned running pool
    → Owned (update running asid true) pool
unfolding Owned
launched-Owned running asid pool h i b o = ground (arith, h i b o)

paged-Owned :
    (running : ℕ → Bool) (asid p frame : ℕ) (pool : ℕ → Swap)
    → running asid ≡ true
    → Owned running pool
    → Owned running (update pool frame (holder asid p))
unfolding Owned
paged-Owned running asid p frame pool r h i b = elim (Bool-cases (i == frame)) [
  | inl e ↦ rw e (λ _. r)
  | inr e ↦ rw e (h i b)
]

ended-Owned :
    (running : ℕ → Bool) (asid : ℕ) (v : Vm)
    → Owned running v.swap_pool
    → Owned (update running asid false) (sup_terminate asid v).swap_pool
unfolding Owned sup_terminate
ended-Owned running asid v h i b = elim (Bool-cases ((v.swap_pool i).sw_asid == asid)) [
  | inl x ↦ λ o. absurd (o (release_frames_own swap_pool_size asid v.swap_pool i b (==→eq _ _ x)))
  | inr x ↦
      let n : (v.swap_pool i).sw_asid ≢ asid = λ e. ground (arith, x, e) in
      rw (release_frames_other swap_pool_size asid v.swap_pool i n) (λ o. rw x (h i b o))
]

ended-Sound :
    (running : ℕ → Bool) (asid : ℕ) (v : Vm)
    → Sound running v
    → Sound (update running asid false) (sup_terminate asid v)
unfolding sup_terminate
ended-Sound running asid v (whole, cursor, owned) =
    (sup_terminate-IsSwapPool asid v whole, cursor, ended-Owned running asid v owned)

launched-Sound :
    (running : ℕ → Bool) (asid : ℕ) (v : Vm)
    → asid ≢ minus 1
    → running asid ≡ false
    → Sound running v
    → Sound (update running asid true) (init_uproc_page_table asid v)
unfolding init_uproc_page_table
launched-Sound running asid v a r (whole, cursor, owned) = (
  init_uproc_page_table-IsSwapPool asid v (launched-HasNoFrame running asid v a r owned) whole,
  cursor,
  launched-Owned running asid v.swap_pool owned,
)

paged-Sound :
    (running : ℕ → Bool) (asid cause entry_hi p : ℕ) (v : Vm)
    → running asid ≡ true
    → IsReady v
    → cause % 256 ≢ 24
    → vpn_to_index entry_hi ≡ some p
    → is_valid (v.page_tables asid p) ≡ false
    → Sound running v
    → Sound running (pager asid cause entry_hi v).0
paged-Sound running asid cause entry_hi p v r ready c s n (whole, cursor, owned) =
    let (_, whole1, pool, _, _, next, _) =
      (pager-Paged asid cause entry_hi p v whole cursor ready c s n).0 in
    let inside : (v.fifo_next + 1) % swap_pool_size < swap_pool_size = omega arith in
    (
      whole1,
      subst (λ k. k < swap_pool_size) (sym next) inside,
      subst (Owned running) (sym pool) (paged-Owned running asid p v.fifo_next v.swap_pool r owned),
    )

ran-Sound :
    (running : ℕ → Bool) (v t : Vm)
    → t.swap_pool ≡ v.swap_pool
    → t.page_tables ≡ v.page_tables
    → t.fifo_next ≡ v.fifo_next
    → Sound running v
    → Sound running t
ran-Sound running v t pool tables next (whole, cursor, owned) = (
  subst (λ (f : ℕ → Swap). IsPool f t.page_tables) (sym pool)
      (subst (IsPool v.swap_pool) (sym tables) whole),
  subst (λ k. k < swap_pool_size) (sym next) cursor,
  subst (Owned running) (sym pool) owned,
)

-- Two frames that hold the same page are the same frame.
pub HasOneFrame : Vm → Type 0
HasOneFrame v =
    (i j : ℕ)
    → i < swap_pool_size
    → j < swap_pool_size
    → (v.swap_pool i).sw_asid ≢ minus 1
    → ((v.swap_pool j).sw_asid ≡ (v.swap_pool i).sw_asid)
      × ((v.swap_pool j).sw_page_no ≡ (v.swap_pool i).sw_page_no)
    → j ≡ i

pub Life-Sound : {running : ℕ → Bool} {v : Vm} → Life running v → Sound running v
unfolding init_swap_structs
Life-Sound (booted v) = (init_swap_structs-IsSwapPool v, omega arith, booted-Owned v)
Life-Sound (launched {running} {v} asid l a r) = launched-Sound running asid v a r (Life-Sound l)
Life-Sound (paged {running} {v} asid cause entry_hi p l r ready c s n) =
    paged-Sound running asid cause entry_hi p v r ready c s n (Life-Sound l)
Life-Sound (ended {running} {v} asid l r) = ended-Sound running asid v (Life-Sound l)
Life-Sound (ran {running} {v} t l pool tables next) =
    ran-Sound running v t pool tables next (Life-Sound l)

-- No page is in two frames.
pub Life-HasOneFrame : {running : ℕ → Bool} {v : Vm} → Life running v → HasOneFrame v
unfolding HasOneFrame
Life-HasOneFrame {v = v} l i j a b o same =
    one_frame v.swap_pool v.page_tables i j (Life-Sound l).0 a b o same
