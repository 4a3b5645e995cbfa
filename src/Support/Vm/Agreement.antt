-- ===== src/Support/Vm/Agreement.antt =====
-- The swap pool and the page tables agree in both directions, through any sequence of launches, page
-- faults and ends of U-procs.
use pand_aossh.Prelude.{
  ℕ, ◌<◌, ◌≡◌, ◌≢◌, refl, sym, ap, ◌∙◌, subst, Bool, true, false, arith, ◌==◌, update, Bool-cases,
  inl, inr, ◌⊎◌, ==→eq, ==_refl,
}
use pand_aossh.Prelude.Words.{minus}
use pand_aossh.Types.{PteEntry}
use pand_aossh.Support.Vm.{
  is_valid, Vm, Swap, swap_pool_size, pager, sup_terminate, init_uproc_page_table,
}
use pand_aossh.Support.Vm.Pool.{IsSwapPool, replace, replace_other}
use pand_aossh.Support.Vm.Evict.{emptied, emptied-victim, cleared}
use pand_aossh.Support.Vm.Paging.{holder, present, pager-Paged, pager-tables}
use pand_aossh.Support.Vm.Release.{release_frames_other, init_uproc_page_table-invalid}
use pand_aossh.Support.Vm.Life.{
  Life, booted, launched, paged, ended, ran, Sound, HasOneFrame, Life-Sound, Life-HasOneFrame,
}

-- A valid entry of a U-proc that runs is that of a page which some frame holds.
pub Listed : (running : ℕ → Bool) → (ℕ → Swap) → (ℕ → ℕ → PteEntry) → Type 0
Listed running pool tables =
    (a p : ℕ)
    → running a ≡ true
    → p < 32
    → is_valid (tables a p) ≡ true
    → (i : ℕ) × (i < swap_pool_size) × ((pool i).sw_asid ≡ a) × ((pool i).sw_page_no ≡ p)

other_table :
    (asid a : ℕ) (v : Vm)
    → (a == asid) ≡ false
    → (init_uproc_page_table asid v).page_tables a ≡ v.page_tables a
unfolding init_uproc_page_table
other_table asid a v x = rw x refl

launched-Listed :
    (running : ℕ → Bool) (asid : ℕ) (v : Vm)
    → Listed running v.swap_pool v.page_tables
    → Listed (update running asid true) v.swap_pool (init_uproc_page_table asid v).page_tables
unfolding Listed
launched-Listed running asid v h a p r b e = elim (Bool-cases (a == asid)) [
  | inl x ↦ absurd (
      let same = ==→eq a asid x in
      let no = init_uproc_page_table-invalid asid p v b in
      let yes : is_valid ((init_uproc_page_table asid v).page_tables asid p) ≡ true =
        subst (λ c. is_valid ((init_uproc_page_table asid v).page_tables c p) ≡ true) same e in
      cc)
  | inr x ↦
      let before : running a ≡ true = ground (arith, r, x) in
      let valid = subst (λ (t : ℕ → PteEntry). is_valid (t p) ≡ true) (other_table asid a v x) e in
      h a p before b valid
]

cleared_valid :
    (b q : ℕ) (tables : ℕ → ℕ → PteEntry) (a p : ℕ)
    → is_valid (replace b q (cleared (tables b q)) tables a p) ≡ true
    → is_valid (tables a p) ≡ true
cleared_valid b q tables a p e = elim (Bool-cases (a == b)) [
  | inl x ↦ elim (Bool-cases (p == q)) [
    | inl y ↦ absurd (ground (arith, e, x, y))
    | inr y ↦
        let other =
          replace_other b q (cleared (tables b q)) tables a p (λ _ z. ground (arith, y, z)) in
        subst (λ (c : PteEntry). is_valid c ≡ true) other e
  ]
  | inr x ↦
      let other =
        replace_other b q (cleared (tables b q)) tables a p (λ z _. ground (arith, x, z)) in
      subst (λ (c : PteEntry). is_valid c ≡ true) other e
]

-- An entry that is valid when frame i is emptied was valid before.
emptied_valid :
    (i : ℕ) (v : Vm) (a p : ℕ)
    → is_valid (emptied i v a p) ≡ true
    → is_valid (v.page_tables a p) ≡ true
emptied_valid i v a p e = elim (Bool-cases ((v.swap_pool i).sw_asid == minus 1)) [
  | inl x ↦ rw x at e
  | inr x ↦
      let f = rw x at e in
      cleared_valid (v.swap_pool i).sw_pte.0 (v.swap_pool i).sw_pte.1 v.page_tables a p f
]

-- The entries of the page that came and of the others.
entry_cases :
    (asid p i : ℕ) (c : PteEntry) (tables : ℕ → ℕ → PteEntry) (a q : ℕ)
    → (a ≡ asid) × (q ≡ p) ⊎ (replace asid p c tables a q ≡ tables a q)
entry_cases asid p i c tables a q = elim (Bool-cases (a == asid)) [
  | inl x ↦ elim (Bool-cases (q == p)) [
    | inl y ↦ inl (==→eq a asid x, ==→eq q p y)
    | inr y ↦ inr (replace_other asid p c tables a q (λ _ z. ground (arith, y, z)))
  ]
  | inr x ↦ inr (replace_other asid p c tables a q (λ z _. ground (arith, x, z)))
]

module _ (running : ℕ → Bool) (asid p : ℕ) (v : Vm) (whole : IsSwapPool v)
    (cursor : v.fifo_next < swap_pool_size) (h : Listed running v.swap_pool v.page_tables)
    (real : (a : ℕ) → running a ≡ true → a ≢ minus 1) where
  -- A page that was there before is in its frame, which is not the one that was emptied.
  remains :
      (a q : ℕ)
      → running a ≡ true
      → q < 32
      → is_valid (emptied v.fifo_next v a q) ≡ true
      → (j : ℕ) × (j < swap_pool_size)
        × ((update v.swap_pool v.fifo_next (holder asid p) j).sw_asid ≡ a)
        × ((update v.swap_pool v.fifo_next (holder asid p) j).sw_page_no ≡ q)
  unfolding Listed
  remains a q r b e =
      let i = v.fifo_next in
      let (j, c, x, y) = h a q r b (emptied_valid i v a q e) in
      elim (Bool-cases (j == i)) [
        | inl same ↦ absurd (
            let at = ==→eq j i same in
            let here : (v.swap_pool i).sw_asid ≡ a =
              ap (λ k. (v.swap_pool k).sw_asid) (sym at) ∙ x in
            let page : (v.swap_pool i).sw_page_no ≡ q =
              ap (λ k. (v.swap_pool k).sw_page_no) (sym at) ∙ y in
            let gone = emptied-victim i v whole cursor (λ z. real a r (sym here ∙ z)) in
            let still : is_valid (emptied i v a q) ≡ false =
              ap (λ k. is_valid (emptied i v k q)) (sym here)
              ∙ ap (λ k. is_valid (emptied i v (v.swap_pool i).sw_asid k)) (sym page)
              ∙ gone in
            cc)
        | inr away ↦ (j, c, rw away x, rw away y)
      ]

  paged-Listed :
      Listed running (update v.swap_pool v.fifo_next (holder asid p)) (
        replace asid p (present (emptied v.fifo_next v asid p) v.fifo_next) (emptied v.fifo_next v))
  unfolding Listed
  paged-Listed a q r b e =
      let i = v.fifo_next in
      let r_i = ==_refl i in
      elim (entry_cases asid p i (present (emptied i v asid p) i) (emptied i v) a q) [
        | inl (x, y) ↦ (i, cursor, rw r_i (sym x), rw r_i (sym y))
        | inr other ↦ remains a q r b (subst (λ (c : PteEntry). is_valid c ≡ true) other e)
      ]

ended-Listed :
    (running : ℕ → Bool) (asid : ℕ) (v : Vm)
    → Listed running v.swap_pool v.page_tables
    → Listed (update running asid false) (sup_terminate asid v).swap_pool v.page_tables
unfolding Listed sup_terminate
ended-Listed running asid v h a p r b e =
    let before : running a ≡ true = ground (arith, r) in
    let away : (a == asid) ≡ false = ground (arith, r) in
    let (i, c, x, y) = h a p before b e in
    let other : (v.swap_pool i).sw_asid ≢ asid =
      λ z. (let f : a ≡ asid = sym x ∙ z in ground (arith, f, away)) in
    let same = release_frames_other swap_pool_size asid v.swap_pool i other in
    (i, c, ap (λ (s : Swap). s.sw_asid) same ∙ x, ap (λ (s : Swap). s.sw_page_no) same ∙ y)

-- A U-proc that runs has an ASID that does not mark free frames.
Life-real :
    {running : ℕ → Bool} {v : Vm} → Life running v → (a : ℕ) → running a ≡ true → a ≢ minus 1
Life-real (booted v) a r = cc
Life-real (launched {running} {v} asid l n r0) a r =
    let h = Life-real l a in ground (arith, r, n, h)
Life-real (paged asid cause entry_hi p l r0 ready c s n) a r = Life-real l a r
Life-real (ended {running} {v} asid l r0) a r = let h = Life-real l a in ground (arith, r, h)
Life-real (ran t l pool tables next) a r = Life-real l a r

ended_tables :
    (running : ℕ → Bool) (asid : ℕ) (v : Vm)
    → Listed running (sup_terminate asid v).swap_pool v.page_tables
    → Listed running (sup_terminate asid v).swap_pool (sup_terminate asid v).page_tables
unfolding sup_terminate
ended_tables running asid v h = h

Life-Listed :
    {running : ℕ → Bool} {v : Vm} → Life running v → Listed running v.swap_pool v.page_tables
unfolding Listed init_uproc_page_table
Life-Listed (booted v) = λ a p r. absurd cc
Life-Listed (launched {running} {v} asid l a r) = launched-Listed running asid v (Life-Listed l)
Life-Listed (paged {running} {v} asid cause entry_hi p l r ready c s n) =
    let (whole, cursor, owned) = Life-Sound l in
    let ((_, _, pool, _, _, _, _), _) =
      pager-Paged asid cause entry_hi p v whole cursor ready c s n in
    let tables = pager-tables asid cause entry_hi p v ready c s in
    subst (λ (f : ℕ → Swap). Listed running f (pager asid cause entry_hi v).0.page_tables)
      (sym pool)
      (subst (Listed running (update v.swap_pool v.fifo_next (holder asid p))) (sym tables)
        (paged-Listed running asid p v whole cursor (Life-Listed l) (Life-real l)))
Life-Listed (ended {running} {v} asid l r) =
    ended_tables (update running asid false) asid v (ended-Listed running asid v (Life-Listed l))
Life-Listed (ran {running} {v} t l pool tables next) =
    subst (λ (f : ℕ → Swap). Listed running f t.page_tables) (sym pool)
      (subst (Listed running v.swap_pool) (sym tables) (Life-Listed l))

-- After any sequence of launches with ASIDs that are not in use, page faults that the flash devices
-- serve, and ends of U-procs: each occupied frame holds a page of a U-proc that runs, whose entry is
-- valid and names the frame; each valid entry of a U-proc that runs is that of a page which a frame
-- holds; no page is in two frames; and the cursor is in the swap pool.
pub Life-Agrees :
    {running : ℕ → Bool} {v : Vm}
    → Life running v
    → Sound running v × Listed running v.swap_pool v.page_tables × HasOneFrame v
Life-Agrees l = (Life-Sound l, Life-Listed l, Life-HasOneFrame l)
