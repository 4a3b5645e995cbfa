-- ===== src/Support/Vm/Paging.antt =====
-- The Pager when the flash devices work: the page comes into the frame, and the swap pool and the
-- page tables still agree.
use pand_aossh.Prelude.{
  ◌++◌, append_assoc, ℕ, ◌+◌, ◌%◌, ◌<◌, ◌≡◌, ◌≢◌, refl, sym, ap, ◌∙◌, subst, false, arith, ◌==◌,
  update, ==→eq, eq→==, Bool-cases, inl, inr, some, [], ◌∷◌, Bool-cases,
}
use pand_aossh.Prelude.Words.{minus}
use pand_aossh.Types.{PteEntry}
use pand_aossh.Support.Vm.{
  is_valid, Vm, Swap, Exit, resumed, swap_pool_size, evict, flash_operation, load_page, page_in,
  pager, vpn_to_index, mark_page_present, passeren, swap_pool_sem, syscall,
}
use pand_aossh.Support.Vm.Pool.{
  entry_lo, IsBacked, IsPool, IsSwapPool, replace, replace-IsBacked, invalid_elsewhere,
  replace_same, replace_other,
}
use pand_aossh.Support.Vm.Flash.{evict_calls, load_calls, page_in-trace}
use pand_aossh.Support.Vm.Evict.{
  IsReady, evict_lem, emptied, emptied-IsBacked, emptied-victim, emptied_other,
}

abbrev pub holder : (asid p : ℕ) → Swap
holder asid p = record { sw_asid = asid; sw_page_no = p; sw_pte = (asid, p) }

abbrev pub present : PteEntry → ℕ → PteEntry
present e i = record e { pte_entry_lo = entry_lo i }

-- Page p of the U-proc is in frame i and the only one in the TLB.
abbrev Loaded : (asid p i : ℕ) → Vm → Vm × Exit → Type 0
Loaded asid p i v (t, x) =
    let e = present (v.page_tables asid p) i in
    (x ≡ resumed)
    × (t.swap_pool ≡ update v.swap_pool i (holder asid p))
    × (t.page_tables ≡ replace asid p e v.page_tables)
    × (t.tlb ≡ e ∷ [])
    × (t.fifo_next ≡ v.fifo_next)

load_page_lem :
    (asid p i : ℕ) (v : Vm)
    → v.answer v.answered ≡ v.ready
    → Loaded asid p i v (load_page asid p i v)
unfolding load_page flash_operation mark_page_present
load_page_lem asid p i v h = rw (eq→== _ _ h) (refl, refl, refl, refl, refl)

page_in_lem :
    (asid p i : ℕ) (v : Vm) → IsReady v → Loaded asid p i (evict i v).1 (page_in asid p i v)
unfolding page_in
page_in_lem asid p i v h =
    let (a, (b, c, d, f), g) = evict_lem i v h in
    let w = (evict i v).1 in
    rw (eq→== _ _ a)
      (load_page_lem asid p i w (ap (λ (f : ℕ → ℕ). f w.answered) c ∙ h w.answered ∙ sym d))

install-IsPool :
    (pool : ℕ → Swap) (tables : ℕ → ℕ → PteEntry) (asid p i : ℕ)
    → ((j : ℕ) → j < 16 → (j ≡ i → ⊥) → IsBacked pool tables j)
    → ((j : ℕ)
        → j < 16
        → (pool j).sw_asid ≢ minus 1
        → ((pool j).sw_asid ≡ asid) × ((pool j).sw_page_no ≡ p)
        → j ≡ i)
    → IsPool (update pool i (holder asid p)) (replace asid p (present (tables asid p) i) tables)
unfolding IsPool
install-IsPool pool tables asid p i h d j b = elim (Bool-cases (j == i)) [
  | inl e ↦
      let same : i ≡ j = sym (==→eq j i e) in
      rw e (λ occupied. (
        refl,
        ap (λ (x : PteEntry). x.pte_entry_lo)
              (replace_same asid p (present (tables asid p) i) tables)
            ∙ ap entry_lo same,
      ))
  | inr e ↦
      let other : j ≡ i → ⊥ = λ x. ground (arith, e) in
      rw e (
        replace-IsBacked pool tables asid p j _ (h j b other)
          (λ occupied same. other (d j b occupied same)))
]

-- How the Pager leaves the page tables and the swap pool when it has brought page p to frame i.
abbrev pub Paged : (asid p i : ℕ) → Vm → Vm × Exit → Type 0
Paged asid p i v (t, x) =
    let e = present (v.page_tables asid p) i in
    (x ≡ resumed)
    × IsSwapPool t
    × (t.swap_pool ≡ update v.swap_pool i (holder asid p))
    × (t.page_tables asid p ≡ e)
    × (t.tlb ≡ e ∷ [])
    × (t.fifo_next ≡ v.fifo_next)
    × ((v.swap_pool i).sw_asid ≢ minus 1
        → is_valid (t.page_tables (v.swap_pool i).sw_asid (v.swap_pool i).sw_page_no) ≡ false)

page_in-Paged :
    (asid p i : ℕ) (v : Vm)
    → IsSwapPool v
    → i < swap_pool_size
    → IsReady v
    → is_valid (v.page_tables asid p) ≡ false
    → Paged asid p i v (page_in asid p i v)
unfolding IsPool
page_in-Paged asid p i v h b ready n =
    let (a, pool, tables, tlb, next) = page_in_lem asid p i v ready in
    let (_, (pool1, _, _, next1), tables1) = evict_lem i v ready in
    let t = (page_in asid p i v).0 in
    let old = emptied i v in
    let page : present (old asid p) i ≡ present (v.page_tables asid p) i =
      ap (λ (c : PteEntry). present c i) (emptied_other i v h b asid p n) in
    let pool2 : t.swap_pool ≡ update v.swap_pool i (holder asid p) =
      pool ∙ ap (λ (f : ℕ → Swap). update f i (holder asid p)) pool1 in
    let tables2 : t.page_tables ≡ replace asid p (present (old asid p) i) old =
      tables ∙ ap (λ (f : ℕ → ℕ → PteEntry). replace asid p (present (f asid p) i) f) tables1 in
    let whole : IsPool (update v.swap_pool i (holder asid p))
        (replace asid p (present (old asid p) i) old) =
      install-IsPool v.swap_pool old asid p i (emptied-IsBacked i v h b) (λ j c o same.
        absurd (invalid_elsewhere v.swap_pool v.page_tables asid p j c (h j c) n o same)) in
    (
      a,
      subst (λ (f : ℕ → Swap). IsPool f t.page_tables) (sym pool2)
          (subst (IsPool (update v.swap_pool i (holder asid p))) (sym tables2) whole),
      pool2,
      ap (λ (f : ℕ → ℕ → PteEntry). f asid p) tables2
          ∙ replace_same asid p (present (old asid p) i) old
          ∙ page,
      tlb
          ∙ ap (λ (f : ℕ → ℕ → PteEntry). present (f asid p) i ∷ []) tables1
          ∙ ap (λ (e : PteEntry). e ∷ []) page,
      next ∙ next1,
      λ o.
          let s = v.swap_pool i in
          ap (λ (f : ℕ → ℕ → PteEntry). is_valid (f s.sw_asid s.sw_page_no)) tables2
          ∙ ap is_valid (
              replace_other asid p (present (old asid p) i) old s.sw_asid s.sw_page_no
                (λ x y. invalid_elsewhere v.swap_pool v.page_tables asid p i b (h i b) n o (x, y)))
          ∙ emptied-victim i v h b o,
    )

-- The page tables behind the Pager: one entry cleared, and one present.
pub pager-tables :
    (asid cause entry_hi p : ℕ) (v : Vm)
    → IsReady v
    → cause % 256 ≢ 24
    → vpn_to_index entry_hi ≡ some p
    → (pager asid cause entry_hi v).0.page_tables
      ≡ replace asid p (present (emptied v.fifo_next v asid p) v.fifo_next) (emptied v.fifo_next v)
unfolding pager
pager-tables asid cause entry_hi p v ready c s =
    let c' : (cause % 256 == 24) ≡ false = ground (arith, c) in
    let i = v.fifo_next in
    let v1 = syscall (passeren swap_pool_sem) v in
    let v2 : Vm = record v1 { fifo_next = (v1.fifo_next + 1) % swap_pool_size } in
    let (a, pool, tables, tlb, next) = page_in_lem asid p i v2 ready in
    let (_, _, tables1) = evict_lem i v2 ready in
    rw (c', s)
      (tables ∙ ap (λ (f : ℕ → ℕ → PteEntry). replace asid p (present (f asid p) i) f) tables1)

-- The Pager on a page of the logical space whose entry is not valid, with flash devices that work:
-- the U-proc goes on, its page is in the frame of the cursor and alone in the TLB with an entry
-- that names the frame, the entry of the page that was there before is not valid, all other occupied
-- frames still hold a page with a valid entry that names them, and the cursor is at the next frame.
-- The calls are these: the P on the swap pool's semaphore, the write of the page that was in the frame
-- to its block of its U-proc's flash device, if there was one, the read of block p of the U-proc's flash
-- device into the frame, each under the mutex of the device, and the V on the swap pool's semaphore.
pub pager-Paged :
    (asid cause entry_hi p : ℕ) (v : Vm)
    → IsSwapPool v
    → v.fifo_next < swap_pool_size
    → IsReady v
    → cause % 256 ≢ 24
    → vpn_to_index entry_hi ≡ some p
    → is_valid (v.page_tables asid p) ≡ false
    → Paged asid p v.fifo_next
        (record v { fifo_next = (v.fifo_next + 1) % swap_pool_size })
        (pager asid cause entry_hi v)
      × ((pager asid cause entry_hi v).0.trace
          ≡ v.trace
            ++ (passeren swap_pool_sem ∷ evict_calls v.fifo_next v
                ++ load_calls asid p v.fifo_next))
unfolding pager
pager-Paged asid cause entry_hi p v h b ready c s n =
    let c' : (cause % 256 == 24) ≡ false = ground (arith, c) in
    let v1 = syscall (passeren swap_pool_sem) v in
    let v2 : Vm = record v1 { fifo_next = (v1.fifo_next + 1) % swap_pool_size } in
    let calls = evict_calls v.fifo_next v ++ load_calls asid p v.fifo_next in
    rw (c', s)
      (
        page_in-Paged asid p v.fifo_next v2 h b ready n,
        page_in-trace asid p v.fifo_next v2 ready
            ∙ append_assoc v.trace (passeren swap_pool_sem ∷ []) calls,
      )
