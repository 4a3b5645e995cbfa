-- ===== src/Support/Vm/Evict.antt =====
-- The frame is emptied, when the flash devices work.
use pand_aossh.Prelude.{
  ℕ, ◌<◌, ◌≡◌, ◌≢◌, refl, sym, false, arith, ◌==◌, if◌then◌else◌, Bool-cases, inl, inr, Bool-cases,
}
use pand_aossh.Prelude.Words.{minus}
use pand_aossh.Types.{PteEntry}
use pand_aossh.Support.Vm.{is_valid, Vm, clear_valid, evict, flash_operation, mark_page_not_valid}
use pand_aossh.Support.Vm.Pool.{
  IsBacked, IsPool, IsSwapPool, replace, replace-IsBacked, invalid_elsewhere, one_frame,
  replace_same, replace_other,
}

-- Every operation of a flash device succeeds.
abbrev pub IsReady : Vm → Type 0
IsReady v = (k : ℕ) → v.answer k ≡ v.ready

-- Between v and t the swap pool, the devices and the cursor are the same.
abbrev pub Same : Vm → Vm → Type 0
Same v t =
    (t.swap_pool ≡ v.swap_pool)
    × (t.answer ≡ v.answer)
    × (t.ready ≡ v.ready)
    × (t.fifo_next ≡ v.fifo_next)

abbrev pub cleared : PteEntry → PteEntry
cleared e = record e { pte_entry_lo = clear_valid e.pte_entry_lo }

-- The page tables when frame i is emptied.
abbrev pub emptied : ℕ → Vm → ℕ → ℕ → PteEntry
emptied i v =
    let s = v.swap_pool i in
    if s.sw_asid == minus 1
    then v.page_tables
    else replace s.sw_pte.0 s.sw_pte.1 (cleared (v.page_tables s.sw_pte.0 s.sw_pte.1)) v.page_tables

pub evict_lem :
    (i : ℕ) (v : Vm)
    → IsReady v
    → ((evict i v).0 ≡ v.ready) × Same v (evict i v).1 × ((evict i v).1.page_tables ≡ emptied i v)
unfolding evict flash_operation mark_page_not_valid
evict_lem i v h = elim (Bool-cases ((v.swap_pool i).sw_asid == minus 1)) [
  | inl e ↦ rw e (refl, (refl, refl, refl, refl), refl)
  | inr e ↦ rw e (h v.answered, (refl, refl, refl, refl), refl)
]

module _ (i : ℕ) (v : Vm) (h : IsSwapPool v) (b : i < 16) where
  abbrev pub Occupied : ℕ → Type 0
  Occupied j = (v.swap_pool j).sw_asid ≢ minus 1

  emptied_used :
      Occupied i
      → emptied i v ≡ (
          let s = v.swap_pool i in
          replace s.sw_asid s.sw_page_no
            (cleared (v.page_tables s.sw_asid s.sw_page_no))
            v.page_tables)
  unfolding IsPool
  emptied_used o =
      let e : ((v.swap_pool i).sw_asid == minus 1) ≡ false = ground (arith, o) in
      let f = (h i b o).0 in rw (e, f) refl

  pub emptied-IsBacked : (j : ℕ) → j < 16 → (j ≡ i → ⊥) → IsBacked v.swap_pool (emptied i v) j
  unfolding IsPool
  emptied-IsBacked j c ne = elim (Bool-cases ((v.swap_pool i).sw_asid == minus 1)) [
    | inl e ↦ rw e (h j c)
    | inr e ↦
        let o : Occupied i = λ x. ground (arith, x, e) in
        rw (emptied_used o) (
          replace-IsBacked v.swap_pool v.page_tables _ _ j _ (h j c)
            (λ _ same. ne (one_frame v.swap_pool v.page_tables i j h b c o same)))
  ]

  -- The page that was in the frame has no valid entry.
  pub emptied-victim :
      Occupied i → is_valid (emptied i v (v.swap_pool i).sw_asid (v.swap_pool i).sw_page_no) ≡ false
  emptied-victim o =
      let s = v.swap_pool i in
      rw
        (
          emptied_used o,
          replace_same s.sw_asid s.sw_page_no (cleared (v.page_tables s.sw_asid s.sw_page_no))
              v.page_tables,
        )
        (ground arith)

  pub emptied_other :
      (a p : ℕ) → is_valid (v.page_tables a p) ≡ false → emptied i v a p ≡ v.page_tables a p
  unfolding IsPool
  emptied_other a p n = elim (Bool-cases ((v.swap_pool i).sw_asid == minus 1)) [
    | inl e ↦ rw e refl
    | inr e ↦
        let o : Occupied i = λ x. ground (arith, x, e) in
        rw (emptied_used o) (
          replace_other _ _ _ v.page_tables a p
            (λ x y. invalid_elsewhere v.swap_pool v.page_tables a p i b (h i b) n o (sym x, sym y)))
  ]
