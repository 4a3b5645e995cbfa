-- ===== src/Support/Vm/Pool.antt =====
-- The swap pool and the page tables: an occupied frame holds a page whose entry is valid and names
-- that frame.
use Prim.Native.Nat.{bit_or}
use pand_aossh.Prelude.{
  ℕ, zero, suc, ◌+◌, ◌/◌, ◌%◌, ◌<◌, ◌≡◌, ◌≢◌, refl, sym, ap, ◌∙◌, subst, Bool, true, false, arith,
  ◌==◌, update, ==→eq, Bool-cases, inl, inr,
}
use pand_aossh.Prelude.Words.{minus}
use pand_aossh.Prelude.Tables.{holds_below, holds_below_entry}
use pand_aossh.Types.{PteEntry}
use pand_aossh.Support.Vm.{
  is_valid, Vm, Swap, swap_pool_size, frame_addr, dirtyon, validon, free_frames,
}

-- The EntryLO of a page that is in frame i.
abbrev pub entry_lo : ℕ → ℕ
entry_lo i = bit_or (bit_or (frame_addr i) dirtyon) validon

-- Frame i is free, or it holds a page of which the entry is valid and names the frame.
abbrev pub IsBacked : (ℕ → Swap) → (ℕ → ℕ → PteEntry) → ℕ → Type 0
IsBacked pool tables i =
    (pool i).sw_asid ≢ minus 1
    → ((pool i).sw_pte ≡ ((pool i).sw_asid, (pool i).sw_page_no))
      × ((tables (pool i).sw_asid (pool i).sw_page_no).pte_entry_lo ≡ entry_lo i)

unfoldable pub IsPool : (ℕ → Swap) → (ℕ → ℕ → PteEntry) → Type 0
IsPool pool tables = (i : ℕ) → i < swap_pool_size → IsBacked pool tables i

abbrev pub IsSwapPool : Vm → Type 0
IsSwapPool v = IsPool v.swap_pool v.page_tables

abbrev names : ℕ → Bool
names i = (entry_lo i == frame_addr i + dirtyon + validon)

names_table : holds_below names 16 ≡ true
unfolding holds_below
names_table = refl

-- The frame and the two bits do not overlap.
entry_lo-add : (i : ℕ) → i < 16 → entry_lo i ≡ frame_addr i + dirtyon + validon
entry_lo-add i h = ==→eq _ _ (holds_below_entry names 16 names_table i h)

entry_lo-valid : (i : ℕ) → i < 16 → (entry_lo i / validon % 2) ≡ 1
entry_lo-valid i h = let e = entry_lo-add i h in omega (arith, e)

entry_lo-injective : (i j : ℕ) → i < 16 → j < 16 → entry_lo i ≡ entry_lo j → i ≡ j
entry_lo-injective i j a b h =
    let e = entry_lo-add i a in let f = entry_lo-add j b in omega (arith, e, f, h)

pub free_frames-free :
    (n : ℕ) (f : ℕ → Swap) (i : ℕ) → i < n → (free_frames n f i).sw_asid ≡ minus 1
unfolding free_frames
free_frames-free zero f i h = absurd (omega arith)
free_frames-free (suc n) f i h = ground (arith, free_frames-free n f i)

-- Entry p of page table a replaced.
abbrev pub replace : (a p : ℕ) → PteEntry → (ℕ → ℕ → PteEntry) → ℕ → ℕ → PteEntry
replace a p e tables = update tables a (update (tables a) p e)

pub replace_same :
    (a p : ℕ) (e : PteEntry) (tables : ℕ → ℕ → PteEntry) → replace a p e tables a p ≡ e
replace_same a p e tables = ground arith

pub replace_other :
    (a p : ℕ) (e : PteEntry) (tables : ℕ → ℕ → PteEntry) (b q : ℕ)
    → ((b ≡ a) → (q ≡ p) → ⊥)
    → replace a p e tables b q ≡ tables b q
replace_other a p e tables b q h = elim (Bool-cases (b == a)) [
  | inl x ↦ elim (Bool-cases (q == p)) [
    | inl y ↦ absurd (h (==→eq b a x) (==→eq q p y))
    | inr y ↦ rw (x, y) (ap (λ c. tables c q) (sym (==→eq b a x)))
  ]
  | inr x ↦ rw x
]

module _ (pool : ℕ → Swap) (tables : ℕ → ℕ → PteEntry) where
  abbrev Holds : ℕ → (a p : ℕ) → Type 0
  Holds j a p = ((pool j).sw_asid ≡ a) × ((pool j).sw_page_no ≡ p)

  pub replace-IsBacked :
      (a p j : ℕ) (e : PteEntry)
      → IsBacked pool tables j
      → ((pool j).sw_asid ≢ minus 1 → Holds j a p → ⊥)
      → IsBacked pool (replace a p e tables) j
  replace-IsBacked a p j e h ne occupied =
      let other =
        replace_other a p e tables (pool j).sw_asid (pool j).sw_page_no
          (λ x y. ne occupied (x, y)) in
      ((h occupied).0, ap (λ (e : PteEntry). e.pte_entry_lo) other ∙ (h occupied).1)

  -- A page whose entry is not valid is in no frame.
  pub invalid_elsewhere :
      (a p j : ℕ)
      → j < 16
      → IsBacked pool tables j
      → is_valid (tables a p) ≡ false
      → (pool j).sw_asid ≢ minus 1
      → Holds j a p
      → ⊥
  invalid_elsewhere a p j b h v occupied (x, y) =
      let e : entry_lo j ≡ (tables a p).pte_entry_lo = let g = (h occupied).1 in cc in
      let f : (tables a p).pte_entry_lo / validon % 2 ≡ 1 =
        subst (λ lo. lo / validon % 2 ≡ 1) e (entry_lo-valid j b) in
      ground (arith, f)

  -- No page is in two frames.
  pub one_frame :
      (i j : ℕ)
      → IsPool pool tables
      → i < 16
      → j < 16
      → (pool i).sw_asid ≢ minus 1
      → Holds j (pool i).sw_asid (pool i).sw_page_no
      → j ≡ i
  unfolding IsPool
  one_frame i j h a b occupied (x, y) =
      let f = (h i a occupied).1 in
      let g = (h j b (λ z. occupied (sym x ∙ z))).1 in entry_lo-injective j i b a cc
