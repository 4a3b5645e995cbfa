-- ===== src/Support/Vm/Release.antt =====
-- The end of a U-proc, the launch of one with the same ASID, and the Pager when a flash device
-- fails.
use pand_aossh.Prelude.{
  ℕ, zero, suc, ◌<◌, ◌≡◌, ◌≢◌, refl, sym, ap, ◌∙◌, false, arith, ◌==◌, ==→eq, eq→==, Bool-cases,
  inl, inr,
}
use pand_aossh.Prelude.Words.{minus}
use pand_aossh.Support.Vm.{
  is_valid, Vm, Swap, swap_pool_size, release_frames, sup_terminate, init_uproc_page_table,
  init_swap_structs, page_entry,
}
use pand_aossh.Support.Vm.Pool.{IsPool, IsSwapPool, free_frames-free}

-- Only the frames of the U-proc change.
pub release_frames_other :
    (n asid : ℕ) (f : ℕ → Swap) (i : ℕ) → (f i).sw_asid ≢ asid → release_frames n asid f i ≡ f i
unfolding release_frames
release_frames_other zero asid f i h = refl
release_frames_other (suc n) asid f i h =
    let e = release_frames_other n asid f i h in
    elim (Bool-cases ((f n).sw_asid == asid)) [
      | inr x ↦ rw x e
      | inl x ↦ elim (Bool-cases (i == n)) [
        | inr y ↦ rw (x, y) e
        | inl y ↦ absurd (h (ap (λ k. (f k).sw_asid) (==→eq i n y) ∙ ==→eq _ _ x))
      ]
    ]

pub release_frames_own :
    (n asid : ℕ) (f : ℕ → Swap) (i : ℕ)
    → i < n
    → (f i).sw_asid ≡ asid
    → (release_frames n asid f i).sw_asid ≡ minus 1
unfolding release_frames
release_frames_own zero asid f i b h = absurd (omega arith)
release_frames_own (suc n) asid f i b h = elim (Bool-cases (i == n)) [
  | inl y ↦
      let e : (f n).sw_asid ≡ asid = ap (λ k. (f k).sw_asid) (sym (==→eq i n y)) ∙ h in
      rw (eq→== _ _ e, y) refl
  | inr y ↦
      let c : i < n = ground arith in
      let rest = release_frames_own n asid f i c h in
      elim (Bool-cases ((f n).sw_asid == asid)) [ inl x ↦ rw (x, y) rest | inr x ↦ rw x rest ]
]

-- No frame is the U-proc's.
abbrev pub HasNoFrame : (asid : ℕ) → Vm → Type 0
HasNoFrame asid v = (i : ℕ) → i < swap_pool_size → (v.swap_pool i).sw_asid ≢ asid

pub sup_terminate-HasNoFrame :
    (asid : ℕ) (v : Vm) → asid ≢ minus 1 → HasNoFrame asid (sup_terminate asid v)
unfolding sup_terminate
sup_terminate-HasNoFrame asid v a i b g = elim (Bool-cases ((v.swap_pool i).sw_asid == asid)) [
  | inl x ↦ a (sym g ∙ release_frames_own 16 asid v.swap_pool i b (==→eq _ _ x))
  | inr x ↦
      let n : (v.swap_pool i).sw_asid ≢ asid = λ e. ground (arith, x, e) in
      n (ap (λ (s : Swap). s.sw_asid) (sym (release_frames_other 16 asid v.swap_pool i n)) ∙ g)
]

pub sup_terminate-IsSwapPool :
    (asid : ℕ) (v : Vm) → IsSwapPool v → IsSwapPool (sup_terminate asid v)
unfolding sup_terminate IsPool
sup_terminate-IsSwapPool asid v h i b = elim (Bool-cases ((v.swap_pool i).sw_asid == asid)) [
  | inl x ↦ λ o. absurd (o (release_frames_own 16 asid v.swap_pool i b (==→eq _ _ x)))
  | inr x ↦
      let n : (v.swap_pool i).sw_asid ≢ asid = λ e. ground (arith, x, e) in
      rw (release_frames_other 16 asid v.swap_pool i n) (h i b)
]

pub init_uproc_page_table-IsSwapPool :
    (asid : ℕ) (v : Vm)
    → HasNoFrame asid v
    → IsSwapPool v
    → IsSwapPool (init_uproc_page_table asid v)
unfolding init_uproc_page_table IsPool
init_uproc_page_table-IsSwapPool asid v n h i b =
    let other : ((v.swap_pool i).sw_asid == asid) ≡ false = ground (arith, n i b) in
    rw other (h i b)

pub init_uproc_page_table-invalid :
    (asid p : ℕ) (v : Vm)
    → p < 32
    → is_valid ((init_uproc_page_table asid v).page_tables asid p) ≡ false
unfolding init_uproc_page_table page_entry
init_uproc_page_table-invalid asid p v b = ground arith

-- The end of a U-proc and a launch with its ASID: no frame is the U-proc's, no page of its has a
-- valid entry, and every occupied frame still holds a page with a valid entry that names it.
pub relaunch-IsSwapPool :
    (asid : ℕ) (v : Vm)
    → asid ≢ minus 1
    → IsSwapPool v
    → HasNoFrame asid (init_uproc_page_table asid (sup_terminate asid v))
      × ((p : ℕ)
          → p < 32
          → is_valid ((init_uproc_page_table asid (sup_terminate asid v)).page_tables asid p)
            ≡ false)
      × IsSwapPool (init_uproc_page_table asid (sup_terminate asid v))
unfolding init_uproc_page_table
relaunch-IsSwapPool asid v a h =
    let t = sup_terminate asid v in
    let free = sup_terminate-HasNoFrame asid v a in
    (
      free,
      λ p. init_uproc_page_table-invalid asid p t,
      init_uproc_page_table-IsSwapPool asid t free (sup_terminate-IsSwapPool asid v h),
    )

pub init_swap_structs-IsSwapPool : (v : Vm) → IsSwapPool (init_swap_structs v)
unfolding init_swap_structs IsPool
init_swap_structs-IsSwapPool v i b o = absurd (o (free_frames-free 16 v.swap_pool i b))
