-- ===== src/Nucleus/Soft/Services.antt =====
-- The services keep the count of the processes that wait for a device or the clock.
use pand_aossh.Prelude.{
  ℕ, ◌+◌, ◌*◌, ◌≡◌, ◌≢◌, refl, sym, ◌∙◌, subst, false, ◌||◌, none, some, [], arith, ◌==◌, eq→==,
  if-split,
}
use pand_aossh.Prelude.Words.{inc32, is_neg}
use pand_aossh.Nucleus.Globals.{
  Kernel, ldst, is_device_semaphore, pseudoclk_sem, dev_sem, update_cpu_time, copy_state, dec_mem,
  inc_mem, pcb_of,
}
use pand_aossh.Nucleus.Process.{block_current_process}
use pand_aossh.Nucleus.Syscalls.{
  passeren, release, verhogen, doio, doio_sem, clock_wait, yield, get_time, get_support_ptr,
  get_process_id,
}
use pand_aossh.Nucleus.Running.{update_cpu_time-Stays}
use pand_aossh.Nucleus.Places.{PlacedIn, write-Placed}
use pand_aossh.Nucleus.Places.Choice.{update_cpu_time-PlacedIn}
use pand_aossh.Nucleus.Soft.{is_soft, IsCounted, Counted}
use pand_aossh.Nucleus.Soft.Queues.{soft_le}
use pand_aossh.Nucleus.Soft.Steps.{
  scheduler-IsCounted, update_cpu_time-IsCounted, write-IsCounted, device_counts, clock_apart,
  clock_counts, waits-IsCounted, release-IsCounted,
}

-- The running process p, when a service starts.
module _ (base p : ℕ) (k : Kernel) (v : PlacedIn [] k) (y : k.yielded_process ≡ none)
    (c : k.current_process ≡ some p) (n : IsCounted base k) where
  saved-IsCounted : IsCounted base (copy_state p k.saved_state (update_cpu_time k))
  saved-IsCounted =
      write-IsCounted base p _ (update_cpu_time k) refl (update_cpu_time-IsCounted base k n)

  saved-PlacedIn : PlacedIn [] (copy_state p k.saved_state (update_cpu_time k))
  saved-PlacedIn =
      write-Placed (update_cpu_time k).phase1 p _ (update_cpu_time-PlacedIn k v) refl refl refl

  saved-others :
      ((update_cpu_time k).yielded_process ≡ none) × ((update_cpu_time k).current_process ≡ some p)
  saved-others = let (a, b) = update_cpu_time-Stays k in (a ∙ y, b ∙ c)

  -- The caller waits on a semaphore that is not the clock's, while the memory may have changed.
  saved_waits :
      (sem : ℕ) (mem : ℕ → ℕ)
      → (sem == 0) ≡ false
      → (sem == base + 4 * pseudoclk_sem) ≡ false
      → IsCounted base
          (block_current_process sem
            (record (copy_state p k.saved_state (update_cpu_time k)) { mem = mem })).0
  saved_waits sem mem z e =
      let t = copy_state p k.saved_state (update_cpu_time k) in
      let (d, m) = saved-IsCounted in
      let l = soft_le base t.phase1 saved-PlacedIn in
      waits-IsCounted base sem p (record t { mem = mem }) z saved-PlacedIn saved-others.0
        saved-others.1 d
        (device_counts (is_device_semaphore base sem) (sem == base + 4 * pseudoclk_sem)
          t.soft_block_count _ e m l)

  pub passeren-IsCounted :
      k.saved_state.reg_a1 ≢ 0
      → k.saved_state.reg_a1 ≢ base + 4 * pseudoclk_sem
      → IsCounted base (passeren p k).0
  unfolding passeren
  passeren-IsCounted z e =
      let sem = k.saved_state.reg_a1 in
      let k1 = dec_mem sem (copy_state p k.saved_state (update_cpu_time k)) in
      if-split (Counted base) (is_neg (k1.mem sem)) (block_current_process sem k1)
        (k1, ldst (pcb_of k1 p).p_s)
        (λ _. saved_waits sem k1.mem (ground (arith, z)) (ground (arith, e))) (λ _. saved-IsCounted)

  pub verhogen-IsCounted :
      is_soft base k.saved_state.reg_a1 ≡ false → IsCounted base (verhogen p k).0
  unfolding verhogen
  verhogen-IsCounted z =
      let sem = k.saved_state.reg_a1 in
      let k1 = inc_mem sem (copy_state p k.saved_state (update_cpu_time k)) in
      let a = k1.mem sem in
      if-split (λ (t : Kernel). IsCounted base t) (is_neg a || (a == 0)) (release sem k1) k1
        (λ _. release-IsCounted base sem k1 z saved-PlacedIn saved-IsCounted) (λ _. saved-IsCounted)

  pub doio-IsCounted :
      base ≢ 0 → doio_sem k.saved_state.reg_a1 ≢ pseudoclk_sem → IsCounted base (doio p k).0
  unfolding doio
  doio-IsCounted z e =
      let d = n.0 in
      let i = doio_sem k.saved_state.reg_a1 in
      saved_waits (dev_sem k i) _ (ground (arith, z, d))
        (let f : i ≢ pseudoclk_sem = e in ground (arith, f, d))

  pub clock_wait-IsCounted : base ≢ 0 → IsCounted base (clock_wait p k).0
  unfolding clock_wait
  clock_wait-IsCounted z =
      let sem = dev_sem k pseudoclk_sem in
      let t = copy_state p k.saved_state (update_cpu_time k) in
      let k1 = dec_mem sem t in
      let (d, m) = saved-IsCounted in
      let l = soft_le base t.phase1 saved-PlacedIn in
      let at : sem ≡ base + 4 * pseudoclk_sem = let e = n.0 in omega (arith, e) in
      waits-IsCounted base sem p (record k1 { soft_block_count = inc32 k1.soft_block_count })
        (ground (arith, z, at)) saved-PlacedIn saved-others.0 saved-others.1 d
        (clock_counts (is_device_semaphore base sem) (sem == base + 4 * pseudoclk_sem)
          t.soft_block_count _
          (subst (λ j. is_device_semaphore base j ≡ false) (sym at) (clock_apart base))
          (eq→== sem _ at) m l)

  pub yield-IsCounted : IsCounted base (yield p k).0
  unfolding yield
  yield-IsCounted =
      let t = copy_state p k.saved_state (update_cpu_time k) in
      scheduler-IsCounted base (record t { yielded_process = some p; current_process = none })
        saved-IsCounted

  pub asks-IsCounted :
      IsCounted base (get_time p k).0
      × IsCounted base (get_support_ptr p k).0
      × IsCounted base (get_process_id p k).0
  unfolding get_time get_support_ptr get_process_id
  asks-IsCounted = (update_cpu_time-IsCounted base k n, n, n)
