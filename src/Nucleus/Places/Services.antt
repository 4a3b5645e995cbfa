-- ===== src/Nucleus/Places/Services.antt =====
-- Every service of the Nucleus keeps each block in one place.
use pand_aossh.Prelude.{ℕ, ◌≡◌, ◌≢◌, refl, ◌∙◌, Option, none, some, [], arith, ◌==◌, ◌||◌, if-split}
use pand_aossh.Prelude.Words.{is_neg}
use pand_aossh.Phase1.Asl.{remove_blocked}
use pand_aossh.Nucleus.Globals.{
  Kernel, ldst, update_cpu_time, pcb_of, copy_state, dec_mem, inc_mem, dev_sem, pseudoclk_sem,
}
use pand_aossh.Nucleus.Process.{block_current_process}
use pand_aossh.Nucleus.Syscalls.{
  passeren, wake, release, verhogen, doio, doio_sem, get_time, clock_wait, get_support_ptr,
  get_process_id, yield,
}
use pand_aossh.Nucleus.Running.{update_cpu_time-Stays}
use pand_aossh.Nucleus.Running.Services.{release-Stays}
use pand_aossh.Nucleus.Places.{Placed, PlacedIn, move-Placed, write-Placed}
use pand_aossh.Nucleus.Places.Moves.{ready-Placed}
use pand_aossh.Nucleus.Places.Blocked.{grab, hand-Placed, remove-Placed}
use pand_aossh.Nucleus.Places.Choice.{
  IsSound, scheduler-IsSound, update_cpu_time-PlacedIn, block_current_process-IsSound,
}

wake-PlacedIn : (o : Option ℕ) (k : Kernel) → PlacedIn (grab o []) k → PlacedIn [] (wake o k)
unfolding wake
wake-PlacedIn none k v = v
wake-PlacedIn (some u) k v = ready-Placed _ _ u (hand-Placed k.phase1 u _ v refl refl)

pub release-PlacedIn : (sem : ℕ) (k : Kernel) → PlacedIn [] k → PlacedIn [] (release sem k)
unfolding release
release-PlacedIn sem k v =
    let r = remove_blocked sem k.phase1 in
    wake-PlacedIn r.0 (record k { phase1 = r.1 }) (remove-Placed k.phase1 sem v)

-- The running process p, when a service starts.
module _ (p : ℕ) (k : Kernel) (v : PlacedIn [] k) (y : k.yielded_process ≡ none)
    (c : k.current_process ≡ some p) where
  -- The caller's state is saved, and words of the memory and of the saved state may change.
  saved-PlacedIn : PlacedIn [] (copy_state p k.saved_state (update_cpu_time k))
  saved-PlacedIn =
      write-Placed (update_cpu_time k).phase1 p _ (update_cpu_time-PlacedIn k v) refl refl refl

  saved-yielder : (update_cpu_time k).yielded_process ≡ none
  saved-yielder = (update_cpu_time-Stays k).0 ∙ y

  saved-current : (update_cpu_time k).current_process ≡ some p
  saved-current = (update_cpu_time-Stays k).1 ∙ c

  pub passeren-IsSound : k.saved_state.reg_a1 ≢ 0 → IsSound (passeren p k)
  unfolding passeren
  passeren-IsSound z =
      let sem = k.saved_state.reg_a1 in
      let k1 = dec_mem sem (copy_state p k.saved_state (update_cpu_time k)) in
      if-split IsSound (is_neg (k1.mem sem)) (block_current_process sem k1)
        (k1, ldst (pcb_of k1 p).p_s)
        (λ _.
          block_current_process-IsSound sem p k1 (ground (arith, z)) saved-PlacedIn saved-yielder
            saved-current)
        (λ _. (saved-PlacedIn, saved-yielder, tt))

  pub verhogen-IsSound : IsSound (verhogen p k)
  unfolding verhogen
  verhogen-IsSound =
      let sem = k.saved_state.reg_a1 in
      let k1 = inc_mem sem (copy_state p k.saved_state (update_cpu_time k)) in
      let a = k1.mem sem in
      if-split (λ (t : Kernel). IsSound (t, ldst (pcb_of t p).p_s)) (is_neg a || (a == 0))
        (release sem k1) k1
        (λ _.
          (release-PlacedIn sem k1 saved-PlacedIn, (release-Stays sem k1).0 ∙ saved-yielder, tt))
        (λ _. (saved-PlacedIn, saved-yielder, tt))

  pub doio-IsSound : k.dev_sems ≢ 0 → IsSound (doio p k)
  unfolding doio
  doio-IsSound d =
      block_current_process-IsSound (dev_sem k (doio_sem k.saved_state.reg_a1)) p _
        (ground (arith, d)) saved-PlacedIn saved-yielder saved-current

  pub clock_wait-IsSound : k.dev_sems ≢ 0 → IsSound (clock_wait p k)
  unfolding clock_wait
  clock_wait-IsSound d =
      block_current_process-IsSound (dev_sem k pseudoclk_sem) p _ (ground (arith, d)) saved-PlacedIn
        saved-yielder saved-current

  pub yield-IsSound : IsSound (yield p k)
  unfolding yield
  yield-IsSound =
      let k1 = copy_state p k.saved_state (update_cpu_time k) in
      let w : Placed [] (some p) none k1.ready_queue k1.active_procs k1.phase1 =
        rw (saved-current, saved-yielder) at saved-PlacedIn in
      scheduler-IsSound (record k1 { yielded_process = some p; current_process = none })
        (move-Placed w (λ a. omega arith)) refl

  pub asks-IsSound :
      IsSound (get_time p k) × IsSound (get_support_ptr p k) × IsSound (get_process_id p k)
  unfolding get_time get_support_ptr get_process_id
  asks-IsSound = ((update_cpu_time-PlacedIn k v, saved-yielder, tt), (v, y, tt), (v, y, tt))
