-- ===== src/Nucleus/Soft.antt =====
-- The processes that wait for a device or the clock: the number that `softBlockCount` stands for.
pub mod Queues
pub mod Finish
pub mod Steps
pub mod Services
pub mod Processes
pub mod Interrupts
pub mod Handlers
pub mod Reach
pub mod Deadlock
use pand_aossh.Prelude.{
  ℕ, zero, suc, ◌+◌, ◌*◌, ◌≤◌, ◌<◌, ◌≡◌, ◌≢◌, refl, sym, ap, ◌∙◌, subst, Bool, true, false, ◌||◌,
  Option, none, some, List, [], ◌∷◌, arith, ◌==◌, ltb, if◌then◌else◌, inl, inr, Bool-cases, ==→eq,
  ==_refl,
}
use pand_aossh.Prelude.Counts.{one, occurs, held}
use pand_aossh.Types.{Pcb, Phase1}
use pand_aossh.Phase1.Pcb.{max_proc, set_pcb}
use pand_aossh.Phase1.Asl.Invariant.{queue}
use pand_aossh.Nucleus.Globals.{Kernel, Outcome, is_device_semaphore, pseudoclk_sem}
use pand_aossh.Nucleus.Places.{Placed, waiting, inside}

-- The semaphores of the devices and of the clock.
abbrev pub is_soft : (base sem : ℕ) → Bool
is_soft base sem = is_device_semaphore base sem || (sem == base + 4 * pseudoclk_sem)

abbrev pub bit_of : Bool → ℕ
bit_of b = if b then 1 else 0

-- 1 for a block that waits on one of them.
abbrev pub soft : (base : ℕ) → Phase1 → ℕ → ℕ
soft base s a = if is_soft base (s.table a).p_sem_add then waiting s a else 0

unfoldable pub total : (ℕ → ℕ) → ℕ → ℕ
total f zero = 0
total f (suc n) = f n + total f n

abbrev pub soft_waiters : (base : ℕ) → Phase1 → ℕ
soft_waiters base s = total (soft base s) max_proc

-- `softBlockCount` is the number of the processes that wait for a device or the clock.
abbrev pub IsCounted : (base : ℕ) → Kernel → Type 0
IsCounted base k = (k.dev_sems ≡ base) × (k.soft_block_count ≡ soft_waiters base k.phase1)

-- After a handler.
abbrev pub Counted : (base : ℕ) → Kernel × Outcome → Type 0
Counted base r = IsCounted base r.0

pub total-same : (f g : ℕ → ℕ) (n : ℕ) → ((a : ℕ) → f a ≡ g a) → total f n ≡ total g n
unfolding total
total-same f g zero h = refl
total-same f g (suc n) h = let e = h n in let r = total-same f g n h in omega (arith, e, r)

-- Only the value at p differs, by c.
pub total-drop :
    (p c : ℕ) (f g : ℕ → ℕ) (n : ℕ)
    → ((a : ℕ) → g a + (if a == p then c else 0) ≡ f a)
    → total g n + (if ltb p n then c else 0) ≡ total f n
unfolding total
total-drop p c f g zero h = ground arith
total-drop p c f g (suc n) h = let e = h n in let r = total-drop p c f g n h in ground (arith, e, r)

total_le : (f : ℕ → ℕ) (n : ℕ) → ((a : ℕ) → f a ≤ 1) → total f n ≤ n
unfolding total
total_le f zero h = omega arith
total_le f (suc n) h = let e = h n in let r = total_le f n h in omega (arith, e, r)

-- The two agree on who waits where.
pub record SameWaits (s t : Phase1) : Type 0 where
  pub semds : t.semd_h ≡ s.semd_h
  pub sems : (a : ℕ) → (t.table a).p_sem_add ≡ (s.table a).p_sem_add

pub SameWaits-soft :
    (base : ℕ) (s t : Phase1) → SameWaits s t → soft_waiters base t ≡ soft_waiters base s
SameWaits-soft base s t h = total-same (soft base t) (soft base s) max_proc (λ a.
    let w : (j : ℕ) → occurs a (queue t j) ≡ occurs a (queue s j) = λ j. rw h.semds refl in
    let e = h.sems a in
    let f : waiting t a ≡ waiting s a =
      ap (λ j. occurs a (queue t j)) e ∙ w (s.table a).p_sem_add in
    let i : is_soft base (t.table a).p_sem_add ≡ is_soft base (s.table a).p_sem_add =
      ap (is_soft base) e in
    ground (arith, f, i))

soft_gone :
    (b d c : Bool) (m n : ℕ)
    → m ≡ 0
    → n ≡ 1
    → d ≡ c
    → (if b then m else 0) + bit_of c ≡ (if d then n else 0)
soft_gone b d c m n e f g = ground arith

soft_kept : (b d : Bool) (m n : ℕ) → b ≡ d → m ≡ n → (if b then m else 0) + 0 ≡ (if d then n else 0)
soft_kept b d m n e f = ground arith

soft_none : (b d : Bool) (m n : ℕ) → m ≡ 0 → n ≡ 0 → (if b then m else 0) + 0 ≡ (if d then n else 0)
soft_none b d m n e f = ground arith

module _ {hand : List ℕ} {current yielder : Option ℕ} {ready : List ℕ} {active : List (Option ℕ)}
    (base : ℕ) (s t : Phase1) (p : ℕ) (frees : t.pcb_free ≡ s.pcb_free)
    (sems : (a : ℕ) → (a == p) ≡ false → (t.table a).p_sem_add ≡ (s.table a).p_sem_add) where
  -- In s the block waits, in t it is in hand.
  pub moved_soft :
      Placed hand current yielder ready active s
      → Placed (p ∷ hand) current yielder ready active t
      → soft_waiters base t + bit_of (is_soft base (s.table p).p_sem_add) ≡ soft_waiters base s
  moved_soft v w =
      let c : ℕ = bit_of (is_soft base (s.table p).p_sem_add) in
      let small : ltb p max_proc ≡ true =
        let e = w.place p in let r = ==_refl p in ground (arith, e, r) in
      let d = total-drop p c (soft base s) (soft base t) max_proc (λ a.
        let e = v.place a in
        let f = w.place a in
        let g = ap (occurs a) frees in
        elim (Bool-cases (a == p)) [
          | inl here ↦
              let same = ==→eq a p here in
              let r : (p == a) ≡ true = let r = ==_refl a in ground (arith, same, r) in
              let i : is_soft base (s.table a).p_sem_add ≡ is_soft base (s.table p).p_sem_add =
                ap (λ b. is_soft base (s.table b).p_sem_add) same in
              let small_a : inside a ≤ 1 = ground arith in
              let left : (waiting t a ≡ 0) × (waiting s a ≡ 1) =
                ground (arith, e, f, g, r, small_a) in
              subst (λ b. soft base t a + (if b then c else 0) ≡ soft base s a) (sym here)
                (soft_gone (is_soft base (t.table a).p_sem_add) (is_soft base (s.table a).p_sem_add)
                  _ _ _ left.0 left.1 i)
          | inr away ↦
              let r : (p == a) ≡ false = ground (arith, away) in
              let stays : waiting t a ≡ waiting s a = ground (arith, e, f, g, r) in
              subst (λ b. soft base t a + (if b then c else 0) ≡ soft base s a) (sym away)
                (soft_kept (is_soft base (t.table a).p_sem_add) (is_soft base (s.table a).p_sem_add)
                  _ _ (ap (is_soft base) (sems a away)) stays)
        ]) in
      ground (arith, d, small)

  -- In both the block is in hand.
  pub hand_soft :
      Placed (p ∷ hand) current yielder ready active s
      → Placed (p ∷ hand) current yielder ready active t
      → soft_waiters base t ≡ soft_waiters base s
  hand_soft v w = total-same (soft base t) (soft base s) max_proc (λ a.
      let e = v.place a in
      let f = w.place a in
      let g = ap (occurs a) frees in
      let small_a : inside a ≤ 1 = ground arith in
      let h : soft base t a + 0 ≡ soft base s a = elim (Bool-cases (a == p)) [
        | inl here ↦
            let same = ==→eq a p here in
            let r : (p == a) ≡ true = let r = ==_refl a in ground (arith, same, r) in
            let none_left : (waiting t a ≡ 0) × (waiting s a ≡ 0) =
              ground (arith, e, f, g, r, small_a) in
            soft_none (is_soft base (t.table a).p_sem_add) (is_soft base (s.table a).p_sem_add) _ _
              none_left.0 none_left.1
        | inr away ↦
            let stays : waiting t a ≡ waiting s a = omega (arith, e, f, g) in
            soft_kept (is_soft base (t.table a).p_sem_add) (is_soft base (s.table a).p_sem_add) _ _
              (ap (is_soft base) (sems a away)) stays
      ] in
      omega (arith, h))

-- A write to a block that waits nowhere.
pub write_soft :
    (base : ℕ) (s : Phase1) (p : ℕ) (c : Pcb)
    → waiting s p ≡ 0
    → occurs p (queue s c.p_sem_add) ≡ 0
    → soft_waiters base (set_pcb p c s) ≡ soft_waiters base s
write_soft base s p c h g =
    let t = set_pcb p c s in
    total-same (soft base t) (soft base s) max_proc (λ a.
      let r : soft base t a + 0 ≡ soft base s a = elim (Bool-cases (a == p)) [
        | inl here ↦
            let same = ==→eq a p here in
            let at : t.table a ≡ c = ap (λ b. if b then c else s.table a) here in
            let w_t : waiting t a ≡ 0 =
              ap (λ (d : Pcb). occurs a (queue s d.p_sem_add)) at
              ∙ ap (λ b. occurs b (queue s c.p_sem_add)) same
              ∙ g in
            let w_s : waiting s a ≡ 0 = ap (waiting s) same ∙ h in
            soft_none (is_soft base (t.table a).p_sem_add) (is_soft base (s.table a).p_sem_add) _ _
              w_t w_s
        | inr away ↦
            let at : t.table a ≡ s.table a = ap (λ b. if b then c else s.table a) away in
            let e : (t.table a).p_sem_add ≡ (s.table a).p_sem_add =
              ap (λ (d : Pcb). d.p_sem_add) at in
            soft_kept (is_soft base (t.table a).p_sem_add) (is_soft base (s.table a).p_sem_add) _ _
              (ap (is_soft base) e) (ap (λ j. occurs a (queue s j)) e)
      ] in
      omega (arith, r))

-- Neither who waits nor the two variables changed.
pub record KeepsCount (k t : Kernel) : Type 0 where
  pub waits : SameWaits k.phase1 t.phase1
  pub devices : t.dev_sems ≡ k.dev_sems
  pub count : t.soft_block_count ≡ k.soft_block_count

pub KeepsCount-IsCounted :
    (base : ℕ) (k t : Kernel) → KeepsCount k t → IsCounted base k → IsCounted base t
KeepsCount-IsCounted base k t h (d, n) =
    (h.devices ∙ d, h.count ∙ n ∙ sym (SameWaits-soft base k.phase1 t.phase1 h.waits))
