-- ===== src/Scheduler/Next.antt =====
-- src/windows-emulator/windows_emulator.cpp: the turns that `switch_to_next_thread` gives.
use emulator_momo.Common.{
  ℕ, ◌≡◌, refl, ◌∙◌, ap, Bool, true, false, some, List, [], ◌∷◌, ◌++◌, Dict, All, lookup, eq→==,
  ◌==◌, if◌then◌else◌, Result, ok, ◌>>=◌,
}
use emulator_momo.Objects.{Thread}
use emulator_momo.Objects.Ready.{IsRunnable}
use emulator_momo.Scheduler.{
  System, threads_of, is_active, switch_to_thread, from_active, from_first, indices,
  switch_to_next_thread,
}
use emulator_momo.Scheduler.Switch.{entered, enter-active, switch-idle}

-- No thread of the list has the index `a`.
abbrev pub Without : ℕ → Dict Thread → Type 0
Without a = All (λ e. (a == e.0) ≡ false)

-- The thread `k` comes behind the thread `a`, or is the first one where `a` is the last.
pub data Follows (m : Dict Thread) (a k : ℕ) : Type 0 where
  behind :
      (front back : Dict Thread) (t u : Thread)
      → m ≡ front ++ (a, t) ∷ (k, u) ∷ back
      → Without a front
      → Follows m a k
  around :
      (middle : Dict Thread) (t u : Thread)
      → m ≡ (k, u) ∷ middle ++ (a, t) ∷ []
      → Without a ((k, u) ∷ middle)
      → Follows m a k

module _ (clock : ℕ → ℕ) (set_rax : ℕ → List ℕ → List ℕ)
    (setup_registers : Thread → List ℕ → List ℕ) (a : ℕ) (s : System)
    (active : s.active ≡ some a) where
  abbrev from : List ℕ → Bool → Result (Bool × System)
  from ks passed = from_active clock set_rax setup_registers ks passed s

  is_active-here : (k : ℕ) → is_active s.active k ≡ (a == k)
  is_active-here k = ap (λ o. is_active o k) active

  -- The loop passes over the threads in front of the active one.
  from_active-front :
      (front rest : Dict Thread)
      → Without a front
      → from (indices (front ++ rest)) false ≡ from (indices rest) false
  unfolding from_active
  from_active-front [] rest w = refl
  from_active-front ((k, t) ∷ front) rest w =
      ap (from (indices (front ++ rest))) (is_active-here k ∙ w.0)
      ∙ from_active-front front rest w.1

  from_active-passed :
      (t : Thread) (rest : Dict Thread)
      → from (indices ((a, t) ∷ rest)) false ≡ from (indices rest) true
  unfolding from_active
  from_active-passed t rest = ap (from (indices rest)) (is_active-here a ∙ eq→== a a refl)

  module _ (k : ℕ) (u : Thread) (stored : lookup k (threads_of s) ≡ some u)
      (idle : IsRunnable u) where
    abbrev result : System
    result = entered clock set_rax setup_registers k u s

    chosen : switch_to_thread clock set_rax setup_registers k s ≡ ok (true, result)
    chosen = switch-idle clock set_rax setup_registers k u s stored idle

    from_active-next : (ks : List ℕ) → from (k ∷ ks) true ≡ ok (true, result)
    unfolding from_active
    from_active-next ks = rw chosen refl

    from_first-next :
        (ks : List ℕ) → from_first clock set_rax setup_registers (k ∷ ks) s ≡ ok (true, result)
    unfolding from_first
    from_first-next ks = rw chosen refl

    -- The second loop, where the first found no thread.
    abbrev then_first : Result (Bool × System) → Result (Bool × System)
    then_first first = first >>= λ r.
        let rest = from_first clock set_rax setup_registers (indices (threads_of r.1)) r.1 in
        if r.0 then ok (true, r.1) else rest

    nothing_behind : from [] true ≡ ok (false, s)
    unfolding from_active
    nothing_behind = refl

    turn :
        (m : Dict Thread)
        → threads_of s ≡ m
        → Follows m a k
        → then_first (from (indices m) false) ≡ ok (true, result)
    turn m e (behind front back t v f w) = ap then_first (
        ap (λ (n : Dict Thread). from (indices n) false) f
        ∙ from_active-front front ((a, t) ∷ (k, v) ∷ back) w
        ∙ from_active-passed t ((k, v) ∷ back)
        ∙ from_active-next (indices back))
    turn m e (around middle t v f w) =
        ap then_first (
          ap (λ (n : Dict Thread). from (indices n) false) f
          ∙ from_active-front ((k, v) ∷ middle) ((a, t) ∷ []) w
          ∙ from_active-passed t []
          ∙ nothing_behind)
        ∙ ap (λ (n : Dict Thread). from_first clock set_rax setup_registers (indices n) s) (e ∙ f)
        ∙ from_first-next (indices (middle ++ (a, t) ∷ []))

-- Where the thread that comes behind the active one in the order of the indices, or the first one where the active
-- thread is the last, has not ended and waits for nothing after the devices have worked, the choice of the next thread ends with a switch to it.
pub switch_to_next_thread-Follows :
    (clock : ℕ → ℕ) (set_rax : ℕ → List ℕ → List ℕ) (setup_registers : Thread → List ℕ → List ℕ)
    (work : System → System) (s : System) (a k : ℕ) (u : Thread)
    → (work s).active ≡ some a
    → Follows (threads_of (work s)) a k
    → lookup k (threads_of (work s)) ≡ some u
    → IsRunnable u
    → (switch_to_next_thread clock set_rax setup_registers work s
        ≡ ok (true, entered clock set_rax setup_registers k u (work s)))
      × ((entered clock set_rax setup_registers k u (work s)).active ≡ some k)
unfolding switch_to_next_thread
switch_to_next_thread-Follows clock set_rax setup_registers work s a k u active follows stored
      idle =
    (
      turn clock set_rax setup_registers a (work s) active k u stored idle (threads_of (work s))
          refl follows,
      enter-active clock set_rax setup_registers k u _,
    )
