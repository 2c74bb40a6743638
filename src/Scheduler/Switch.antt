-- ===== src/Scheduler/Switch.antt =====
-- src/windows-emulator/windows_emulator.cpp: what a switch to a thread leaves.
use mathlib.Core.Bool.{false≢true}
use emulator_momo.Common.{
  ℕ, ◌+◌, ◌≡◌, refl, sym, ◌∙◌, ap, Bool, true, false, Option, none, some, List, Dict, lookup, put,
  lookup-put, eq→==, ==→eq, ok_injective, ◌==◌, if◌then◌else◌, Result, ok, Returns,
}
use emulator_momo.Objects.{Thread, Process, Answer, has_value}
use emulator_momo.Objects.Known.{AllKnown}
use emulator_momo.Objects.Ready.{
  IsRunnable, Settled, is_thread_ready-Settled, runnable_ready, if_cases, ended_test,
}
use emulator_momo.Scheduler.{
  System, threads_of, set_thread, is_active, setup_if_necessary, save_active, enter,
  switch_to_thread,
}

-- A thread that has run, waits for nothing, and is owed no status.
pub record IsIdle (t : Thread) : Type 0 where
  pub runnable : IsRunnable t
  pub started : (t.executed_instructions == 0) ≡ false
  pub settled : t.pending_status ≡ none

is_active-eq : (o : Option ℕ) (k : ℕ) → is_active o k ≡ true → o ≡ some k
is_active-eq none k e = absurd (false≢true e)
is_active-eq (some a) k e = ap some (==→eq a k e)

put-here {ℓ} : {V : Type ℓ} (k : ℕ) (v : V) (m : Dict V) → lookup k (put k v m) ≡ some v
put-here k v m = rw (lookup-put k k v m, eq→== k k refl) refl

module _ (clock : ℕ → ℕ) (set_rax : ℕ → List ℕ → List ℕ)
    (setup_registers : Thread → List ℕ → List ℕ) where
  abbrev go : ℕ → System → Result (Bool × System)
  go = switch_to_thread clock set_rax setup_registers

  -- The state after the test of a thread that is idle.
  abbrev pub tested : ℕ → Thread → System → System
  tested k t s = set_thread k t (record s { readings = s.readings + 1 })

  abbrev pub entered : ℕ → Thread → System → System
  entered k t s = enter clock set_rax setup_registers k t (tested k t s)

  pub switch-idle :
      (k : ℕ) (t : Thread) (s : System)
      → lookup k (threads_of s) ≡ some t
      → IsRunnable t
      → go k s ≡ ok (true, entered k t s)
  unfolding switch_to_thread
  switch-idle k t s e h =
      rw (e, switch_to_thread, runnable_ready (clock s.readings) s.process t h) refl

  -- What a switch that ends normally leaves: the thread that was chosen runs, waits for nothing and
  -- is owed no status; where it was not chosen, the active thread and the registers are as before.
  pub record Switched (k : ℕ) (t : Thread) (s : System) (r : Bool × System) : Type 0 where
    pub chosen : r.0 ≡ true → r.1.active ≡ some k
    pub runs :
        r.0 ≡ true
        → (t' : Thread) × (lookup k (threads_of r.1) ≡ some t')
          × IsRunnable t'
          × (t'.pending_status ≡ none)
    pub refused :
        r.0 ≡ false
        → (r.1.active ≡ s.active)
          × (r.1.registers ≡ s.registers)
          × (lookup k (threads_of r.1) ≡ some t)
    pub ended : has_value t.exit_status ≡ true → r.0 ≡ false

  pub enter-active :
      (k : ℕ) (t : Thread) (s : System)
      → (enter clock set_rax setup_registers k t s).active ≡ some k
  unfolding enter setup_if_necessary save_active
  enter-active k t s =
      if_cases (λ (x : System). x.active ≡ some k) (is_active s.active k) _ _
        (λ e. is_active-eq s.active k e) (λ _. refl)

  enter-thread :
      (k : ℕ) (t : Thread) (s : System)
      → lookup k (threads_of (enter clock set_rax setup_registers k t s))
        ≡ some (record t { pending_status = none })
  unfolding enter setup_if_necessary
  enter-thread k t s =
      if_cases (λ (x : System). lookup k (threads_of x) ≡ some (record t { pending_status = none }))
        (is_active s.active k) _ _ (λ _. put-here k _ _) (λ _. put-here k _ _)

  -- The state behind the test of the thread.
  after_test :
      (k : ℕ) (t t' : Thread) (s : System) (q : Process) (ready : Bool)
      → Settled s.process t (ready, t', q)
      → (has_value t.exit_status ≡ true → ready ≡ false)
      → let s' = set_thread k t' (record s { process = q; readings = s.readings + 1 }) in
        Switched k t s
          (if ready then (true, enter clock set_rax setup_registers k t' s') else (false, s'))
  after_test k t t' s q true h ended =
      let s' = set_thread k t' (record s { process = q; readings = s.readings + 1 }) in
      record {
        chosen = λ e. enter-active k t' s';
        runs = λ e. (
          record t' { pending_status = none },
          enter-thread k t' s',
          (let r = h.runs refl in
              record {
                alive = r.alive;
                unalerted = r.unalerted;
                objects = r.objects;
                time = r.time;
              }),
          refl,
        );
        refused = λ e. absurd (false≢true (sym e));
        ended = ended;
      }
  after_test k t t' s q false h ended = record {
    chosen = λ e. absurd (false≢true e);
    runs = λ e. absurd (false≢true e);
    refused = λ e. (refl, refl, put-here k t' _ ∙ ap some (h.waits refl));
    ended = λ e. refl;
  }

  -- A switch to a thread whose waits name objects ends without an exception. Where it succeeds, the thread is the active one, has not
  -- ended, waits for nothing, and is owed no status; where it does not, the active thread, the registers and the thread itself are as before. A
  -- thread that has ended is never switched to.
  pub switch_to_thread-Switched :
      (k : ℕ) (t : Thread) (s : System)
      → lookup k (threads_of s) ≡ some t
      → AllKnown s.process t.await_objects
      → Returns (go k s) (Switched k t s)
  unfolding switch_to_thread
  switch_to_thread-Switched k t s e known =
      let ((ready, t', q), run, h) = is_thread_ready-Settled (clock s.readings) s.process t known in
      (
        _,
        rw (e, switch_to_thread, run) refl,
        after_test k t t' s q ready h (λ x.
            ap (λ (r : Answer). r.0)
              (ok_injective (sym run ∙ ended_test (clock s.readings) s.process t x))),
      )
