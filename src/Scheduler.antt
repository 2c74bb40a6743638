-- ===== src/Scheduler.antt =====
-- src/windows-emulator/windows_emulator.cpp and process_context.hpp: the switch from one guest thread to
-- another, and the choice of the next one.
pub mod Switch
pub mod Next
use emulator_momo.Common.{
  ℕ, ◌+◌, Bool, true, false, Option, none, some, List, [], ◌∷◌, Dict, lookup, put, ◌==◌,
  if◌then◌else◌, Result, ok, thrown, ◌>>=◌,
}
use emulator_momo.Objects.{Thread, Process, is_thread_ready}

-- The process, the index of the active thread, the registers of the emulator as `save_registers` gives
-- them, and how often the clock was read.
pub record System : Type 0 where
  pub process : Process
  pub active : Option ℕ
  pub registers : List ℕ
  pub readings : ℕ

abbrev pub threads_of : System → Dict Thread
threads_of s = s.process.threads.entries

abbrev pub with_threads : Dict Thread → System → System
with_threads m s = record s {
  process = record s.process { threads = record s.process.threads { entries = m } };
}

-- A write through the pointer to the thread of an index.
abbrev pub set_thread : ℕ → Thread → System → System
set_thread k t s = with_threads (put k t (threads_of s)) s

abbrev pub is_active : Option ℕ → ℕ → Bool
is_active none k = false
is_active (some a) k = a == k

abbrev pub indices : Dict Thread → List ℕ
indices [] = []
indices ((k, t) ∷ m) = k ∷ indices m

-- `clock n` is what the clock gives when it is read the n-th time; a test of a thread reads it once at
-- most. `set_rax` and `setup_registers` change the registers: the second gives a new thread its first
-- ones.
module _ (clock : ℕ → ℕ) (set_rax : ℕ → List ℕ → List ℕ)
    (setup_registers : Thread → List ℕ → List ℕ) where
  abbrev answer_pending : Option ℕ → List ℕ → List ℕ
  answer_pending none registers = registers
  answer_pending (some status) registers = set_rax status registers

  -- `setup_if_necessary` on the thread `t` of the index `k`
  unfoldable pub setup_if_necessary : ℕ → Thread → System → System
  setup_if_necessary k t s =
      let registers =
        if t.executed_instructions == 0 then setup_registers t s.registers else s.registers in
      record (set_thread k (record t { pending_status = none }) s) {
        registers = answer_pending t.pending_status registers;
      }

  -- `active_thread->save(emu)`, if there is one
  unfoldable pub save_active : Option ℕ → System → System
  save_active none s = s
  save_active (some a) s = elim (lookup a (threads_of s)) [
    | none ↦ s
    | some t ↦ set_thread a (record t { last_registers = s.registers }) s
  ]

  -- `switch_to_thread` behind its test.
  unfoldable pub enter : ℕ → Thread → System → System
  unfolding setup_if_necessary save_active
  enter k t s =
      let other =
        setup_if_necessary k t
          (record (save_active s.active s) { active = some k; registers = t.last_registers }) in
      if is_active s.active k then setup_if_necessary k t s else other

  unfoldable pub switch_to_thread : ℕ → System → Result (Bool × System)
  unfolding enter
  switch_to_thread k s = elim (lookup k (threads_of s)) [
    | none ↦ thrown
    | some t ↦ is_thread_ready (clock s.readings) s.process t >>= λ r.
        let s' = set_thread k r.1 (record s { process = r.2; readings = s.readings + 1 }) in
        ok (if r.0 then (true, enter k r.1 s') else (false, s'))
  ]

  -- The first loop, over the indices that are left; `next_thread` tells whether the active thread has been passed.
  unfoldable pub from_active : List ℕ → Bool → System → Result (Bool × System)
  from_active [] next_thread s = ok (false, s)
  from_active (k ∷ ks) next_thread s =
      let skip = from_active ks (is_active s.active k) s in
      let try = switch_to_thread k s >>= λ r.
      let rest = from_active ks true r.1 in if r.0 then ok (true, r.1) else rest in
      if next_thread then try else skip

  -- The second loop.
  unfoldable pub from_first : List ℕ → System → Result (Bool × System)
  from_first [] s = ok (false, s)
  from_first (k ∷ ks) s = switch_to_thread k s >>= λ r.
      let rest = from_first ks r.1 in if r.0 then ok (true, r.1) else rest

  -- `work` is what the devices do.
  unfoldable pub switch_to_next_thread : (System → System) → System → Result (Bool × System)
  unfolding from_active from_first
  switch_to_next_thread work s₀ =
      let s = work s₀ in
      from_active (indices (threads_of s)) false s >>= λ r.
      let rest = from_first (indices (threads_of r.1)) r.1 in if r.0 then ok (true, r.1) else rest
