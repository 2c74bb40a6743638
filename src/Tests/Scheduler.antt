-- ===== src/Tests/Scheduler.antt =====
-- Two threads, of which the first is active, and the theorems on switches and alerts at concrete inputs.
use emulator_momo.Common.{
  ℕ, ◌≡◌, refl, true, false, none, some, List, [], ◌∷◌, Dict, lookup, ok, Returns,
}
use emulator_momo.Objects.{Thread}
use emulator_momo.Objects.Ready.{IsRunnable}
use emulator_momo.Scheduler.{System, threads_of, switch_to_thread, switch_to_next_thread}
use emulator_momo.Scheduler.Switch.{Switched, entered, switch_to_thread-Switched}
use emulator_momo.Scheduler.Next.{behind, switch_to_next_thread-Follows}
use emulator_momo.Syscalls.Threads.{handle_nt_wait_for_alert_by_thread_id}

abbrev thread_with : ℕ → Thread
thread_with id = record {
  stack_base = 0x20000;
  stack_size = 0x40000;
  start_address = 0x1000;
  argument = 0;
  executed_instructions = 5;
  name = [];
  gs_segment = none;
  teb = none;
  last_registers = id ∷ [];
  id = id;
  exit_status = none;
  await_objects = [];
  await_any = false;
  waiting_for_alert = false;
  alerted = false;
  await_time = none;
  pending_status = none;
}

abbrev system_with : Dict Thread → System
system_with m = record {
  process = record {
    events = record { block_mutation = false; entries = [] };
    mutants = record { block_mutation = false; entries = [] };
    threads = record { block_mutation = false; entries = m };
  };
  active = some 1;
  registers = 9 ∷ [];
  readings = 0;
}

abbrev pair : System
pair = system_with ((1, thread_with 7) ∷ (2, thread_with 8) ∷ [])

abbrev ticks : ℕ → ℕ
ticks n = n

abbrev put_rax : ℕ → List ℕ → List ℕ
put_rax v r = v ∷ r

abbrev first_registers : Thread → List ℕ → List ℕ
first_registers t r = t.start_address ∷ r

second_stored : lookup 2 (threads_of pair) ≡ some (thread_with 8)
unfolding lookup
second_stored = refl

idle-IsRunnable : IsRunnable (thread_with 8)
idle-IsRunnable = record { alive = refl; unalerted = refl; objects = refl; time = refl }

switch_to_thread-Switched_example :
    Returns
      (switch_to_thread ticks put_rax first_registers 2 pair)
      (Switched ticks put_rax first_registers 2 (thread_with 8) pair)
switch_to_thread-Switched_example =
    switch_to_thread-Switched ticks put_rax first_registers 2 (thread_with 8) pair second_stored tt

switch_to_next_thread-Follows_example :
    (switch_to_next_thread ticks put_rax first_registers (λ s. s) pair
      ≡ ok (true, entered ticks put_rax first_registers 2 (thread_with 8) pair))
    × ((entered ticks put_rax first_registers 2 (thread_with 8) pair).active ≡ some 2)
switch_to_next_thread-Follows_example =
    switch_to_next_thread-Follows ticks put_rax first_registers (λ s. s) pair 1 2 (thread_with 8)
      refl (behind [] [] (thread_with 7) (thread_with 8) refl tt) second_stored idle-IsRunnable

abbrev sleeper : Thread
sleeper = (handle_nt_wait_for_alert_by_thread_id (thread_with 8) none).1

abbrev sleeping : System
sleeping = system_with ((1, thread_with 7) ∷ (2, sleeper) ∷ [])
