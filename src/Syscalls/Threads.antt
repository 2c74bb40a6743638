-- ===== src/Syscalls/Threads.antt =====
-- src/windows-emulator/syscalls.cpp: the system calls that end, delay and alert threads. A limit of time
-- is the point in time that the argument of that name gives.
pub mod Alert
use emulator_momo.Common.{
  ℕ, Bool, true, false, Option, none, some, [], ◌∷◌, Dict, lookup, ◌==◌, if◌then◌else◌,
}
use emulator_momo.Handles.Value.{get_handle_value}
use emulator_momo.Handles.Store.{get, index_of}
use emulator_momo.Objects.{Thread, thread_kind, status_success}
use emulator_momo.Scheduler.{System, threads_of, with_threads, set_thread, is_active}
use emulator_momo.Syscalls.{status_invalid_handle, status_not_supported, await_time_of}

-- The index of the thread that `NtTerminateThread` ends: the null handle is the active thread.
unfoldable pub thread_to_end : System → ℕ → Option ℕ
thread_to_end s h =
    let named : Option ℕ = elim (get thread_kind s.process.threads h) [
      | none ↦ none
      | some t ↦ index_of thread_kind (get_handle_value h)
    ] in
    if h == 0 then s.active else named

-- The status, the state, and whether the active thread yields.
unfoldable pub handle_nt_terminate_thread : System → ℕ → ℕ → ℕ × System × Bool
unfolding thread_to_end
handle_nt_terminate_thread s h exit_status =
    let end : Option ℕ → ℕ × System × Bool = λ o. elim o [
      | none ↦ (status_invalid_handle, s, false)
      | some k ↦ elim (lookup k (threads_of s)) [
        | none ↦ (status_invalid_handle, s, false)
        | some t ↦ (
          status_success,
          set_thread k (record t { exit_status = some exit_status }) s,
          is_active s.active k,
        )
      ]
    ] in
    end (thread_to_end s h)

-- The status, the current thread, whether it yields, and whether the emulator stops.
unfoldable pub handle_nt_delay_execution : Thread → Bool → ℕ → ℕ × Thread × Bool × Bool
handle_nt_delay_execution t alertable time =
    if alertable
    then (status_not_supported, t, false, true)
    else (status_success, record t { await_time = some time }, true, false)

-- The loop of `NtAlertThreadByThreadId`: the status and the threads.
unfoldable pub alert_loop : ℕ → Dict Thread → ℕ × Dict Thread
alert_loop thread_id [] = (status_invalid_handle, [])
alert_loop thread_id ((k, t) ∷ m) =
    let (status, m') = alert_loop thread_id m in
    if t.id == thread_id
    then (status_success, (k, record t { alerted = true }) ∷ m)
    else (status, (k, t) ∷ m')

unfoldable pub handle_nt_alert_thread_by_thread_id : System → ℕ → ℕ × System
unfolding alert_loop
handle_nt_alert_thread_by_thread_id s thread_id =
    let (status, m) = alert_loop thread_id (threads_of s) in (status, with_threads m s)

-- The status, the current thread, and whether it yields.
unfoldable pub handle_nt_wait_for_alert_by_thread_id : Thread → Option ℕ → ℕ × Thread × Bool
handle_nt_wait_for_alert_by_thread_id t timeout = (
  status_success,
  record t { waiting_for_alert = true; await_time = await_time_of timeout t.await_time },
  true,
)
