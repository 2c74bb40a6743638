-- ===== src/Syscalls.antt =====
-- src/windows-emulator/syscalls.cpp: the system calls that signal and wait for objects.
pub mod Waits
pub mod Memory
pub mod Query
pub mod Threads
use emulator_momo.Common.{
  ℕ, Bool, true, false, not, ◌&&◌, ◌||◌, Option, none, some, List, [], ◌∷◌, ◌==◌, if◌then◌else◌,
}
use emulator_momo.Handles.Value.{event, mutant, thread, type_code, get_handle_value}
use emulator_momo.Handles.Store.{get}
use emulator_momo.Objects.{Thread, Process, event_kind, mutant_kind, write, release, status_success}

abbrev pub status_invalid_handle : ℕ
status_invalid_handle = 0xc0000008

abbrev pub status_not_supported : ℕ
status_not_supported = 0xc00000bb

-- `WAIT_TYPE`
pub data WaitType : Type 0 where
  wait_all wait_any wait_notification wait_dequeue wait_dpc : WaitType

abbrev pub is_any : WaitType → Bool
is_any wait_any = true
is_any wait_all = false
is_any wait_notification = false
is_any wait_dequeue = false
is_any wait_dpc = false

abbrev pub is_all : WaitType → Bool
is_all wait_all = true
is_all wait_any = false
is_all wait_notification = false
is_all wait_dequeue = false
is_all wait_dpc = false

-- The status, what is written through `previous_state`, if the guest gives that pointer, and the
-- process; `none` is no write.
pub handle_nt_set_event : Process → ℕ → ℕ × Option Bool × Process
handle_nt_set_event p h = elim (get event_kind p.events h) [
  | none ↦ (status_invalid_handle, none, p)
  | some e ↦ (
    status_success,
    some e.signaled,
    record p { events = write event_kind p.events h (record e { signaled = true }) },
  )
]

-- The status, what is written through `previous_count` likewise, the process, and whether the emulator
-- stops.
pub handle_nt_release_mutant : Process → ℕ → ℕ × Option ℕ × Process × Bool
handle_nt_release_mutant p h =
    let released : ℕ × Option ℕ × Process × Bool = elim (get mutant_kind p.mutants h) [
      | none ↦ (status_invalid_handle, none, p, false)
      | some m ↦
          let (old_count, m') = release m in
          (
            status_success,
            some old_count,
            record p { mutants = write mutant_kind p.mutants h m' },
            false,
          )
    ] in
    if not ((get_handle_value h).kind == type_code mutant)
    then (status_not_supported, none, p, true)
    else released

unfoldable pub is_awaitable_object_type : ℕ → Bool
is_awaitable_object_type h =
    let kind = (get_handle_value h).kind in
    kind == type_code thread || kind == type_code mutant || kind == type_code event

-- `timeout` is the point in time that the argument of that name gives, if it is there. It does not
-- replace a time that is set.
abbrev pub await_time_of : Option ℕ → Option ℕ → Option ℕ
await_time_of timeout none = timeout
await_time_of timeout (some time) = some time

-- The status, the current thread, and whether it yields.
pub handle_nt_wait_for_single_object : Thread → ℕ → Option ℕ → ℕ × Thread × Bool
handle_nt_wait_for_single_object t h timeout =
    if not (is_awaitable_object_type h) then (status_not_supported, t, false) else (
      status_success,
      record t {
        await_objects = h ∷ [];
        await_any = false;
        await_time = await_time_of timeout t.await_time;
      },
      true,
    )

unfoldable pub all_awaitable : List ℕ → Bool
all_awaitable [] = true
all_awaitable (h ∷ hs) =
    let rest = all_awaitable hs in if not (is_awaitable_object_type h) then false else rest

-- `handles` is the array that is read from the guest, as far as it is read. The status, the current
-- thread, whether it yields, and whether the emulator stops.
pub handle_nt_wait_for_multiple_objects :
    Thread → List ℕ → WaitType → Option ℕ → ℕ × Thread × Bool × Bool
handle_nt_wait_for_multiple_objects t handles wait_type timeout =
    let cleared = record t { await_objects = []; await_any = is_any wait_type } in
    if not (is_any wait_type) && not (is_all wait_type)
    then (status_not_supported, t, false, true)
    else if not (all_awaitable handles)
    then (status_not_supported, cleared, false, false)
    else (
      status_success,
      record cleared { await_time = await_time_of timeout t.await_time },
      true,
      false,
    )
