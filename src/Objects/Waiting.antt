-- ===== src/Objects/Waiting.antt =====
-- src/windows-emulator/windows_emulator.cpp: the test of a thread that waits for one event.
use emulator_momo.Common.{
  ℕ, ◌≡◌, refl, ◌∙◌, true, false, none, some, [], ◌∷◌, ◌==◌, if◌then◌else◌, arith, inl, inr,
  Option-cases, lookup-put, eq→==, ok,
}
use emulator_momo.Handles.Value.{event, type_code, get_handle_value}
use emulator_momo.Handles.Store.{HandleStore, StoreKind, get, index_of}
use emulator_momo.Handles.Store.Laws.{get-index, get-none}
use emulator_momo.Objects.{
  Event, Thread, Process, event_kind, write, is_signaled, event_signaled, is_object_signaled,
  await_loop, after_objects, objects_ready, time_ready, is_thread_ready, mark_as_ready,
  status_success, is_await_time_over,
}

module _ {V : Type 0} (k : StoreKind V) where
  -- A write through a pointer is read back.
  pub get-write :
      (s : HandleStore V) (h : ℕ) (v w : V) → get k s h ≡ some w → get k (write k s h v) h ≡ some v
  unfolding write
  get-write s h v w e = elim (Option-cases (index_of k (get_handle_value h))) [
    | inl n ↦ absurd (cc (get-none k s h n, e))
    | inr (i, n) ↦
        get-index k (write k s h v) h i n
        ∙ rw n (lookup-put i i v s.entries ∙ rw (eq→== i i refl) refl)
  ]

-- A thread that only waits for the object `h`, without a limit of time.
abbrev pub waits_for : Thread → ℕ → Thread
waits_for t h = record t {
  exit_status = none;
  waiting_for_alert = false;
  await_objects = h ∷ [];
  await_any = false;
  await_time = none;
}

abbrev pub with_event : Process → ℕ → Event → Process
with_event p h e = record p { events = write event_kind p.events h e }

event_test :
    (p : Process) (h n : ℕ) (e : Event)
    → ((get_handle_value h).kind == type_code event) ≡ true
    → get event_kind p.events h ≡ some e
    → is_object_signaled p h n ≡ ok (e.signaled, with_event p h (is_signaled e).1)
unfolding is_object_signaled event_signaled is_signaled
event_test p h n e k g = rw (k, g, event_signaled) refl

pub waiting_test :
    (now : ℕ) (p : Process) (t : Thread) (h : ℕ) (e : Event)
    → ((get_handle_value h).kind == type_code event) ≡ true
    → get event_kind p.events h ≡ some e
    → is_thread_ready now p (waits_for t h)
      ≡ ok (
          if e.signaled
          then (
            true,
            mark_as_ready status_success (waits_for t h),
            with_event p h (is_signaled e).1,
          )
          else (false, waits_for t h, with_event p h (is_signaled e).1))
unfolding is_thread_ready objects_ready await_loop after_objects is_await_time_over
waiting_test now p t h e k g = rw (event_test p h t.id e k g, await_loop) (ground arith)

-- A thread that runs and waits for nothing.
abbrev pub runnable : Thread → Thread
runnable t = record t {
  exit_status = none;
  waiting_for_alert = false;
  await_objects = [];
  await_time = none;
}

pub runnable_test :
    (now : ℕ) (p : Process) (t : Thread)
    → is_thread_ready now p (runnable t) ≡ ok (true, runnable t, p)
unfolding is_thread_ready objects_ready time_ready
runnable_test now p t = refl
