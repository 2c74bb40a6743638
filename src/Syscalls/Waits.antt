-- ===== src/Syscalls/Waits.antt =====
-- src/windows-emulator/syscalls.cpp with windows_emulator.cpp: what a wait does to the thread.
use emulator_momo.Common.{
  ℕ, ◌≡◌, refl, ◌∙◌, ap, Bool, true, false, not, ◌||◌, none, some, List, ◌==◌, arith, ok,
}
use emulator_momo.Handles.Value.{event, type_code, get_handle_value}
use emulator_momo.Handles.Store.{get}
use emulator_momo.Objects.{
  EventType, notification_event, synchronization_event, Event, Thread, Process, event_kind, resets,
  is_signaled, is_thread_ready, mark_as_ready, status_success,
}
use emulator_momo.Syscalls.{
  WaitType, is_any, is_all, handle_nt_set_event, handle_nt_wait_for_single_object,
  handle_nt_wait_for_multiple_objects, all_awaitable, is_awaitable_object_type,
}
use emulator_momo.Objects.Waiting.{
  waits_for, with_event, waiting_test, get-write, runnable, runnable_test,
}

wait_single-waits :
    (t : Thread) (h : ℕ)
    → is_awaitable_object_type h ≡ true
    → handle_nt_wait_for_single_object (runnable t) h none ≡ (status_success, waits_for t h, true)
unfolding handle_nt_wait_for_single_object
wait_single-waits t h a = rw a refl

event-awaitable :
    (h : ℕ)
    → ((get_handle_value h).kind == type_code event) ≡ true
    → is_awaitable_object_type h ≡ true
unfolding is_awaitable_object_type
event-awaitable h e = ground (arith, e)

set_event-sets :
    (p : Process) (h : ℕ) (e : Event)
    → get event_kind p.events h ≡ some e
    → handle_nt_set_event p h
      ≡ (status_success, some e.signaled, with_event p h (record e { signaled = true }))
unfolding handle_nt_set_event
set_event-sets p h e g = rw (g, handle_nt_set_event) refl

-- What setting an event and testing it leaves.
kept :
    (n : ℕ) (s : Bool) (kind : EventType) (name : List ℕ)
    → let e : Event = record { ref_count = n; signaled = s; kind = kind; name = name } in
      (is_signaled (record (is_signaled e).1 { signaled = true })).1
      ≡ record e { signaled = not (resets e.kind) }
unfolding is_signaled
kept n s notification_event name = refl
kept n s synchronization_event name = refl

-- A thread that may run and that waits, without a limit of time, for an event that is not signaled
-- may not run any more, whatever the clock says. After the event is set it may, with the status of
-- success, and this resets a synchronization event, and leaves a notification event signaled.
pub wait_single-set_event :
    (now later : ℕ) (p : Process) (t : Thread) (h : ℕ) (e : Event)
    → ((get_handle_value h).kind == type_code event) ≡ true
    → get event_kind p.events h ≡ some e
    → e.signaled ≡ false
    → let w = (handle_nt_wait_for_single_object (runnable t) h none).1 in
      (q : Process) × (is_thread_ready now p w ≡ ok (false, w, q))
      × ((q' : Process) × (is_thread_ready later (handle_nt_set_event q h).2 w
            ≡ ok (true, mark_as_ready status_success w, q'))
          × (get event_kind q'.events h ≡ some (record e { signaled = not (resets e.kind) })))
unfolding is_signaled
wait_single-set_event now later p t h e k g u =
    let w = ap (λ r. r.1) (wait_single-waits t h (event-awaitable h k)) in
    let e₁ = (is_signaled e).1 in
    let q = with_event p h e₁ in
    let g₁ : get event_kind q.events h ≡ some e₁ = get-write event_kind p.events h e₁ e g in
    let e₂ : Event = record e₁ { signaled = true } in
    let q₂ = with_event q h e₂ in
    let g₂ : get event_kind q₂.events h ≡ some e₂ = get-write event_kind q.events h e₂ e₁ g₁ in
    let e₃ = (is_signaled e₂).1 in
    let q₃ = with_event q₂ h e₃ in
    let left : e₃ ≡ record e { signaled = not (resets e.kind) } =
      kept e.ref_count e.signaled e.kind e.name in
    rw w (
      q,
      waiting_test now p t h e k g ∙ rw u refl,
      (
        q₃,
        rw (set_event-sets q h e₁ g₁) (waiting_test later q₂ t h e₂ k g₂),
        get-write event_kind q₂.events h e₃ e₂ g₂ ∙ ap some left,
      ),
    )

-- A wait for several objects without a limit of time, where the type of the wait and the types of the
-- handles are supported, ends with success and yields, but the thread may run again at once: no object
-- is tested, whatever the handles are.
pub wait_multiple-runs :
    (now : ℕ) (p : Process) (t : Thread) (handles : List ℕ) (wait_type : WaitType)
    → (is_any wait_type || is_all wait_type) ≡ true
    → all_awaitable handles ≡ true
    → let r = handle_nt_wait_for_multiple_objects (runnable t) handles wait_type none in
      (r.0 ≡ status_success)
      × (r.2 ≡ true)
      × (r.3 ≡ false)
      × (is_thread_ready now p r.1 ≡ ok (true, r.1, p))
unfolding handle_nt_wait_for_multiple_objects
wait_multiple-runs now p t handles wait_type s a =
    let step : handle_nt_wait_for_multiple_objects (runnable t) handles wait_type none
        ≡ (status_success, record (runnable t) { await_any = is_any wait_type }, true, false) =
      ground (arith, s, a) in
    rw step (refl, refl, refl, runnable_test now p (record t { await_any = is_any wait_type }))
