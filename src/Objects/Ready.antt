-- ===== src/Objects/Ready.antt =====
-- src/windows-emulator/windows_emulator.cpp: what `is_thread_ready` decides.
use emulator_momo.Common.{
  ℕ, ◌≡◌, refl, sym, Bool, true, false, not, ◌&&◌, if◌then◌else◌, List, [], ◌∷◌, Option, none, some,
  inl, inr, Bool-cases, Returns, Result, ok,
}
use mathlib.Core.Bool.{false≢true}
use emulator_momo.Objects.{
  Thread, Process, Answer, has_value, after_objects, alert_ready, time_ready, objects_ready,
  is_thread_ready, is_await_time_over, mark_as_ready, status_alerted,
}
use emulator_momo.Objects.Known.{Keeps, AllKnown, await_loop-Returns, has_value-none}

-- A thread that neither has ended nor waits.
pub record IsRunnable (t : Thread) : Type 0 where
  pub alive : t.exit_status ≡ none
  pub unalerted : t.waiting_for_alert ≡ false
  pub objects : t.await_objects ≡ []
  pub time : t.await_time ≡ none

-- What the test decides: a thread that may run waits for nothing any more, one that may not is left as
-- it was, and no object is lost.
pub record Settled (p : Process) (t : Thread) (r : Answer) : Type 0 where
  pub runs : r.0 ≡ true → IsRunnable r.1
  pub waits : r.0 ≡ false → r.1 ≡ t
  pub keeps : Keeps p r.2

mark_as_ready-IsRunnable :
    (s : ℕ) (t : Thread) → has_value t.exit_status ≡ false → IsRunnable (mark_as_ready s t)
unfolding mark_as_ready
mark_as_ready-IsRunnable s t h = record {
  alive = has_value-none t.exit_status h;
  unalerted = refl;
  objects = refl;
  time = refl;
}

ready-Settled :
    (p q : Process) (s : ℕ) (t : Thread)
    → has_value t.exit_status ≡ false
    → Keeps p q
    → Settled p t (true, mark_as_ready s t, q)
ready-Settled p q s t h k = record {
  runs = λ _. mark_as_ready-IsRunnable s t h;
  waits = λ e. absurd (false≢true (sym e));
  keeps = k;
}

waiting-Settled : (p q : Process) (t : Thread) → Keeps p q → Settled p t (false, t, q)
waiting-Settled p q t k = record { runs = λ e. absurd (false≢true e); waits = λ _. refl; keeps = k }

after_objects-Settled :
    (now : ℕ) (p : Process) (t : Thread) (r : Option ℕ × Bool × Process)
    → has_value t.exit_status ≡ false
    → Keeps p r.2
    → Settled p t (after_objects now t r)
unfolding after_objects
after_objects-Settled now p t (some i, all, q) h k = ready-Settled p q _ t h k
after_objects-Settled now p t (none, all, q) h k = elim (Bool-cases (not t.await_any && all)) [
  | inl a ↦ rw (a) (ready-Settled p q _ t h k)
  | inr a ↦ elim (Bool-cases (is_await_time_over t now)) [
    | inl b ↦ rw (a, b) (ready-Settled p q _ t h k)
    | inr b ↦ rw (a, b) (waiting-Settled p q t k)
  ]
]

-- A property of both branches, each under its condition.
pub if_cases {ℓ κ} :
    {A : Type ℓ} (P : A → Type κ) (b : Bool) (x y : A)
    → (b ≡ true → P x)
    → (b ≡ false → P y)
    → P (if b then x else y)
if_cases P true x y f g = f refl
if_cases P false x y f g = g refl

alert_ready-Settled :
    (now : ℕ) (p : Process) (t : Thread)
    → has_value t.exit_status ≡ false
    → Settled p t (alert_ready now p t)
unfolding alert_ready
alert_ready-Settled now p t h =
    if_cases (Settled p t) t.alerted _ _ (λ _. ready-Settled p p _ t h (λ g k. k))
      (λ _.
        if_cases (Settled p t) (is_await_time_over t now) _ _
          (λ _. ready-Settled p p _ t h (λ g k. k)) (λ _. waiting-Settled p p t (λ g k. k)))

time_ready-Settled :
    (now : ℕ) (p : Process) (t : Thread)
    → has_value t.exit_status ≡ false
    → t.waiting_for_alert ≡ false
    → t.await_objects ≡ []
    → Settled p t (time_ready now p t)
unfolding time_ready
time_ready-Settled now p t h w o =
    if_cases (Settled p t) (has_value t.await_time) _ _
      (λ _.
        if_cases (Settled p t) (is_await_time_over t now) _ _
          (λ _. ready-Settled p p _ t h (λ g k. k)) (λ _. waiting-Settled p p t (λ g k. k)))
      (λ a. record {
        runs = λ _. record {
          alive = has_value-none t.exit_status h;
          unalerted = w;
          objects = o;
          time = has_value-none t.await_time a;
        };
        waits = λ e. absurd (false≢true (sym e));
        keeps = λ g k. k;
      })

objects_ready-Settled :
    (now : ℕ) (p : Process) (t : Thread) (hs : List ℕ)
    → has_value t.exit_status ≡ false
    → t.waiting_for_alert ≡ false
    → t.await_objects ≡ hs
    → AllKnown p hs
    → Returns (objects_ready now p t hs) (Settled p t)
unfolding objects_ready
objects_ready-Settled now p t [] h w o a =
    (time_ready now p t, refl, time_ready-Settled now p t h w o)
objects_ready-Settled now p t (i ∷ hs) h w o a =
    let (r, e, k) = await_loop-Returns t.id t.await_any 0 true (i ∷ hs) p a in
    (after_objects now t r, rw e refl, after_objects-Settled now p t r h k)

-- Where every handle that the thread waits for names an object, the test ends normally, as `Settled`
-- says.
pub is_thread_ready-Settled :
    (now : ℕ) (p : Process) (t : Thread)
    → AllKnown p t.await_objects
    → Returns (is_thread_ready now p t) (Settled p t)
unfolding is_thread_ready
is_thread_ready-Settled now p t a =
    let P : Result Answer → Type 0 = λ r. Returns r (Settled p t) in
    if_cases P (has_value t.exit_status) _ _
      (λ h. ((false, t, p), refl, waiting-Settled p p t (λ g k. k)))
      (λ h.
        if_cases P t.waiting_for_alert _ _
          (λ w. (alert_ready now p t, refl, alert_ready-Settled now p t h))
          (λ w. objects_ready-Settled now p t t.await_objects h w refl a))

-- A thread that waits for nothing may run, and the test changes nothing.
pub runnable_ready :
    (now : ℕ) (p : Process) (t : Thread) → IsRunnable t → is_thread_ready now p t ≡ ok (true, t, p)
unfolding is_thread_ready objects_ready time_ready
runnable_ready now p t h = rw (h.alive, h.unalerted, h.objects, h.time) refl

-- A thread that has ended may not run.
pub ended_test :
    (now : ℕ) (p : Process) (t : Thread)
    → has_value t.exit_status ≡ true
    → is_thread_ready now p t ≡ ok (false, t, p)
unfolding is_thread_ready
ended_test now p t h = rw (h, is_thread_ready) refl

-- A thread that has not ended and waits for an alert runs with STATUS_ALERTED where it was alerted, and
-- not at all where it was not and waits without a limit of time.
pub alert_test :
    (now : ℕ) (p : Process) (t : Thread)
    → t.exit_status ≡ none
    → t.waiting_for_alert ≡ true
    → (t.alerted ≡ true → is_thread_ready now p t ≡ ok (true, mark_as_ready status_alerted t, p))
      × (t.alerted ≡ false → t.await_time ≡ none → is_thread_ready now p t ≡ ok (false, t, p))
unfolding is_thread_ready alert_ready is_await_time_over
alert_test now p t alive waits =
    (λ called. rw (alive, waits, called) refl, λ calm free. rw (alive, waits, calm, free) refl)
