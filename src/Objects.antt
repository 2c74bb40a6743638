-- ===== src/Objects.antt =====
-- src/windows-emulator/process_context.hpp: the objects that a thread can wait for, and the wait state
-- of a thread; src/windows-emulator/windows_emulator.cpp: the test whether a thread may run.
pub mod Locks
pub mod Known
pub mod Waiting
pub mod Ready
use emulator_momo.Common.{
  ℕ, ◌+◌, ◌%◌, Bool, true, false, not, ◌&&◌, Option, none, some, List, [], ◌∷◌, put, ltb, ◌==◌, ◌-◌,
  if◌then◌else◌, u32_mod, Result, ok, thrown, ◌>>=◌,
}
use emulator_momo.Handles.Value.{event, mutant, thread, type_code, get_handle_value}
use emulator_momo.Allocator.{Allocator}
use emulator_momo.Handles.Store.{HandleStore, StoreKind, get, index_of}

-- `EVENT_TYPE`
pub data EventType : Type 0 where
  notification_event synchronization_event : EventType

pub record Event : Type 0 where
  pub ref_count : ℕ
  pub signaled : Bool
  pub kind : EventType
  pub name : List ℕ

abbrev pub resets : EventType → Bool
resets notification_event = false
resets synchronization_event = true

-- Reading the state of a synchronization event resets it.
unfoldable pub is_signaled : Event → Bool × Event
is_signaled e = (e.signaled, if resets e.kind then record e { signaled = false } else e)

pub record Mutant : Type 0 where
  pub ref_count : ℕ
  pub locked_count : ℕ
  pub owning_thread_id : ℕ
  pub name : List ℕ

unfoldable pub try_lock : ℕ → Mutant → Bool × Mutant
try_lock thread_id m =
    if m.locked_count == 0
    then (
      true,
      record m { locked_count = (m.locked_count + 1) % u32_mod; owning_thread_id = thread_id },
    )
    else if not (m.owning_thread_id == thread_id)
    then (false, m)
    else (true, record m { locked_count = (m.locked_count + 1) % u32_mod })

-- Returns the count before.
unfoldable pub release : Mutant → ℕ × Mutant
release m =
    if m.locked_count == 0
    then (m.locked_count, m)
    else (m.locked_count, record m { locked_count = m.locked_count - 1 })

-- `--ref_count == 0` on 32 bits: whether that was the last reference, and the count left.
pub drop_reference : ℕ → Bool × ℕ
drop_reference n = let left = (n + (u32_mod - 1)) % u32_mod in (left == 0, left)

pub event_deleter : Event → Bool × Event
event_deleter e =
    let (last, left) = drop_reference e.ref_count in (last, record e { ref_count = left })

pub mutant_deleter : Mutant → Bool × Mutant
mutant_deleter m =
    let (last, left) = drop_reference m.ref_count in (last, record m { ref_count = left })

-- `emulator_thread`, without the pointer to the emulator and the mark of a moved object. A point in
-- time is its number of clock ticks; `teb` is the address of the block.
pub record Thread : Type 0 where
  pub stack_base : ℕ
  pub stack_size : ℕ
  pub start_address : ℕ
  pub argument : ℕ
  pub executed_instructions : ℕ
  pub id : ℕ
  pub name : List ℕ
  pub exit_status : Option ℕ
  pub await_objects : List ℕ
  pub await_any : Bool
  pub waiting_for_alert : Bool
  pub alerted : Bool
  pub await_time : Option ℕ
  pub pending_status : Option ℕ
  pub gs_segment : Option Allocator
  pub teb : Option ℕ
  pub last_registers : List ℕ

abbrev pub event_kind : StoreKind Event
event_kind = record { kind = event; index_shift = 0; deleter = event_deleter }

abbrev pub mutant_kind : StoreKind Mutant
mutant_kind = record { kind = mutant; index_shift = 0; deleter = mutant_deleter }

-- A thread inherits its reference count privately, so that the store finds no deleter.
abbrev pub thread_kind : StoreKind Thread
thread_kind = record { kind = thread; index_shift = 0; deleter = λ t. (true, t) }

-- The stores of the process that a wait reads.
pub record Process : Type 0 where
  pub events : HandleStore Event
  pub mutants : HandleStore Mutant
  pub threads : HandleStore Thread

abbrev pub write_at {ℓ} : {V : Type ℓ} → Option ℕ → V → List (ℕ × V) → List (ℕ × V)
write_at none v m = m
write_at (some i) v m = put i v m

-- What a write through the pointer that `get` returned leaves.
pub write : {V : Type 0} → StoreKind V → HandleStore V → ℕ → V → HandleStore V
write k s h v = record s { entries = write_at (index_of k (get_handle_value h)) v s.entries }

pub event_signaled : Process → ℕ → Result (Bool × Process)
event_signaled p h = elim (get event_kind p.events h) [
  | none ↦ thrown
  | some e ↦
      let (signaled, e') = is_signaled e in
      ok (signaled, record p { events = write event_kind p.events h e' })
]

pub mutant_signaled : Process → ℕ → ℕ → Result (Bool × Process)
mutant_signaled p h thread_id = elim (get mutant_kind p.mutants h) [
  | none ↦ thrown
  | some m ↦
      let (locked, m') = try_lock thread_id m in
      ok (locked, record p { mutants = write mutant_kind p.mutants h m' })
]

abbrev pub has_value {ℓ} : {A : Type ℓ} → Option A → Bool
has_value none = false
has_value (some _) = true

pub thread_signaled : Process → ℕ → Result (Bool × Process)
thread_signaled p h = elim (get thread_kind p.threads h) [
  | none ↦ thrown
  | some t ↦ ok (has_value t.exit_status, p)
]

pub is_object_signaled : Process → ℕ → ℕ → Result (Bool × Process)
is_object_signaled p h thread_id =
    let kind = (get_handle_value h).kind in
    if kind == type_code event
    then event_signaled p h
    else if kind == type_code mutant
    then mutant_signaled p h thread_id
    else if kind == type_code thread
    then thread_signaled p h
    else thrown

abbrev pub status_success : ℕ
status_success = 0

abbrev pub status_wait_0 : ℕ
status_wait_0 = 0

abbrev pub status_alerted : ℕ
status_alerted = 0x101

abbrev pub status_timeout : ℕ
status_timeout = 0x102

unfoldable pub mark_as_ready : ℕ → Thread → Thread
mark_as_ready status t = record t {
  pending_status = some status;
  await_time = none;
  await_objects = [];
  alerted = if t.waiting_for_alert then false else t.alerted;
  waiting_for_alert = false;
}

abbrev pub time_over : Option ℕ → ℕ → Bool
time_over none now = false
time_over (some time) now = ltb time now

pub is_await_time_over : Thread → ℕ → Bool
is_await_time_over t now = time_over t.await_time now

-- The loop over `await_objects`: the index that ends a wait for any object, whether all objects so far
-- were signaled, and the process, since the tests change the objects.
pub await_loop : ℕ → Bool → ℕ → Bool → List ℕ → Process → Result (Option ℕ × Bool × Process)
await_loop thread_id any i all [] p = ok (none, all, p)
await_loop thread_id any i all (h ∷ hs) p = is_object_signaled p h thread_id >>= (λ r.
    let rest = await_loop thread_id any (i + 1) (all && r.0) hs r.1 in
    if r.0 && any then ok (some i, all && r.0, r.1) else rest)

-- The answer, the thread and the process.
abbrev pub Answer : Type 0
Answer = Bool × Thread × Process

pub after_objects : ℕ → Thread → Option ℕ × Bool × Process → Answer
after_objects now t (some i, all, p) = (true, mark_as_ready (status_wait_0 + i) t, p)
after_objects now t (none, all, p) =
    if not t.await_any && all
    then (true, mark_as_ready status_success t, p)
    else if is_await_time_over t now
    then (true, mark_as_ready status_timeout t, p)
    else (false, t, p)

pub alert_ready : ℕ → Process → Thread → Answer
alert_ready now p t =
    if t.alerted
    then (true, mark_as_ready status_alerted t, p)
    else if is_await_time_over t now
    then (true, mark_as_ready status_timeout t, p)
    else (false, t, p)

pub time_ready : ℕ → Process → Thread → Answer
time_ready now p t =
    if has_value t.await_time
    then (if is_await_time_over t now
        then (true, mark_as_ready status_success t, p)
        else (false, t, p))
    else (true, t, p)

pub objects_ready : ℕ → Process → Thread → List ℕ → Result Answer
objects_ready now p t [] = ok (time_ready now p t)
objects_ready now p t (h ∷ hs) =
    await_loop t.id t.await_any 0 true (h ∷ hs) p >>= (λ r. ok (after_objects now t r))

-- `now` is what the clock gives when the time is tested, which a call does once at most.
pub is_thread_ready : ℕ → Process → Thread → Result Answer
is_thread_ready now p t =
    if has_value t.exit_status
    then ok (false, t, p)
    else if t.waiting_for_alert
    then ok (alert_ready now p t)
    else objects_ready now p t t.await_objects
