-- ===== src/Objects/Known.antt =====
-- src/windows-emulator/windows_emulator.cpp: tests of objects that are there.
use emulator_momo.Common.{
  ℕ, ◌+◌, ◌≡◌, refl, sym, ◌∙◌, ap, Bool, true, false, ◌&&◌, ◌==◌, if◌then◌else◌, List, [], ◌∷◌,
  Option, none, some, inl, inr, Bool-cases, Option-cases, lookup-put, put, lookup, Returns, All,
}
use mathlib.Core.Bool.{false≢true}
use emulator_momo.Handles.Value.{event, mutant, thread, type_code, get_handle_value}
use emulator_momo.Handles.Store.{HandleStore, StoreKind, get, index_of}
use emulator_momo.Handles.Store.Laws.{get-index, get-none}
use emulator_momo.Objects.{
  Event, Mutant, Process, has_value, event_kind, mutant_kind, thread_kind, write, write_at,
  event_signaled, mutant_signaled, thread_signaled, is_object_signaled, await_loop, is_signaled,
  try_lock,
}

has_lookup-put {ℓ} :
    {V : Type ℓ} (i j : ℕ) (v : V) (m : List (ℕ × V))
    → has_value (lookup j m) ≡ true
    → has_value (lookup j (put i v m)) ≡ true
has_lookup-put i j v m h = elim (Bool-cases (i == j)) [
  | inl e ↦ rw (lookup-put i j v m, e) refl
  | inr e ↦ rw (lookup-put i j v m, e) h
]

-- A write loses no object.
module _ {V : Type 0} (k : StoreKind V) where
  get-written :
      (s : HandleStore V) (g j : ℕ) (v : V) (o : Option ℕ)
      → has_value (lookup j s.entries) ≡ true
      → has_value (lookup j (write_at o v s.entries)) ≡ true
  get-written s g j v none e = e
  get-written s g j v (some i) e = has_lookup-put i j v s.entries e

  get-write :
      (s : HandleStore V) (h g : ℕ) (v : V)
      → has_value (get k s g) ≡ true
      → has_value (get k (write k s h v) g) ≡ true
  unfolding write
  get-write s h g v e = elim (Option-cases (index_of k (get_handle_value g))) [
    | inl n ↦ absurd (false≢true (ap has_value (sym (get-none k s g n)) ∙ e))
    | inr (j, n) ↦
        ap has_value (get-index k (write k s h v) g j n)
        ∙ get-written s g j v (index_of k (get_handle_value h))
            (ap has_value (sym (get-index k s g j n)) ∙ e)
  ]

-- Whether a handle names an object that can be waited for.
unfoldable pub known : Process → ℕ → Bool
known p h =
    let kind = (get_handle_value h).kind in
    if kind == type_code event
    then has_value (get event_kind p.events h)
    else if kind == type_code mutant
    then has_value (get mutant_kind p.mutants h)
    else if kind == type_code thread
    then has_value (get thread_kind p.threads h)
    else false

abbrev pub Keeps : Process → Process → Type 0
Keeps p q = (g : ℕ) → known p g ≡ true → known q g ≡ true

Keeps-events :
    (p : Process) (h : ℕ) (e : Event)
    → Keeps p (record p { events = write event_kind p.events h e })
unfolding known
Keeps-events p h e g k = elim (Bool-cases ((get_handle_value g).kind == type_code event)) [
  | inl a ↦ rw a (get-write event_kind p.events h g e (rw a at k))
  | inr a ↦ rw a (rw a at k)
]

Keeps-mutants :
    (p : Process) (h : ℕ) (m : Mutant)
    → Keeps p (record p { mutants = write mutant_kind p.mutants h m })
unfolding known
Keeps-mutants p h m g k = elim (Bool-cases ((get_handle_value g).kind == type_code event)) [
  | inl a ↦ rw a (rw a at k)
  | inr a ↦ elim (Bool-cases ((get_handle_value g).kind == type_code mutant)) [
    | inl b ↦ rw (a, b) (get-write mutant_kind p.mutants h g m (rw (a, b) at k))
    | inr b ↦ rw (a, b) (rw (a, b) at k)
  ]
]

event_signaled-Returns :
    (p : Process) (h : ℕ)
    → has_value (get event_kind p.events h) ≡ true
    → Returns (event_signaled p h) (λ r. Keeps p r.1)
unfolding event_signaled
event_signaled-Returns p h k = elim (Option-cases (get event_kind p.events h)) [
  | inl n ↦ absurd (false≢true (ap has_value (sym n) ∙ k))
  | inr (e, n) ↦
      let (b, e') = is_signaled e in
      (
        (b, record p { events = write event_kind p.events h e' }),
        rw (n, event_signaled) refl,
        Keeps-events p h e',
      )
]

mutant_signaled-Returns :
    (p : Process) (h thread_id : ℕ)
    → has_value (get mutant_kind p.mutants h) ≡ true
    → Returns (mutant_signaled p h thread_id) (λ r. Keeps p r.1)
unfolding mutant_signaled
mutant_signaled-Returns p h thread_id k = elim (Option-cases (get mutant_kind p.mutants h)) [
  | inl n ↦ absurd (false≢true (ap has_value (sym n) ∙ k))
  | inr (m, n) ↦
      let (b, m') = try_lock thread_id m in
      (
        (b, record p { mutants = write mutant_kind p.mutants h m' }),
        rw (n, mutant_signaled) refl,
        Keeps-mutants p h m',
      )
]

thread_signaled-Returns :
    (p : Process) (h : ℕ)
    → has_value (get thread_kind p.threads h) ≡ true
    → Returns (thread_signaled p h) (λ r. Keeps p r.1)
unfolding thread_signaled
thread_signaled-Returns p h k = elim (Option-cases (get thread_kind p.threads h)) [
  | inl n ↦ absurd (false≢true (ap has_value (sym n) ∙ k))
  | inr (t, n) ↦ ((has_value t.exit_status, p), rw (n, thread_signaled) refl, λ g i. i)
]

is_object_signaled-Returns :
    (p : Process) (h thread_id : ℕ)
    → known p h ≡ true
    → Returns (is_object_signaled p h thread_id) (λ r. Keeps p r.1)
unfolding is_object_signaled known
is_object_signaled-Returns p h thread_id k =
    elim (Bool-cases ((get_handle_value h).kind == type_code event)) [
      | inl a ↦ rw a (event_signaled-Returns p h (rw a at k))
      | inr a ↦ elim (Bool-cases ((get_handle_value h).kind == type_code mutant)) [
        | inl b ↦ rw (a, b) (mutant_signaled-Returns p h thread_id (rw (a, b) at k))
        | inr b ↦ elim (Bool-cases ((get_handle_value h).kind == type_code thread)) [
          | inl c ↦ rw (a, b, c) (thread_signaled-Returns p h (rw (a, b, c) at k))
          | inr c ↦ absurd (false≢true (rw (a, b, c) at k))
        ]
      ]
    ]

abbrev pub AllKnown : Process → List ℕ → Type 0
AllKnown p = All (λ h. known p h ≡ true)

AllKnown-later : (p q : Process) (hs : List ℕ) → Keeps p q → AllKnown p hs → AllKnown q hs
AllKnown-later p q [] k a = tt
AllKnown-later p q (h ∷ hs) k a = (k h a.0, AllKnown-later p q hs k a.1)

pub await_loop-Returns :
    (thread_id : ℕ) (any : Bool) (i : ℕ) (all : Bool) (hs : List ℕ) (p : Process)
    → AllKnown p hs
    → Returns (await_loop thread_id any i all hs p) (λ r. Keeps p r.2)
unfolding await_loop
await_loop-Returns thread_id any i all [] p a = (_, refl, λ g k. k)
await_loop-Returns thread_id any i all (h ∷ hs) p a =
    let (r, e, k) = is_object_signaled-Returns p h thread_id a.0 in
    let (s, f, l) =
      await_loop-Returns thread_id any (i + 1) (all && r.0) hs r.1
        (AllKnown-later p r.1 hs k a.1) in
    elim (Bool-cases (r.0 && any)) [
      | inl b ↦ ((some i, all && r.0, r.1), rw (e, await_loop, b) refl, k)
      | inr b ↦ (s, rw (e, await_loop, b) f, λ g m. l g (k g m))
    ]

pub has_value-none {ℓ} : {A : Type ℓ} (o : Option A) → has_value o ≡ false → o ≡ none
has_value-none none h = refl
has_value-none (some a) h = absurd (false≢true (sym h))
