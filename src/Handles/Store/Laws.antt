-- ===== src/Handles/Store/Laws.antt =====
-- src/windows-emulator/handles.hpp: storing, looking up and erasing.
use emulator_momo.Common.{
  ℕ, ◌+◌, ◌^◌, ◌<◌, ◌≡◌, ◌≢◌, refl, sym, ◌∙◌, Bool, true, false, arith, Option, none, some, lookup,
  put, put-IsSorted, erase, lookup-put, lookup-erase, emplace-free, IsSorted, length, eq→==, ne→==,
  ap, u32_mod, inl, inr, Option-cases, Bool-cases, Returns,
}
use emulator_momo.Handles.Value.{
  HandleValue, type_code, type_code-lt, get_handle_value, handle_round_trip,
}
use emulator_momo.Handles.Store.{
  HandleStore, StoreKind, find_free_index, shift_left, shift_right, make_handle, index_of, get,
  store, erase_at, erase_entry, erase_handle,
}
use emulator_momo.Handles.Store.FreeIndex.{find_free_index-IsFirstFree}

shift_left-lt : (i s : ℕ) → shift_left i s < 2 ^ 32
unfolding shift_left
shift_left-lt i s = omega arith

module _ {V : Type 0} (k : StoreKind V) where
  -- An index that the shift does not push out of 32 bits.
  abbrev pub Shiftable : ℕ → Type 0
  Shiftable i = shift_right (shift_left i k.index_shift) k.index_shift ≡ i

  -- The handle made for an index names that index.
  index_of-make_handle :
      (i : ℕ) → Shiftable i → index_of k (get_handle_value (make_handle k i)) ≡ some i
  unfolding make_handle index_of
  index_of-make_handle i s =
      let v : HandleValue = record {
        id = shift_left i k.index_shift;
        kind = type_code k.kind;
        padding = 0;
        is_system = false;
        is_pseudo = false;
      } in
      let e =
        (handle_round_trip.0 v
          (shift_left-lt i k.index_shift, omega (arith, type_code-lt k.kind), omega arith)).0 in
      let same = eq→== (type_code k.kind) (type_code k.kind) refl in rw (e, same, s)

  pub get-index :
      (s : HandleStore V) (h i : ℕ)
      → index_of k (get_handle_value h) ≡ some i
      → get k s h ≡ lookup i s.entries
  unfolding get
  get-index s h i e = rw (e, get)

  pub get-none :
      (s : HandleStore V) (h : ℕ) → index_of k (get_handle_value h) ≡ none → get k s h ≡ none
  unfolding get
  get-none s h e = rw (e, get)

  -- A change of the entries that shows at the index `i` only changes what other handles reach not
  -- at all.
  abbrev pub SameBut : ℕ → HandleStore V → HandleStore V → Type 0
  SameBut i s t = (g : ℕ) → index_of k (get_handle_value g) ≢ some i → get k t g ≡ get k s g

  SameBut-lookup :
      (i : ℕ) (s t : HandleStore V)
      → ((j : ℕ) → j ≢ i → lookup j t.entries ≡ lookup j s.entries)
      → SameBut i s t
  SameBut-lookup i s t e g h = elim (Option-cases (index_of k (get_handle_value g))) [
    | inl n ↦ get-none t g n ∙ sym (get-none s g n)
    | inr (j, n) ↦ get-index t g j n ∙ e j (λ same. h (n ∙ ap some same)) ∙ sym (get-index s g j n)
  ]

  -- What `store` promises: a handle that was not in use before and now leads to the object.
  pub record Stored (s : HandleStore V) (v : V) (r : ℕ × HandleStore V) : Type 0 where
    pub fresh : get k s r.0 ≡ none
    pub reads : get k r.1 r.0 ≡ some v
    pub others : SameBut (find_free_index s.entries) s r.1
    pub sorted : IsSorted 0 s.entries → IsSorted 0 r.1.entries

  -- Storing in a store that is not blocked, has fewer than 2 ^ 32 - 1 entries, and whose free index
  -- survives the shift, ends normally, as `Stored` says.
  pub store-Stored :
      (s : HandleStore V) (v : V)
      → s.block_mutation ≡ false
      → length s.entries + 1 < u32_mod
      → Shiftable (find_free_index s.entries)
      → Returns (store k s v) (Stored s v)
  unfolding store
  store-Stored s v b n sh =
      let i = find_free_index s.entries in
      let free = (find_free_index-IsFirstFree s.entries n).0 in
      let named = index_of-make_handle i sh in
      let t : HandleStore V = record s { entries = put i v s.entries } in
      (
        (make_handle k i, t),
        rw (b, emplace-free i v s.entries free),
        record {
          fresh = get-index s (make_handle k i) i named ∙ free;
          reads =
              get-index t (make_handle k i) i named
              ∙ lookup-put i i v s.entries
              ∙ rw (eq→== i i refl);
          others =
              SameBut-lookup i s t
                (λ j ne. lookup-put i j v s.entries ∙ rw (ne→== i j (λ q. ne (sym q))));
          sorted = λ o. put-IsSorted 0 i v s.entries (omega arith) o;
        },
      )

  -- What erasing a handle does: a handle that leads nowhere is refused without a change; the object
  -- of any other goes if the deleter agrees, and otherwise stays, as the deleter left it.
  pub record Erased (s : HandleStore V) (h : ℕ) (r : Bool × HandleStore V) : Type 0 where
    pub missing : get k s h ≡ none → (r.0 ≡ false) × (r.1 ≡ s)
    pub gone :
        (v : V) → get k s h ≡ some v → (k.deleter v).0 ≡ true → (r.0 ≡ true) × (get k r.1 h ≡ none)
    pub kept :
        (v : V)
        → get k s h ≡ some v
        → (k.deleter v).0 ≡ false
        → (r.0 ≡ false) × (get k r.1 h ≡ some (k.deleter v).1)
    pub others : (i : ℕ) → index_of k (get_handle_value h) ≡ some i → SameBut i s r.1

  some-path {ℓ} : {A : Type ℓ} (a b : A) → some a ≡ some b → a ≡ b
  some-path a b h = cc

  agreed : (v w : V) → some w ≡ some v → (k.deleter w).0 ≡ true → (k.deleter v).0 ≡ false → ⊥
  agreed v w h a b = cc (ap (λ u. (k.deleter u).0) (some-path w v h))

  erase_entry-Erased :
      (s : HandleStore V) (h : ℕ) (o : Option ℕ)
      → IsSorted 0 s.entries
      → index_of k (get_handle_value h) ≡ o
      → Erased s h (erase_entry k s o)
  unfolding erase_entry erase_at
  erase_entry-Erased s h none srt e = record {
    missing = λ _. (refl, refl);
    gone = λ v f _. cc (get-none s h e);
    kept = λ v f _. cc (get-none s h e);
    others = λ i f. cc;
  }
  erase_entry-Erased s h (some i) srt e =
      let here : get k s h ≡ lookup i s.entries = get-index s h i e in
      elim (Option-cases (lookup i s.entries)) [
        | inl n ↦
            rw (n, erase_entry)
              (record {
                missing = λ _. (refl, refl);
                gone = λ v f _. cc (here ∙ n);
                kept = λ v f _. cc (here ∙ n);
                others = λ j f g ne. refl;
              })
        | inr (w, n) ↦ elim (Bool-cases (k.deleter w).0) [
          | inl a ↦
              let t : HandleStore V = record s { entries = erase i s.entries } in
              rw (n, erase_entry, a)
                (record {
                  missing = λ f. cc (here ∙ n);
                  gone = λ v f d. (
                    refl,
                    get-index t h i e ∙ lookup-erase i i 0 s.entries srt ∙ rw (eq→== i i refl),
                  );
                  kept = λ v f d. absurd (agreed v w (cc (here ∙ n)) a d);
                  others = λ j f.
                      let same : i ≡ j = some-path i j (cc) in
                      rw (← same) (
                        SameBut-lookup i s t (λ j' ne.
                          lookup-erase i j' 0 s.entries srt ∙ rw (ne→== i j' (λ q. ne (sym q)))));
                })
          | inr a ↦
              let t : HandleStore V = record s { entries = put i (k.deleter w).1 s.entries } in
              rw (n, erase_entry, a)
                (record {
                  missing = λ f. cc (here ∙ n);
                  gone = λ v f d. absurd (agreed w v (cc (here ∙ n)) d a);
                  kept = λ v f d. (
                    refl,
                    get-index t h i e
                        ∙ lookup-put i i (k.deleter w).1 s.entries
                        ∙ rw (eq→== i i refl)
                            (ap (λ u. some (k.deleter u).1) (some-path w v (cc (here ∙ n)))),
                  );
                  others = λ j f.
                      let same : i ≡ j = some-path i j (cc) in
                      rw (← same) (
                        SameBut-lookup i s t (λ j' ne.
                          lookup-put i j' (k.deleter w).1 s.entries
                          ∙ rw (ne→== i j' (λ q. ne (sym q)))));
                })
        ]
      ]

  -- Erasing in a store that is not blocked and whose keys are in order ends normally, as `Erased`
  -- says.
  pub erase_handle-Erased :
      (s : HandleStore V) (h : ℕ)
      → s.block_mutation ≡ false
      → IsSorted 0 s.entries
      → Returns (erase_handle k s h) (Erased s h)
  unfolding erase_handle
  erase_handle-Erased s h b srt =
      let o = index_of k (get_handle_value h) in
      (erase_entry k s o, rw b, erase_entry-Erased s h o srt refl)
