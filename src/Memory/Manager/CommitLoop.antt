-- ===== src/Memory/Manager/CommitLoop.antt =====
-- src/emulator/memory_manager.cpp: the loop of `commit_memory` and its tail, against `fill`.
use emulator_momo.Common.{
  ℕ, ◌+◌, ◌-◌, ◌≤◌, ◌<◌, ◌≡◌, refl, true, false, ◌&&◌, ◌∙◌, sym, inl, inr, Option, none, some, [],
  ◌∷◌, ◌++◌, arith, put, lt→ltb, ltb→lt, ltb, leb, if◌then◌else◌, max, add64, sub64, add64-eq,
  sub64-eq, u64_mod, Bool-cases,
}
use mathlib.Core.List.{append-nil, append_assoc}
use emulator_momo.Memory.Spans.{Spans-le, Spans-append, put-between}
use emulator_momo.Memory.Region.{Permission, CommittedRegion, CommittedRegionMap, straddled}
use emulator_momo.Memory.Region.Merge.{Regions}
use emulator_momo.Memory.Manager.{
  CommitState, commit_start, commit_gap, commit_step, commit_loop, commit_tail, tail_open,
}
use emulator_momo.Memory.Manager.Fill.{gap, gap_calls, gap-Regions, fill, fill_calls}

-- What the loop and the tail together make of the state.
module _ (address end : ℕ) (p : Permission) where
  abbrev pub finish : CommittedRegionMap → CommitState → CommitState
  finish m s = commit_tail address end p (commit_loop address end p m s)

  -- The lower end of the next gap stands below what is left of the map.
  abbrev Before : ℕ → CommittedRegionMap → Type 0
  Before from [] = Unit {0}
  Before from ((a, r) ∷ m) = from < a

  put-Before :
      (from : ℕ) (g : CommittedRegion) (m : CommittedRegionMap)
      → Before from m
      → put from g m ≡ (from, g) ∷ m
  unfolding put
  put-Before from g [] h = refl
  put-Before from g ((a, r) ∷ m) h = ground arith

  -- A gap that is filled stands between the regions below and above it.
  record Fills (lo cur from until : ℕ) (done m : CommittedRegionMap) (s t : CommitState)
      : Type 0 where
    regions : t.regions ≡ done ++ (gap address end p from until ++ m)
    calls : t.calls ≡ s.calls ++ gap_calls address end p from until

  commit_gap-Fills :
      (lo cur from until : ℕ) (done m : CommittedRegionMap) (s : CommitState)
      → s.regions ≡ done ++ m
      → Regions lo cur done
      → cur ≤ from
      → until < u64_mod
      → from < until
      → Before from m
      → Fills lo cur from until done m s (commit_gap from (sub64 until from) p s)
  unfolding commit_gap gap gap_calls
  commit_gap-Fills lo cur from until done m s e w h k l b =
      let g : CommittedRegion = record { length = until - from; permissions = p } in
      let n = sub64-eq until from (omega arith) k in
      let is_open = lt→ltb from until l in
      record {
        regions =
            rw (n, is_open, e)
              (put-between (λ (r : CommittedRegion). r.length) lo cur from g done m w h
                (put-Before from g m b));
        calls = rw (n, is_open);
      }

  no_gap-Fills :
      (lo cur from until : ℕ) (done m : CommittedRegionMap) (s : CommitState)
      → s.regions ≡ done ++ m
      → until ≤ from
      → Fills lo cur from until done m s s
  unfolding gap gap_calls
  no_gap-Fills lo cur from until done m s e h =
      let closed : ltb from until ≡ false = ground arith in
      record { regions = rw closed e; calls = rw closed (sym (append-nil s.calls)) }

  tail_open-eq :
      (last : Option (ℕ × CommittedRegion))
      → address < end
      → tail_open end last ≡ ltb (commit_start address last) end
  unfolding tail_open commit_start
  tail_open-eq none h = sym (lt→ltb address end h)
  tail_open-eq (some e) h = refl

  commit_tail-eq :
      (s : CommitState) (from : ℕ)
      → address < end
      → commit_start address s.last ≡ from
      → commit_tail address end p s
        ≡ (if ltb from end then commit_gap from (sub64 end from) p s else s)
  unfolding commit_tail
  commit_tail-eq s from h e = rw (tail_open-eq s.last h, e)

  commit_tail-Fills :
      (lo cur from : ℕ) (done m : CommittedRegionMap) (s : CommitState)
      → s.regions ≡ done ++ m
      → Regions lo cur done
      → cur ≤ from
      → end < u64_mod
      → address < end
      → commit_start address s.last ≡ from
      → (from < end → Before from m)
      → Fills lo cur from end done m s (commit_tail address end p s)
  commit_tail-Fills lo cur from done m s e w h k l st b =
      rw (commit_tail-eq s from l st) (elim (Bool-cases (ltb from end)) [
        | inl t ↦
            let lt = ltb→lt from end t in
            rw t (commit_gap-Fills lo cur from end done m s e w h k lt (b lt))
        | inr t ↦ rw t (no_gap-Fills lo cur from end done m s e (ground arith))
      ])

  -- One round of the loop, at a region inside the range.
  commit_step-Fills :
      (lo cur from a : ℕ) (r : CommittedRegion) (done m : CommittedRegionMap) (s : CommitState)
      → s.regions ≡ done ++ (a, r) ∷ m
      → Regions lo cur done
      → cur ≤ from
      → a < u64_mod
      → from ≤ a
      → address ≤ a
      → add64 a r.length ≤ end
      → commit_start address s.last ≡ from
      → Fills lo cur from a done ((a, r) ∷ m) s (commit_step address end p a r s)
        × ((commit_step address end p a r s).last ≡ some (a, r))
  unfolding commit_step commit_gap
  commit_step-Fills lo cur from a r done m s e w h k l d n st =
      let t1 : leb address a && leb (add64 a r.length) end ≡ true = ground arith in
      let sb = sub64-eq a from l k in
      elim (Bool-cases (ltb from a)) [
        | inl t ↦
            let lt = ltb→lt from a t in
            let one = commit_gap-Fills lo cur from a done ((a, r) ∷ m) s e w h k lt lt in
            let pos : ltb 0 (a - from) ≡ true = ground arith in
            rw (t1, st, sb, pos, ← sb) (record { regions = one.regions; calls = one.calls }, refl)
        | inr t ↦
            let two = no_gap-Fills lo cur from a done ((a, r) ∷ m) s e (ground arith) in
            let zero_length : ltb 0 (a - from) ≡ false = ground arith in
            rw (t1, st, sb, zero_length) (record { regions = two.regions; calls = two.calls }, refl)
      ]

  append_cons :
      (done : CommittedRegionMap) (g m : CommittedRegionMap) (a : ℕ) (r : CommittedRegion)
      → done ++ (g ++ (a, r) ∷ m) ≡ (done ++ (g ++ (a, r) ∷ [])) ++ m
  append_cons done g m a r = simp append_assoc

  abbrev pub Finishes : ℕ → CommittedRegionMap → CommittedRegionMap → CommitState → Type 0
  Finishes cur done m s =
      ((finish m s).regions ≡ done ++ fill address end p cur m)
      × ((finish m s).calls ≡ s.calls ++ fill_calls address end p cur m)

  -- The map below the iterator after a region inside the range.
  abbrev extended : ℕ → CommittedRegionMap → ℕ → CommittedRegion → CommittedRegionMap
  extended cur done a r = done ++ (gap address end p (max address cur) a ++ (a, r) ∷ [])

  extended-Regions :
      (lo hi cur : ℕ) (done m : CommittedRegionMap) (a : ℕ) (r : CommittedRegion)
      → Regions lo cur done
      → Regions cur hi ((a, r) ∷ m)
      → Regions lo (a + r.length) (extended cur done a r)
  extended-Regions lo hi cur done m a r w v =
      Spans-append (λ (r : CommittedRegion). r.length) lo cur (a + r.length) done
        (gap address end p (max address cur) a ++ (a, r) ∷ []) w
        (gap-Regions address end p (max address cur) a cur (a + r.length) ((a, r) ∷ [])
          (omega arith) (omega arith) (v.0, v.1, omega arith)
          (λ _. (omega arith, v.1, omega arith)))

  Finishes-inner :
      (lo hi cur : ℕ) (done m : CommittedRegionMap) (a : ℕ) (r : CommittedRegion) (s : CommitState)
      → (leb end a ≡ false)
      → (leb address a ≡ true)
      → Fills lo cur (max address cur) a done ((a, r) ∷ m) s (commit_step address end p a r s)
      → Finishes (a + r.length) (extended cur done a r) m (commit_step address end p a r s)
      → Finishes cur done ((a, r) ∷ m) s
  unfolding commit_loop fill fill_calls
  Finishes-inner lo hi cur done m a r s t d f ih =
      let g = gap address end p (max address cur) a in
      let rest = fill address end p (a + r.length) m in
      rw (t, d, commit_loop, fill, fill_calls)
        (
          ih.0 ∙ sym (append_cons done g rest a r),
          ih.1
              ∙ rw f.calls (
                  append_assoc s.calls (gap_calls address end p (max address cur) a)
                    (fill_calls address end p (a + r.length) m)),
        )

  Finishes-outer :
      (cur : ℕ) (done m : CommittedRegionMap) (a : ℕ) (r : CommittedRegion) (s : CommitState)
      → (leb end a ≡ false)
      → (leb address a ≡ false)
      → Finishes (a + r.length) (done ++ (a, r) ∷ []) m s
      → Finishes cur done ((a, r) ∷ m) s
  unfolding commit_loop commit_step fill fill_calls
  Finishes-outer cur done m a r s t d ih =
      rw (t, d, commit_loop, commit_step, fill, fill_calls)
        (ih.0 ∙ append_assoc done ((a, r) ∷ []) (fill address end p (a + r.length) m), ih.1)

  -- The loop and the tail leave what `fill` says.
  pub finish-fill :
      (lo hi cur : ℕ) (done m : CommittedRegionMap) (s : CommitState)
      → hi < u64_mod
      → s.regions ≡ done ++ m
      → Regions lo cur done
      → Regions cur hi m
      → commit_start address s.last ≡ max address cur
      → address < end
      → end ≤ hi
      → straddled address m ≡ false
      → straddled end m ≡ false
      → Finishes cur done m s
  unfolding commit_loop commit_start fill fill_calls straddled
  finish-fill lo hi cur done [] s hh e w v st lt le sa se =
      let f =
        commit_tail-Fills lo cur (max address cur) done [] s e w (omega arith) (omega arith) lt st
          (λ _. tt) in
      (f.regions ∙ rw (append-nil (gap address end p (max address cur) end)), f.calls)
  finish-fill lo hi cur done ((a, r) ∷ m) s hh e w v st lt le sa se =
      elim (Bool-cases (leb end a)) [
        | inl t ↦
            let f =
              commit_tail-Fills lo cur (max address cur) done ((a, r) ∷ m) s e w (omega arith)
                (omega arith) lt st (λ q. ground arith) in
            rw (t, commit_loop, fill, fill_calls) (f.regions, f.calls)
        | inr t ↦ elim (Bool-cases (leb address a)) [
          | inl d ↦
              let top_le = Spans-le (λ (r : CommittedRegion). r.length) (a + r.length) hi m v.2 in
              let sum = add64-eq a r.length (omega arith) in
              let fits : add64 a r.length ≤ end = rw sum (ground arith) in
              let f =
                commit_step-Fills lo cur (max address cur) a r done m s e w (omega arith)
                  (omega arith) (ground arith) (ground arith) fits st in
              let st' : commit_start address (commit_step address end p a r s).last
                  ≡ max address (a + r.length) =
                rw (f.1, commit_start, sum) (ground arith) in
              Finishes-inner lo hi cur done m a r s t d f.0 (
                finish-fill lo hi (a + r.length) (extended cur done a r) m
                  (commit_step address end p a r s) hh (f.0.regions ∙ append_cons done _ m a r)
                  (extended-Regions lo hi cur done m a r w v) v.2 st' lt le (ground arith)
                  (ground arith))
          | inr d ↦ Finishes-outer cur done m a r s t d (
              finish-fill lo hi (a + r.length) (done ++ (a, r) ∷ []) m s hh
                (e ∙ sym (append_assoc done ((a, r) ∷ []) m))
                (Spans-append (λ (r : CommittedRegion). r.length) lo cur (a + r.length) done
                  ((a, r) ∷ []) w (v.0, v.1, omega arith))
                v.2 (st ∙ ground arith) lt le (ground arith) (ground arith))
        ]
      ]
