-- ===== src/Spawn/Prepare/Cap.antt =====
-- The cap of a department over any sequence of spawns and ends.
use garrison.Common.{
  ℕ, ◌+◌, ◌≤◌, String, ◌≡◌, ◌∙◌, sym, ap, inl, inr, true, false, ◌&&◌, Option, none, some, List, [],
  ◌∷◌, ◌++◌, ◌==◌, if◌then◌else◌, Bool-cases, arith,
}
use garrison.Common.Int.{ℤ, pos, negsuc, pos_part, ltb_ℤ}
use garrison.Throttle.Gate.{Money}
use garrison.Spawn.Prepare.{
  Department, Run, find, running_in, release, State, Deps, Prep, prep_error, prep_done,
  prep_deferred, prepared, new_run, prepare_spawn,
}
use garrison.Spawn.Prepare.Starts.{Started, Kept, IsFree, PrepEnd, prepare_spawn-End}

-- A run's terminal write.
abbrev end_run : ℕ → List Run → List Run
end_run id [] = []
end_run id (r ∷ runs) =
    (if r.id == id then record r { is_running = false } else r) ∷ end_run id runs

end_run-le : (id d : ℕ) (runs : List Run) → running_in d (end_run id runs) ≤ running_in d runs
end_run-le id d [] = omega arith
end_run-le id d (r ∷ runs) = ground (arith, end_run-le id d runs)

running-append :
    (d : ℕ) (runs : List Run) (r : Run)
    → running_in d (runs ++ r ∷ [])
      ≡ running_in d runs + (if r.department == d && r.is_running then 1 else 0)
running-append d [] r = omega arith
running-append d (x ∷ runs) r = omega (arith, running-append d runs r)

grow-le :
    (d : ℕ) (runs : List Run) (r : Run) → running_in d (runs ++ r ∷ []) ≤ running_in d runs + 1
grow-le d runs r = let e = running-append d runs r in ground arith

grow-other :
    (d : ℕ) (runs : List Run) (r : Run)
    → (r.department == d) ≡ false
    → running_in d (runs ++ r ∷ []) ≡ running_in d runs
grow-other d runs r h = let e = running-append d runs r in ground arith

find-key :
    (id : ℕ) (ds : List Department) (d : Department)
    → find (λ (x : Department). x.id) id ds ≡ some d
    → d.id ≡ id
find-key id [] d h = cc
find-key id (x ∷ ds) d h = elim (Bool-cases (x.id == id)) [
  | inl y ↦ let e = rw y at h in ground (arith, e)
  | inr n ↦ find-key id ds d (rw n at h)
]

module _ (m : Money) where
  -- A spawn, or the end of a run with the slot of its agent.
  pub data Act : Type 1 where
    spawn : Deps m → ℕ → String → Act
    ended : ℕ → Option ℕ → Act

  abbrev released : Option ℕ → List ℕ → List ℕ
  released none xs = xs
  released (some a) xs = release a xs

  pub act : Act → State m → State m
  act (spawn deps id role_slug) s = (prepare_spawn m deps id role_slug s).0
  act (ended id slot) s = record s {
    db = record s.db { runs = end_run id s.db.runs };
    inflight = released slot s.inflight;
  }

  pub act_all : List Act → State m → State m
  unfolding act
  act_all [] s = s
  act_all (a ∷ rest) s = act_all rest (act a s)

  -- A department that is known has no more running instances than its cap.
  abbrev pub WithinCap : ℕ → State m → Type 0
  WithinCap k s =
      (d : Department)
      → find (λ (x : Department). x.id) k s.db.departments ≡ some d
      → running_in k s.db.runs ≤ pos_part d.concurrency_cap

  below-le : (n : ℕ) (cap : ℤ) → ltb_ℤ (pos n) cap ≡ true → n + 1 ≤ pos_part cap
  below-le n (pos c) h = ground arith
  below-le n (negsuc c) h = ground arith

  Started-Within :
      (k : ℕ) (deps : Deps m) (role_slug : String) (ticket id : ℕ) (d : Department)
      (slot : Option ℕ) (s t : State m)
      → IsFree m deps role_slug id ticket d s
      → Started m deps role_slug ticket d slot s t
      → WithinCap k s
      → WithinCap k t
  unfolding new_run
  Started-Within k deps role_slug ticket id d slot s t f e w x h =
      let (ev, _, _, (department, _, g)) = f.event in
      let key = find-key department s.db.departments d g in
      let found : find (λ (y : Department). y.id) k s.db.departments ≡ some x =
        rw e.departments at h in
      rw e.runs (elim (Bool-cases (d.id == k)) [
        | inl y ↦
            let same : d.id ≡ k = ground arith in
            let both : some x ≡ some d =
              sym found
              ∙ ap (λ i. find (λ (z : Department). z.id) i s.db.departments) (sym same ∙ key)
              ∙ g in
            let caps : pos_part x.concurrency_cap ≡ pos_part d.concurrency_cap = cc in
            let counts : running_in d.id s.db.runs ≡ running_in k s.db.runs = cc in
            omega (
              arith,
              below-le (running_in d.id s.db.runs) d.concurrency_cap f.below,
              caps,
              counts,
              grow-le k s.db.runs (new_run m deps d.id ticket role_slug),
            )
        | inr y ↦
            omega
              (arith, grow-other k s.db.runs (new_run m deps d.id ticket role_slug) y, w x found)
      ])

  act-Within : (k : ℕ) (a : Act) (s : State m) → WithinCap k s → WithinCap k (act a s)
  unfolding act
  act-Within k (spawn deps id role_slug) s w =
      by_end (prepare_spawn m deps id role_slug s) (prepare_spawn-End m deps role_slug id s)
    where
      kept : (t : State m) → Kept m deps role_slug s t → WithinCap k t
      kept t h x f = rw h.runs (w x (rw h.departments at f))

      by_end : (r : State m × Prep m) → PrepEnd m deps role_slug id s r → WithinCap k r.0
      by_end (t, prepared run ticket d slot) (f, e) =
          Started-Within k deps role_slug ticket id d slot s t f e w
      by_end (t, prep_error) h = kept t h
      by_end (t, prep_done) h = kept t h
      by_end (t, prep_deferred) h = kept t h
  act-Within k (ended id slot) s w = λ x f. omega (arith, end_run-le id k s.db.runs, w x f)

  -- If a department has no more running instances than its cap, that stays so over every sequence of
  -- spawns, of any events and with any failures, and of ends of runs, as long as no two spawns
  -- overlap and the cap is not changed.
  pub act_all-WithinCap :
      (k : ℕ) (acts : List Act) (s : State m) → WithinCap k s → WithinCap k (act_all acts s)
  unfolding act_all
  act_all-WithinCap k [] s w = w
  act_all-WithinCap k (a ∷ acts) s w = act_all-WithinCap k acts (act a s) (act-Within k a s w)
