-- ===== src/Spawn/Prepare/Starts.antt =====
-- When a spawn starts, and what is left of one that does not.
use garrison.Common.{
  ℕ, String, ◌≡◌, refl, ◌∙◌, sym, ap, ◌⊎◌, inl, inr, Bool, true, false, ◌||◌, Option, none, some,
  List, [], ◌∷◌, ◌++◌, if◌then◌else◌, if-elim, arith,
}
use garrison.Common.Int.{ℤ, pos, ltb_ℤ}
use garrison.Throttle.Gate.{Money, check_cap, CapCheck}
use garrison.Throttle.Fire.{Gated, may_spawn, gate_failed, deferred}
use garrison.Spawn.Prepare.{
  begin_tx, lock_event, get_department, mark_missing, commit_missing, cap_department, count_running,
  commit_audit, insert_instance, commit_running, Event, Department, find, running_in, holds,
  release, State, Deps, Prep, prep_error, prep_done, prep_deferred, prepared,
  check_dependency_satisfied, new_run, insert_running, after_dependency, after_gate, gate_of,
  with_slot, settle_slot, acquire_agent_slot, slot_agent, after_cap, skip_department,
  resolve_department, after_payload, after_lock, prepare_spawn,
}

module _ (m : Money) (deps : Deps m) (role_slug : String) where
  -- The slot of a spawn is that of the department's agent of the role, if slots are enforced and there
  -- is one: it was free, and is then held. Otherwise there is none, and the slots are as they were.
  abbrev pub Slots : Department → Option ℕ → State m → State m → Type 0
  Slots d none s t =
      ((deps.slots_enforced ≡ false) ⊎ (deps.agent_of d.id role_slug ≡ none))
      × (t.inflight ≡ s.inflight)
  Slots d (some a) s t =
      (deps.slots_enforced ≡ true)
      × (deps.agent_of d.id role_slug ≡ some a)
      × (holds a s.inflight ≡ false)
      × (t.inflight ≡ a ∷ s.inflight)

  -- A spawn that starts, from `s` to `t`, with the run of `ticket` in `d`.
  pub record Started (ticket : ℕ) (d : Department) (slot : Option ℕ) (s t : State m) : Type 0 where
    pub runs : t.db.runs ≡ s.db.runs ++ new_run m deps d.id ticket role_slug ∷ []
    pub departments : t.db.departments ≡ s.db.departments
    pub events : t.db.events ≡ s.db.events
    pub satisfied : check_dependency_satisfied m deps s.db ticket ≡ some true
    pub gated : (gate_of m deps d.company s).1 ≡ may_spawn
    pub slots : Slots d slot s t

  -- A call that starts nothing: no run is added, no slot is kept.
  pub record Kept (s t : State m) : Type 0 where
    pub runs : t.db.runs ≡ s.db.runs
    pub departments : t.db.departments ≡ s.db.departments
    pub inflight : t.inflight ≡ s.inflight

  abbrev SlotEnd : ℕ → Department → Option ℕ → State m → State m × Prep m → Type 0
  SlotEnd ticket d slot s (t, prepared id ticket' d' slot') =
      ((ticket' ≡ ticket) × (d' ≡ d) × (slot' ≡ slot) × (t.inflight ≡ s.inflight))
      × (t.db.runs ≡ s.db.runs ++ new_run m deps d.id ticket role_slug ∷ [])
      × ((t.db.departments ≡ s.db.departments) × (t.db.events ≡ s.db.events))
      × (check_dependency_satisfied m deps s.db ticket ≡ some true)
      × ((gate_of m deps d.company s).1 ≡ may_spawn)
  SlotEnd ticket d slot s (t, _) = Kept s t

  Kept-refl : (s : State m) → Kept s s
  Kept-refl s = record { runs = refl; departments = refl; inflight = refl }

  after_dependency-End :
      (ticket : ℕ) (d : Department) (slot : Option ℕ) (s : State m) (o : Option Bool)
      → check_dependency_satisfied m deps s.db ticket ≡ o
      → (gate_of m deps d.company s).1 ≡ may_spawn
      → SlotEnd ticket d slot s (after_dependency m deps ticket d role_slug slot s o)
  unfolding after_dependency insert_running
  after_dependency-End ticket d slot s none e g = Kept-refl s
  after_dependency-End ticket d slot s (some false) e g = Kept-refl s
  after_dependency-End ticket d slot s (some true) e g =
      if-elim (SlotEnd ticket d slot s) (deps.fails insert_instance || deps.fails commit_running) _
        _ (λ y. Kept-refl s) (λ n. ((refl, refl, refl, refl), refl, (refl, refl), e, g))

  after_gate-End :
      (ticket : ℕ) (d : Department) (slot : Option ℕ) (s : State m) (company : ℕ) (g : Gated m)
      → (gate_of m deps d.company s).1 ≡ g
      → SlotEnd ticket d slot s (after_gate m deps ticket d role_slug slot s company g)
  unfolding after_gate
  after_gate-End ticket d slot s company may_spawn e = after_dependency-End ticket d slot s _ refl e
  after_gate-End ticket d slot s company gate_failed e = Kept-refl s
  after_gate-End ticket d slot s company (deferred l) e =
      if-elim (SlotEnd ticket d slot s) (deps.fails commit_audit) _ _ (λ y. Kept-refl s)
        (λ n. record { runs = refl; departments = refl; inflight = refl })

  with_slot-End :
      (ticket : ℕ) (d : Department) (slot : Option ℕ) (s : State m)
      → SlotEnd ticket d slot s (with_slot m deps ticket d role_slug slot s)
  unfolding with_slot
  with_slot-End ticket d slot s =
      after_gate-End ticket d slot s (gate_of m deps d.company s).0 (gate_of m deps d.company s).1
        refl

  abbrev End : ℕ → Department → State m → State m × Prep m → Type 0
  End ticket d s (t, prepared id ticket' d' slot) =
      (ticket' ≡ ticket) × (d' ≡ d) × Started ticket d slot s t
  End ticket d s (t, _) = Kept s t

  release-new : (a : ℕ) (xs : List ℕ) → holds a xs ≡ false → release a (a ∷ xs) ≡ xs
  release-new a [] h = ground arith
  release-new a (x ∷ xs) h = ground (arith, release-new a xs)

  settle_slot-End :
      (ticket : ℕ) (d : Department) (a : ℕ) (s : State m) (r : State m × Prep m)
      → deps.slots_enforced ≡ true
      → deps.agent_of d.id role_slug ≡ some a
      → holds a s.inflight ≡ false
      → (gate_of m deps d.company (record s { inflight = a ∷ s.inflight })).1
        ≡ (gate_of m deps d.company s).1
      → SlotEnd ticket d (some a) (record s { inflight = a ∷ s.inflight }) r
      → End ticket d s (settle_slot m a r)
  unfolding settle_slot
  settle_slot-End ticket d a s (t, prepared id ticket' d' slot) on ag h g
        ((p, q, o, i), e, (f, v), c, w) =
      (
        p,
        q,
        record {
          runs = e;
          departments = f;
          events = v;
          satisfied = c;
          gated = sym g ∙ w;
          slots = rw o (on, ag, h, i);
        },
      )
  settle_slot-End ticket d a s (t, prep_error) on ag h g k = record {
    runs = k.runs;
    departments = k.departments;
    inflight = ap (release a) k.inflight ∙ release-new a s.inflight h;
  }
  settle_slot-End ticket d a s (t, prep_done) on ag h g k = record {
    runs = k.runs;
    departments = k.departments;
    inflight = ap (release a) k.inflight ∙ release-new a s.inflight h;
  }
  settle_slot-End ticket d a s (t, prep_deferred) on ag h g k = record {
    runs = k.runs;
    departments = k.departments;
    inflight = ap (release a) k.inflight ∙ release-new a s.inflight h;
  }

  plain-End :
      (ticket : ℕ) (d : Department) (s : State m) (r : State m × Prep m)
      → (deps.slots_enforced ≡ false) ⊎ (deps.agent_of d.id role_slug ≡ none)
      → SlotEnd ticket d none s r
      → End ticket d s r
  plain-End ticket d s (t, prepared id ticket' d' slot) off ((p, q, o, i), e, (f, v), c, w) = (
    p,
    q,
    record {
      runs = e;
      departments = f;
      events = v;
      satisfied = c;
      gated = w;
      slots = rw o (off, i);
    },
  )
  plain-End ticket d s (t, prep_error) off k = k
  plain-End ticket d s (t, prep_done) off k = k
  plain-End ticket d s (t, prep_deferred) off k = k

  gate_of-inflight :
      (o : Option ℕ) (s : State m) (xs : List ℕ)
      → (gate_of m deps o (record s { inflight = xs })).1 ≡ (gate_of m deps o s).1
  unfolding gate_of
  gate_of-inflight none s xs = refl
  gate_of-inflight (some company) s xs = refl

  slot_agent-none :
      (b : Bool) (o : Option ℕ) → (if b then o else none) ≡ none → (b ≡ false) ⊎ (o ≡ none)
  slot_agent-none true o h = inr h
  slot_agent-none false o h = inl refl

  slot_agent-some :
      (b : Bool) (o : Option ℕ) (a : ℕ)
      → (if b then o else none) ≡ some a
      → (b ≡ true) × (o ≡ some a)
  slot_agent-some true o a h = (refl, h)
  slot_agent-some false o a h = cc

  acquire_agent_slot-End :
      (ticket : ℕ) (d : Department) (s : State m) (o : Option ℕ)
      → (if deps.slots_enforced then deps.agent_of d.id role_slug else none) ≡ o
      → End ticket d s (acquire_agent_slot m deps ticket d role_slug s o)
  unfolding acquire_agent_slot
  acquire_agent_slot-End ticket d s none q =
      plain-End ticket d s _ (slot_agent-none _ _ q) (with_slot-End ticket d none s)
  acquire_agent_slot-End ticket d s (some a) q =
      let (on, ag) = slot_agent-some deps.slots_enforced (deps.agent_of d.id role_slug) a q in
      if-elim (End ticket d s) (holds a s.inflight) _ _ (λ y. Kept-refl s)
        (λ n.
          settle_slot-End ticket d a s _ on ag n (gate_of-inflight d.company s _)
            (with_slot-End ticket d (some a) (record s { inflight = a ∷ s.inflight })))

  -- The count of running instances is below the cap, and the event is not processed.
  pub record IsFree (id ticket : ℕ) (d : Department) (s : State m) : Type 0 where
    pub below : ltb_ℤ (pos (running_in d.id s.db.runs)) d.concurrency_cap ≡ true
    pub event :
        (e : Event) × (find (λ (x : Event). x.id) id s.db.events ≡ some e)
        × (e.processed ≡ false)
        × ((department : ℕ) × (deps.decode_payload e.payload ≡ some (ticket, department))
            × (find (λ (x : Department). x.id) department s.db.departments ≡ some d))

  abbrev pub PrepEnd : ℕ → State m → State m × Prep m → Type 0
  PrepEnd id s (t, prepared run ticket d slot) = IsFree id ticket d s × Started ticket d slot s t
  PrepEnd id s (t, _) = Kept s t

  free-End :
      (id ticket : ℕ) (d : Department) (s : State m) (r : State m × Prep m)
      → IsFree id ticket d s
      → End ticket d s r
      → PrepEnd id s r
  free-End id ticket d s (t, prepared run ticket' d' slot) f (p, q, e) = (rw (p, q) f, rw (p, q) e)
  free-End id ticket d s (t, prep_error) f k = k
  free-End id ticket d s (t, prep_done) f k = k
  free-End id ticket d s (t, prep_deferred) f k = k

  check_cap-allowed :
      (b1 b2 : Bool) (cap : ℤ) (n : ℕ) (c : CapCheck)
      → check_cap (if b1 then none else some cap) (if b2 then none else some n) ≡ some c
      → c.allowed ≡ ltb_ℤ (pos n) cap
  unfolding check_cap
  check_cap-allowed true b2 cap n c h = cc
  check_cap-allowed false true cap n c h = cc
  check_cap-allowed false false cap n c h = cc

  Read : ℕ → ℕ → Department → State m → Type 0
  Read id ticket d s =
      (e : Event) × (find (λ (x : Event). x.id) id s.db.events ≡ some e)
      × (e.processed ≡ false)
      × ((department : ℕ) × (deps.decode_payload e.payload ≡ some (ticket, department))
          × (find (λ (x : Department). x.id) department s.db.departments ≡ some d))

  after_cap-End :
      (id ticket : ℕ) (d : Department) (s : State m) (o : Option CapCheck)
      → ((c : CapCheck)
          → o ≡ some c
          → c.allowed ≡ ltb_ℤ (pos (running_in d.id s.db.runs)) d.concurrency_cap)
      → Read id ticket d s
      → PrepEnd id s (after_cap m deps ticket d role_slug s o)
  unfolding after_cap slot_agent Read
  after_cap-End id ticket d s none h read = Kept-refl s
  after_cap-End id ticket d s (some c) h read =
      if-elim (PrepEnd id s) c.allowed _ _
        (λ y.
          free-End id ticket d s _ (record { below = sym (h c refl) ∙ y; event = read })
            (acquire_agent_slot-End ticket d s _ refl))
        (λ n. Kept-refl s)

  skip_department-End : (id : ℕ) (s : State m) → PrepEnd id s (skip_department m deps id s)
  unfolding skip_department
  skip_department-End id s =
      if-elim (PrepEnd id s) (deps.fails mark_missing || deps.fails commit_missing) _ _
        (λ y. Kept-refl s) (λ n. record { runs = refl; departments = refl; inflight = refl })

  resolve_department-End :
      (id ticket : ℕ) (s : State m) (o : Option Department)
      → ((d : Department) → o ≡ some d → Read id ticket d s)
      → PrepEnd id s (resolve_department m deps id ticket role_slug s o)
  unfolding resolve_department
  resolve_department-End id ticket s none read = skip_department-End id s
  resolve_department-End id ticket s (some d) read =
      after_cap-End id ticket d s _
        (λ c.
          check_cap-allowed (deps.fails cap_department) (deps.fails count_running) d.concurrency_cap
            (running_in d.id s.db.runs) c)
        (read d refl)

  after_payload-End :
      (id : ℕ) (s : State m) (e : Event) (o : Option (ℕ × ℕ))
      → find (λ (x : Event). x.id) id s.db.events ≡ some e
      → e.processed ≡ false
      → deps.decode_payload e.payload ≡ o
      → PrepEnd id s (after_payload m deps id role_slug s o)
  unfolding after_payload Read
  after_payload-End id s e none f p q = Kept-refl s
  after_payload-End id s e (some (ticket, department)) f p q =
      if-elim (PrepEnd id s) (deps.fails get_department) _ _ (λ y. Kept-refl s)
        (λ n. resolve_department-End id ticket s _ (λ d g. (e, f, p, (department, q, g))))

  after_lock-End :
      (id : ℕ) (s : State m) (o : Option Event)
      → ((e : Event) → o ≡ some e → find (λ (x : Event). x.id) id s.db.events ≡ some e)
      → PrepEnd id s (after_lock m deps id role_slug s o)
  unfolding after_lock
  after_lock-End id s none f = Kept-refl s
  after_lock-End id s (some e) f =
      if-elim (PrepEnd id s) e.processed _ _ (λ y. Kept-refl s)
        (λ n. after_payload-End id s e _ (f e refl) n refl)

  query-found :
      (b : Bool) (o : Option Event) (e : Event) → (if b then none else o) ≡ some e → o ≡ some e
  query-found true o e h = cc
  query-found false o e h = h

  pub prepare_spawn-End :
      (id : ℕ) (s : State m) → PrepEnd id s (prepare_spawn m deps id role_slug s)
  unfolding prepare_spawn
  prepare_spawn-End id s =
      if-elim (PrepEnd id s) (deps.fails begin_tx) _ _ (λ y. Kept-refl s)
        (λ n. after_lock-End id s _ (λ e. query-found (deps.fails lock_event) _ e))
