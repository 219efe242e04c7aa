-- ===== src/Spawn/Inflight/Refines.antt =====
-- What a holder of a slot can rely on: an abstract table of who holds which agent.
use garrison.Common.{
  ℕ, zero, suc, ◌<◌, ◌≡◌, refl, ◌∙◌, sym, ap, ◌⊎◌, inl, inr, Bool, true, false, Option, none, some,
  List, [], ◌∷◌, ◌++◌, ◌==◌, length, if◌then◌else◌, Bool-cases, arith,
}
use garrison.Spawn.Prepare.{holds, release}
use garrison.Spawn.Inflight.{
  Closure, AgentInflight, get_elem?, spend, new_agent_inflight, try_acquire, call_once, call_found,
  call_release, Op, acquire, call, run_ops,
}

-- Who holds an agent, by the number of the grant, and how many grants there were.
pub record Slots : Type 0 where
  pub holder : ℕ → Option ℕ
  pub granted : ℕ

abbrev pub is_held : Option ℕ → Bool
is_held none = false
is_held (some k) = true

abbrev pub none_if : ℕ → Option ℕ → Option ℕ
none_if k none = none
none_if k (some j) = if j == k then none else some j

abbrev grant_to : ℕ → ℕ → (ℕ → Option ℕ) → ℕ → Option ℕ
grant_to agent k holder b = if b == agent then some k else holder b

-- An agent that is free is granted, and only the grant that holds it gives it back.
pub grant : ℕ → Slots → Slots × Option ℕ
grant agent s = if is_held (s.holder agent) then (s, none) else (
  record { holder = grant_to agent s.granted s.holder; granted = suc s.granted },
  some s.granted,
)

pub give_back : ℕ → Slots → Slots
give_back k s = record s { holder = λ b. none_if k (s.holder b) }

pub replay : List Op → Slots → Slots × List (Option ℕ)
unfolding grant give_back
replay [] s = (s, [])
replay (acquire agent ∷ ops) s =
    let (next, answer) = grant agent s in
    let (last, answers) = replay ops next in (last, answer ∷ answers)
replay (call k ∷ ops) s = replay ops (give_back k s)

pub record Shows (a : AgentInflight) (s : Slots) : Type 0 where
  pub held : (b : ℕ) → holds b a.inflight ≡ is_held (s.holder b)
  pub granted : s.granted ≡ length a.closures
  pub opened :
      (b k : ℕ)
      → s.holder b ≡ some k
      → get_elem? a.closures k ≡ some (record { agent = b; spent = false })
  pub owned :
      (b k : ℕ)
      → get_elem? a.closures k ≡ some (record { agent = b; spent = false })
      → s.holder b ≡ some k

get_elem-bound : (cs : List Closure) (k : ℕ) (c : Closure) → get_elem? cs k ≡ some c → k < length cs
get_elem-bound [] k c h = cc
get_elem-bound (d ∷ cs) zero c h = omega arith
get_elem-bound (d ∷ cs) (suc k) c h = omega (arith, get_elem-bound cs k c h)

get_elem-left :
    (cs : List Closure) (d : Closure) (k : ℕ) (c : Closure)
    → get_elem? cs k ≡ some c
    → get_elem? (cs ++ d ∷ []) k ≡ some c
get_elem-left [] d k c h = cc
get_elem-left (e ∷ cs) d zero c h = h
get_elem-left (e ∷ cs) d (suc k) c h = get_elem-left cs d k c h

get_elem-last : (cs : List Closure) (d : Closure) → get_elem? (cs ++ d ∷ []) (length cs) ≡ some d
get_elem-last [] d = refl
get_elem-last (e ∷ cs) d = get_elem-last cs d

get_elem-snoc :
    (cs : List Closure) (d : Closure) (k : ℕ) (c : Closure)
    → get_elem? (cs ++ d ∷ []) k ≡ some c
    → (get_elem? cs k ≡ some c) ⊎ ((k ≡ length cs) × (c ≡ d))
get_elem-snoc [] d zero c h = inr (refl, cc)
get_elem-snoc [] d (suc k) c h = cc
get_elem-snoc (e ∷ cs) d zero c h = inl h
get_elem-snoc (e ∷ cs) d (suc k) c h = elim (get_elem-snoc cs d k c h) [
  | inl x ↦ inl x
  | inr (p, q) ↦ inr (ap suc p, q)
]

spend-other :
    (cs : List Closure) (k j : ℕ) → (j == k) ≡ false → get_elem? (spend cs k) j ≡ get_elem? cs j
spend-other [] k j h = refl
spend-other (c ∷ cs) zero zero h = ground arith
spend-other (c ∷ cs) zero (suc j) h = refl
spend-other (c ∷ cs) (suc k) zero h = refl
spend-other (c ∷ cs) (suc k) (suc j) h = spend-other cs k j (ground arith)

spend-same :
    (cs : List Closure) (k b : ℕ)
    → ¬ (get_elem? (spend cs k) k ≡ some (record { agent = b; spent = false }))
spend-same [] k b h = cc
spend-same (c ∷ cs) zero b h = cc
spend-same (c ∷ cs) (suc k) b h = spend-same cs k b h

length-spend : (cs : List Closure) (k : ℕ) → length (spend cs k) ≡ length cs
length-spend [] k = refl
length-spend (c ∷ cs) zero = refl
length-spend (c ∷ cs) (suc k) = ap suc (length-spend cs k)

holds-release :
    (b c : ℕ) (xs : List ℕ) → holds b (release c xs) ≡ (if b == c then false else holds b xs)
holds-release b c [] = ground arith
holds-release b c (x ∷ xs) = ground (arith, holds-release b c xs)

-- Both start with nothing held.
pub no_slots : Slots
no_slots = record { holder = λ b. none; granted = 0 }

pub Shows-new : Shows new_agent_inflight no_slots
unfolding no_slots
Shows-new = record { held = λ b. refl; granted = refl; opened = λ b k h. cc; owned = λ b k h. cc }

length-snoc : (cs : List Closure) (d : Closure) → length (cs ++ d ∷ []) ≡ suc (length cs)
length-snoc [] d = refl
length-snoc (c ∷ cs) d = ap suc (length-snoc cs d)

none_if-some : (k j : ℕ) (o : Option ℕ) → none_if k o ≡ some j → (o ≡ some j) × ((j == k) ≡ false)
none_if-some k j none h = cc
none_if-some k j (some i) h = ground arith

none_if-other : (k : ℕ) (o : Option ℕ) → ¬ (o ≡ some k) → none_if k o ≡ o
none_if-other k none h = refl
none_if-other k (some i) h = ground arith

none_if-kept : (k j : ℕ) (o : Option ℕ) → o ≡ some j → (j == k) ≡ false → none_if k o ≡ some j
none_if-kept k j o h n = ap (none_if k) h ∙ ground arith

none_if-same : (k : ℕ) (o : Option ℕ) → o ≡ some k → none_if k o ≡ none
none_if-same k o h = ap (none_if k) h ∙ ground arith

abbrev unspent : ℕ → Closure
unspent b = record { agent = b; spent = false }

grant_to-same :
    (agent k b : ℕ) (holder : ℕ → Option ℕ)
    → (b == agent) ≡ true
    → grant_to agent k holder b ≡ some k
grant_to-same agent k b holder e = ground arith

grant_to-other :
    (agent k b : ℕ) (holder : ℕ → Option ℕ)
    → (b == agent) ≡ false
    → grant_to agent k holder b ≡ holder b
grant_to-other agent k b holder e = ground arith

Shows-grant :
    (agent : ℕ) (a : AgentInflight) (s : Slots)
    → Shows a s
    → holds agent a.inflight ≡ false
    → Shows
        (record {
          inflight = agent ∷ a.inflight;
          closures = a.closures ++ record { agent = agent; spent = false } ∷ [];
        })
        (record { holder = grant_to agent s.granted s.holder; granted = suc s.granted })
Shows-grant agent a s i free = record {
  held = λ b. ground (arith, i.held b);
  granted =
      omega (arith, i.granted, length-snoc a.closures (record { agent = agent; spent = false }));
  opened = λ b k h. elim (Bool-cases (b == agent)) [
    | inl e ↦
        let m : b ≡ agent = ground arith in
        let l : k ≡ length a.closures =
          grind (arith, grant_to-same agent s.granted b s.holder e, i.granted) in
        ap (get_elem? (a.closures ++ unspent agent ∷ [])) l
        ∙ get_elem-last a.closures (unspent agent)
        ∙ ap (λ x. some (unspent x)) (sym m)
    | inr e ↦
        get_elem-left a.closures _ k _
          (i.opened b k (sym (grant_to-other agent s.granted b s.holder e) ∙ h))
  ];
  owned = λ b k h. elim (get_elem-snoc a.closures _ k _ h) [
    | inl x ↦ elim (Bool-cases (b == agent)) [
      | inl e ↦
          let m : b ≡ agent = ground arith in
          let o : holds agent a.inflight ≡ true =
            ap (λ y. holds y a.inflight) (sym m) ∙ i.held b ∙ ap is_held (i.owned b k x) in
          cc
      | inr e ↦ grant_to-other agent s.granted b s.holder e ∙ i.owned b k x
    ]
    | inr (p, q) ↦
        let m : b ≡ agent = ap (λ (c : Closure). c.agent) q in
        grant_to-same agent s.granted b s.holder (ground arith) ∙ ap some (i.granted ∙ sym p)
  ];
}

Shows-untouched :
    (k : ℕ) (a : AgentInflight) (s : Slots)
    → Shows a s
    → ((b : ℕ) → ¬ (s.holder b ≡ some k))
    → Shows a (give_back k s)
unfolding give_back
Shows-untouched k a s i n = record {
  held = λ b. i.held b ∙ ap is_held (sym (none_if-other k (s.holder b) (n b)));
  granted = i.granted;
  opened = λ b j h. i.opened b j (none_if-some k j (s.holder b) h).0;
  owned = λ b j h. none_if-other k (s.holder b) (n b) ∙ i.owned b j h;
}

Shows-released :
    (k agent : ℕ) (a : AgentInflight) (s : Slots)
    → Shows a s
    → get_elem? a.closures k ≡ some (unspent agent)
    → Shows
        (record { inflight = release agent a.inflight; closures = spend a.closures k })
        (give_back k s)
unfolding give_back
Shows-released k agent a s i e = record {
  held = λ b. elim (Bool-cases (b == agent)) [
    | inl t ↦
        let m : b ≡ agent = ground arith in
        ground (
          arith,
          holds-release b agent a.inflight,
          none_if-same k (s.holder b) (ap s.holder m ∙ i.owned agent k e),
        )
    | inr f ↦
        let n : ¬ (s.holder b ≡ some k) = λ h. let g = i.opened b k h in ground arith in
        ground (arith, holds-release b agent a.inflight, none_if-other k (s.holder b) n, i.held b)
  ];
  granted = i.granted ∙ sym (length-spend a.closures k);
  opened = λ b j h.
      let (p, q) = none_if-some k j (s.holder b) h in spend-other a.closures k j q ∙ i.opened b j p;
  owned = λ b j h. elim (Bool-cases (j == k)) [
    | inl t ↦
        let m : j ≡ k = ground arith in
        let w = spend-same a.closures k b (ap (get_elem? (spend a.closures k)) (sym m) ∙ h) in
        elim w [ ]
    | inr f ↦ none_if-kept k j (s.holder b) (i.owned b j (sym (spend-other a.closures k j f) ∙ h)) f
  ];
}

Shows-once :
    (spent : Bool) (agent k : ℕ) (a : AgentInflight) (s : Slots)
    → Shows a s
    → get_elem? a.closures k ≡ some (record { agent = agent; spent = spent })
    → Shows (call_once (record { agent = agent; spent = spent }) k a) (give_back k s)
unfolding call_once
Shows-once true agent k a s i e = Shows-untouched k a s i (λ b h. let g = i.opened b k h in cc)
Shows-once false agent k a s i e = Shows-released k agent a s i e

Shows-found :
    (o : Option Closure) (k : ℕ) (a : AgentInflight) (s : Slots)
    → Shows a s
    → get_elem? a.closures k ≡ o
    → Shows (call_found o k a) (give_back k s)
unfolding call_found
Shows-found none k a s i e = Shows-untouched k a s i (λ b h. let g = i.opened b k h in cc)
Shows-found (some c) k a s i e = Shows-once c.spent c.agent k a s i e

Shows-call :
    (k : ℕ) (a : AgentInflight) (s : Slots) → Shows a s → Shows (call_release k a) (give_back k s)
unfolding call_release
Shows-call k a s i = Shows-found (get_elem? a.closures k) k a s i refl

-- Two results that show each other, with the same answers.
pub Agrees : {A : Type 0} → AgentInflight × A → Slots × A → Type 0
Agrees x y = Shows x.0 y.0 × (x.1 ≡ y.1)

-- A relation of two conditionals with the same test.
both-elim :
    {A B : Type 0} (R : A → B → Type 0) (b c : Bool) (x y : A) (z w : B)
    → b ≡ c
    → (b ≡ true → R x z)
    → (b ≡ false → R y w)
    → R (if b then x else y) (if c then z else w)
both-elim R true true x y z w e f g = f refl
both-elim R false false x y z w e f g = g refl
both-elim R true false x y z w e f g = cc
both-elim R false true x y z w e f g = cc

Agrees-acquire :
    (agent : ℕ) (a : AgentInflight) (s : Slots)
    → Shows a s
    → Agrees (try_acquire agent a) (grant agent s)
unfolding try_acquire grant Agrees
Agrees-acquire agent a s i =
    both-elim (Agrees {A = Option ℕ}) (holds agent a.inflight) (is_held (s.holder agent)) _ _ _ _
      (i.held agent) (λ h. (i, refl)) (λ h. (Shows-grant agent a s i h, ap some (sym i.granted)))

-- AgentInflight, the set of agents and the closures it returns, refines a table that records which
-- grant holds which agent. If they agree at first, as they do when nothing is held, then over any
-- sequence of calls of TryAcquire and of the closures, in any order and each any number of times,
-- the answers are those of the table, and at the end they agree: the set holds exactly the agents
-- that the table does. A closure frees its agent only while its own grant holds it.
pub run_ops-Agrees :
    (ops : List Op) (a : AgentInflight) (s : Slots)
    → Shows a s
    → Agrees (run_ops ops a) (replay ops s)
unfolding run_ops replay Agrees
run_ops-Agrees [] a s i = (i, refl)
run_ops-Agrees (acquire agent ∷ ops) a s i =
    let (p, q) = Agrees-acquire agent a s i in
    let (p', q') = run_ops-Agrees ops (try_acquire agent a).0 (grant agent s).0 p in (p', cc)
run_ops-Agrees (call k ∷ ops) a s i =
    run_ops-Agrees ops (call_release k a) (give_back k s) (Shows-call k a s i)
