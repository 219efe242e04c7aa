-- ===== src/Broker/Dispatcher/Posts.antt =====
-- Which calls Handle makes to GitHub.
use garrison.Common.{
  String, ◌≡◌, refl, ◌⊎◌, inl, inr, Option, none, some, List, [], ◌∷◌, arith, Bool-cases, Result,
  ok, err,
}
use garrison.Broker.Policy.{Tier, auto, notify, approve, human_only, other}
use garrison.Broker.Tables.{Action, Db, Status, claim, approved}
use garrison.Broker.Dispatcher.{
  Call, begin, claim_row, Run, Post, Target, Gate, dispatch, settled, tier_gate, settle, deliver,
  with_secret, pass_gate, handle_claimed, handle,
}

-- A row that may reach GitHub: below `approve`, or approved by the operator.
abbrev pub MayPost : Tier → Status → Type 0
MayPost auto s = Unit
MayPost notify s = Unit
MayPost approve s = s ≡ approved
MayPost human_only s = ⊥
MayPost (other t) s = ⊥

pub record IsAuthorised (r : Run) (db : Db) (p : Post) : Type 0 where
  pub claimed : claim r.locked db.actions ≡ some p.row
  pub allowed : MayPost p.row.tier p.row.status
  pub target_stored : r.parse_target p.row.target ≡ ok p.target
  pub body_stored : p.body ≡ p.row.rendered_payload
  pub secret_fetched : r.vault ≡ ok p.pat

-- No call, or one that is authorised.
abbrev pub PostsOf : Run → Db → List Post → Type 0
PostsOf r db posts = (posts ≡ []) ⊎ ((p : Post) × (posts ≡ p ∷ []) × IsAuthorised r db p)

pub posts-settle :
    (db : Db) (posts : List Post) (tx : Result Call Db) → (settle db posts tx).posts ≡ posts
posts-settle db posts (ok new) = refl
posts-settle db posts (err c) = refl

tier_gate-dispatch :
    (r : Run) (db : Db) (row : Action) (t : Tier)
    → tier_gate r db row t ≡ dispatch
    → MayPost t row.status
unfolding tier_gate
tier_gate-dispatch r db row auto e = tt
tier_gate-dispatch r db row notify e = tt
tier_gate-dispatch r db row approve e = ground arith
tier_gate-dispatch r db row human_only e = cc
tier_gate-dispatch r db row (other t) e = cc

module _ (r : Run) (db : Db) (row : Action) (claimed : claim r.locked db.actions ≡ some row) where
  deliver-PostsOf :
      (pat : String) (o : Result String Target)
      → MayPost row.tier row.status
      → r.vault ≡ ok pat
      → r.parse_target row.target ≡ o
      → PostsOf r db (deliver r db row pat o).posts
  unfolding deliver
  deliver-PostsOf pat (err e) a v p = inl (posts-settle db [] _)
  deliver-PostsOf pat (ok t) a v p = inr (
    record { row = row; target = t; body = row.rendered_payload; pat = pat },
    posts-settle db _ _,
    record {
      claimed = claimed;
      allowed = a;
      target_stored = p;
      body_stored = refl;
      secret_fetched = v;
    },
  )

  with_secret-PostsOf :
      (o : Result String String)
      → MayPost row.tier row.status
      → r.vault ≡ o
      → PostsOf r db (with_secret r db row o).posts
  unfolding with_secret
  with_secret-PostsOf (err e) a v = inl (posts-settle db [] _)
  with_secret-PostsOf (ok pat) a v = deliver-PostsOf pat (r.parse_target row.target) a v refl

  pass_gate-PostsOf :
      (g : Gate) → tier_gate r db row row.tier ≡ g → PostsOf r db (pass_gate r db row g).posts
  unfolding pass_gate
  pass_gate-PostsOf (settled tx) e = inl (posts-settle db [] tx)
  pass_gate-PostsOf dispatch e =
      with_secret-PostsOf r.vault (tier_gate-dispatch r db row row.tier e) refl

handle_claimed-PostsOf :
    (r : Run) (db : Db) (o : Option Action)
    → claim r.locked db.actions ≡ o
    → PostsOf r db (handle_claimed r db o).posts
unfolding handle_claimed
handle_claimed-PostsOf r db none c = inl (posts-settle db [] _)
handle_claimed-PostsOf r db (some row) c =
    pass_gate-PostsOf r db row c (tier_gate r db row row.tier) refl

-- One call of Handle makes at most one call to GitHub. If it makes one, it is for the row that was
-- claimed, whose tier is `auto` or `notify`, or `approve` with status `approved`; it carries the
-- stored target and payload, and the secret that the vault returned.
pub handle-PostsOf : (r : Run) (db : Db) → PostsOf r db (handle r db).posts
unfolding handle
handle-PostsOf r db = elim (Bool-cases (r.fails begin)) [
  | inl f ↦ inl (rw f)
  | inr g ↦ elim (Bool-cases (r.fails claim_row)) [
    | inl f ↦ inl (rw (g, f))
    | inr h ↦ rw (g, h) (handle_claimed-PostsOf r db (claim r.locked db.actions) refl)
  ]
]
