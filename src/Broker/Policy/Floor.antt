-- ===== src/Broker/Policy/Floor.antt =====
-- What the tables can and cannot change about the classification.
use garrison.Common.{
  String, ◌≡◌, refl, ap, ◌≢◌, inl, inr, false, not, ◌&&◌, Option, none, some, [], ◌∷◌, arith,
  eq_iff, str_eq, if◌then◌else◌, Bool-cases,
}
use garrison.Broker.Policy.{
  Tier, approve, PolicyTable, lookup, insert, delete, in_floor, classify, restore,
  register_test_policy_entry,
}

lookup-insert :
    (k j : String) (t : Tier) (m : PolicyTable)
    → lookup j (insert k t m) ≡ (if str_eq k j then some t else lookup j m)
unfolding lookup insert
lookup-insert k j t [] = refl
lookup-insert k j t ((i, u) ∷ m) =
    ground (arith, eq_iff k j, eq_iff i k, eq_iff i j, lookup-insert k j t m)

lookup-delete :
    (k j : String) (m : PolicyTable)
    → lookup j (delete k m) ≡ (if str_eq k j then none else lookup j m)
unfolding lookup delete
lookup-delete k j [] = ground arith
lookup-delete k j ((i, u) ∷ m) =
    ground (arith, eq_iff k j, eq_iff i k, eq_iff i j, lookup-delete k j m)

-- An action type is classified below `approve` only if it is off the floor and the table maps it
-- to that tier; this holds of every table.
pub classify_below_approve :
    (table : PolicyTable) (a : String) (t : Tier)
    → (classify table a).0 ≡ t
    → t ≢ approve
    → (in_floor a ≡ false) × (lookup a table ≡ some t)
unfolding classify
classify_below_approve table a t h n = ground arith

lookup-restore :
    (k j : String) (o : Option Tier) (m : PolicyTable)
    → lookup j (restore k o m) ≡ (if str_eq k j then o else lookup j m)
unfolding restore
lookup-restore k j (some t) m = lookup-insert k j t m
lookup-restore k j none m = lookup-delete k j m

lookup-cleanup :
    (k j : String) (t : Tier) (m : PolicyTable)
    → lookup j (restore k (lookup k m) (insert k t m)) ≡ lookup j m
lookup-cleanup k j t m =
    rw (lookup-restore k j (lookup k m) (insert k t m), lookup-insert k j t m)
      (elim (Bool-cases (str_eq k j)) [
        | inl same ↦ rw same (ap (λ i. lookup i m) ((eq_iff k j).0 same))
        | inr differ ↦ rw differ
      ])

-- Registering a test entry changes the classification of that type alone, which becomes the
-- registered tier if the type is off the floor; the returned cleanup undoes it for every type.
pub register-classify :
    (table : PolicyTable) (k j : String) (t : Tier)
    → let (table', cleanup) = register_test_policy_entry table k t in
      ((classify table' j).0 ≡ (if str_eq k j && not (in_floor j) then t else (classify table j).0))
      × (classify (cleanup table') j ≡ classify table j)
unfolding register_test_policy_entry classify
register-classify table k j t =
    (ground (arith, lookup-insert k j t table), rw (lookup-cleanup k j t table))
