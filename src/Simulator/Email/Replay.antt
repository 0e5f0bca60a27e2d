-- ===== src/Simulator/Email/Replay.antt =====
-- An idempotency key is bound to one operation, one request and one effect.
use watchkeeper.Prelude.{
  true, none, if◌then◌else◌, ◌||◌, Bool, some-equal, sym, ◌∙◌, [], ap, arith, ◌∷◌, eq_iff, subst,
  some, str_eq, ◌++◌, false, ◌≡◌, is_some, List, String, Option, refl,
}
use watchkeeper.Domain.Types.{Result, Uuid, ok, err}
use watchkeeper.Simulator.Email.{
  commit_with, database_error, settled, CommitOutcome, email_fingerprint, EmailDb, insert_key,
  EmailEffect, KeyRow, EmailRequest, replay_effect, insert_effect, new_key, commit_keyed,
  commit_effect, find_effect, insert_dispatch, new_effect, EmailWorld, find_key, Codec, commit,
}

-- The key has a row for this operation and fingerprint, and the effect it names is `e`.
record KeyBound (key fingerprint : String) (operation_id : Uuid) (e : EmailEffect) (db : EmailDb)
    : Type 0 where
  pub row : KeyRow
  pub found : find_key key db.keys ≡ some row
  pub same_fingerprint : row.fingerprint ≡ fingerprint
  pub same_operation : row.operation_id ≡ operation_id
  pub effect : find_effect row.receipt_id db.effects ≡ some e

find_key-append :
    (key : String) (rows : List KeyRow) (k : KeyRow)
    → find_key key rows ≡ none
    → k.key ≡ key
    → find_key key (rows ++ k ∷ []) ≡ some k
unfolding find_key
find_key-append key [] k h same = rw ((eq_iff k.key key).1 same) refl
find_key-append key (x ∷ rows) k h same = ground (arith, find_key-append key rows k)

find_effect-append :
    (id : Uuid) (rows : List EmailEffect) (e : EmailEffect)
    → find_effect id rows ≡ none
    → e.receipt_id ≡ id
    → find_effect id (rows ++ e ∷ []) ≡ some e
unfolding find_effect
find_effect-append id [] e h same = ground arith
find_effect-append id (x ∷ rows) e h same = ground (arith, find_effect-append id rows e)

is_some-false {ℓ} : {A : Type ℓ} (o : Option A) → is_some o ≡ false → o ≡ none
is_some-false none h = refl
is_some-false (some a) h = cc

module _ (w : EmailWorld) (key fingerprint : String) where
  replay_effect-bound :
      (operation_id : Uuid) (k : KeyRow) (e : EmailEffect) (db new : EmailDb)
      → replay_effect w operation_id fingerprint k db ≡ ok (e, new)
      → (k.fingerprint ≡ fingerprint)
        × (k.operation_id ≡ operation_id)
        × (find_effect k.receipt_id db.effects ≡ some e)
        × (new ≡ db)
  unfolding replay_effect
  replay_effect-bound operation_id k e db new h = (
    (eq_iff k.fingerprint fingerprint).0 (ground arith),
    ground arith,
    ground arith,
    ground arith,
  )

  inserted :
      (x e : EmailEffect) (db new : EmailDb)
      → str_eq key "" ≡ false
      → insert_effect w key fingerprint x db ≡ ok (e, new)
      → (e ≡ x)
        × (find_effect x.receipt_id db.effects ≡ none)
        × (new.effects ≡ db.effects ++ x ∷ [])
        × (new.keys ≡ db.keys ++ new_key x key fingerprint ∷ [])
  unfolding insert_effect insert_key
  inserted x e db new k h = (
    ground arith,
    is_some-false (find_effect x.receipt_id db.effects) (ground arith),
    ground arith,
    ground arith,
  )

  insert_effect-bound :
      (x e : EmailEffect) (db new : EmailDb)
      → str_eq key "" ≡ false
      → find_key key db.keys ≡ none
      → insert_effect w key fingerprint x db ≡ ok (e, new)
      → KeyBound key fingerprint x.operation_id e new
  unfolding new_key
  insert_effect-bound x e db new k free h =
      let (same, fresh, effects, keys) = inserted x e db new k h in
      record {
        row = new_key x key fingerprint;
        found = ap (find_key key) keys ∙ find_key-append key db.keys _ free refl;
        same_fingerprint = refl;
        same_operation = refl;
        effect =
            ap (find_effect x.receipt_id) effects
            ∙ find_effect-append x.receipt_id db.effects x fresh refl
            ∙ ap some (sym same);
      }

  commit_keyed-bound :
      (o : Option KeyRow) (x e : EmailEffect) (db new : EmailDb)
      → find_key key db.keys ≡ o
      → str_eq key "" ≡ false
      → commit_keyed w key fingerprint x db o ≡ ok (e, new)
      → KeyBound key fingerprint x.operation_id e new
  unfolding commit_keyed
  commit_keyed-bound none x e db new found k h = insert_effect-bound x e db new k found h
  commit_keyed-bound (some row) x e db new found k h =
      let (same_f, same_o, effect, same_db) = replay_effect-bound x.operation_id row e db new h in
      record {
        row = row;
        found = ap (λ d. find_key key d.keys) same_db ∙ found;
        same_fingerprint = same_f;
        same_operation = same_o;
        effect = ap (λ d. find_effect row.receipt_id d.effects) same_db ∙ effect;
      }

  reached :
      (x e : EmailEffect) (db new : EmailDb)
      → str_eq key "" ≡ false
      → commit_effect w key fingerprint x db ≡ ok (e, new)
      → commit_keyed w key fingerprint x db (find_key key db.keys) ≡ ok (e, new)
  unfolding commit_effect
  reached x e db new k h = ground arith

  -- A keyed commit on tables where the key is bound answers the bound effect and changes nothing.
  commit_effect-replays :
      (f : String) (operation_id : Uuid) (x e first : EmailEffect) (db new : EmailDb)
      → str_eq key "" ≡ false
      → KeyBound key f operation_id first db
      → commit_effect w key fingerprint x db ≡ ok (e, new)
      → (f ≡ fingerprint) × (operation_id ≡ x.operation_id) × (e ≡ first) × (new ≡ db)
  unfolding commit_keyed
  commit_effect-replays f operation_id x e first db new k b h =
      let keyed = reached x e db new k h in
      let replayed =
        subst (λ o. commit_keyed w key fingerprint x db o ≡ ok (e, new)) b.found keyed in
      let (same_f, same_o, effect, same_db) =
        replay_effect-bound x.operation_id b.row e db new replayed in
      (
        sym b.same_fingerprint ∙ same_f,
        sym b.same_operation ∙ same_o,
        some-equal (sym effect ∙ b.effect),
        same_db,
      )

-- What a commit that answers an effect has done to the tables.
pub commit-ran :
    (c : Codec) (operation_id : Uuid) (r : EmailRequest) (w : EmailWorld) (db : EmailDb)
    (e : EmailEffect)
    → (commit c operation_id r w db).0 ≡ ok e
    → (id : Uuid) × (commit_effect w r.idempotency_key
          (email_fingerprint c r)
          (new_effect id w.now operation_id r)
          (insert_dispatch operation_id r db)
        ≡ ok (e, (commit c operation_id r w db).1))
unfolding commit
commit-ran c operation_id r w db e h = by_id w.new_id h
  where
    by_result :
        (o : CommitOutcome) (ran : Result (EmailEffect × EmailDb))
        → (settled (record w { commit = o }) db ran).0 ≡ ok e
        → ran ≡ ok (e, (settled (record w { commit = o }) db ran).1)
    by_result CommitOutcome.committed (ok (x, new)) h = ground arith
    by_result CommitOutcome.refused (ok (x, new)) h = cc
    by_result CommitOutcome.answer_lost (ok (x, new)) h = cc
    by_result o (err x) h = cc

    by_failure :
        (failed : Bool) (ran : Result (EmailEffect × EmailDb))
        → (if failed then (err database_error, db) else settled w db ran).0 ≡ ok e
        → ran ≡ ok (e, (if failed then (err database_error, db) else settled w db ran).1)
    by_failure true ran h = cc
    by_failure false ran h = by_result w.commit ran h

    by_id :
        (o : Option Uuid)
        → (commit_with c operation_id r w db o).0 ≡ ok e
        → (id : Uuid) × (commit_effect w r.idempotency_key
              (email_fingerprint c r)
              (new_effect id w.now operation_id r)
              (insert_dispatch operation_id r db)
            ≡ ok (e, (commit_with c operation_id r w db o).1))
    by_id none h = cc
    by_id (some id) h = (id, by_failure (w.fails 0 || w.fails 1) _ h)

commit-bound :
    (c : Codec) (operation_id : Uuid) (r : EmailRequest) (w : EmailWorld) (db : EmailDb)
    (e : EmailEffect)
    → str_eq r.idempotency_key "" ≡ false
    → (commit c operation_id r w db).0 ≡ ok e
    → KeyBound r.idempotency_key
        (email_fingerprint c r)
        operation_id
        e
        (commit c operation_id r w db).1
unfolding new_effect
commit-bound c operation_id r w db e k h =
    let (id, ran) = commit-ran c operation_id r w db e h in
    commit_keyed-bound w r.idempotency_key (email_fingerprint c r) _ _ e _ _ refl k
      (reached w r.idempotency_key (email_fingerprint c r) _ e _ _ k ran)

-- Two commits with one idempotency key, where both answer an effect, are of one operation and one
-- fingerprint, answer the same effect, and the second leaves the effects and the keys as they were.
pub commit-once :
    (c : Codec) (a b : Uuid) (q r : EmailRequest) (w v : EmailWorld) (db : EmailDb)
    (first second : EmailEffect)
    → str_eq q.idempotency_key "" ≡ false
    → r.idempotency_key ≡ q.idempotency_key
    → (commit c a q w db).0 ≡ ok first
    → (commit c b r v (commit c a q w db).1).0 ≡ ok second
    → (email_fingerprint c q ≡ email_fingerprint c r)
      × (a ≡ b)
      × (second ≡ first)
      × ((commit c b r v (commit c a q w db).1).1.effects ≡ (commit c a q w db).1.effects)
      × ((commit c b r v (commit c a q w db).1).1.keys ≡ (commit c a q w db).1.keys)
unfolding insert_dispatch new_effect
commit-once c a b q r w v db first second k same h j =
    let bound = commit-bound c a q w db first k h in
    let (id, ran) = commit-ran c b r v (commit c a q w db).1 second j in
    let (fp, op, eff, new) =
      commit_effect-replays v r.idempotency_key (email_fingerprint c r) (email_fingerprint c q) a _
        second first (insert_dispatch b r (commit c a q w db).1) _
        (subst (λ s. str_eq s "" ≡ false) (sym same) k) (rebound bound) ran in
    (fp, op, eff, ap (λ d. d.effects) new, ap (λ d. d.keys) new)
  where
    rebound :
        KeyBound q.idempotency_key (email_fingerprint c q) a first (commit c a q w db).1
        → KeyBound r.idempotency_key
            (email_fingerprint c q)
            a
            first
            (insert_dispatch b r (commit c a q w db).1)
    rebound bound = record {
      row = bound.row;
      found = ap (λ s. find_key s (commit c a q w db).1.keys) same ∙ bound.found;
      same_fingerprint = bound.same_fingerprint;
      same_operation = bound.same_operation;
      effect = bound.effect;
    }
