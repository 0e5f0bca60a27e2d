-- ===== src/Simulator/Handlers/Counted.antt =====
-- A message that is answered 201 is counted by the status of its operation.
use watchkeeper.Prelude.{
  suc, ◌+◌, ◌≡◌, refl, sym, ap, ◌∙◌, subst, String, false, Option, none, some, [], ◌∷◌, ◌++◌, ◌||◌,
  some-equal, str_eq, length, length-append, select, select-append, arith, Bool-cases, inl, inr,
}
use watchkeeper.Domain.Types.{Uuid, Result, ok, err}
use watchkeeper.Domain.Fingerprint.{Codec}
use watchkeeper.Simulator.Email.{
  EmailRequest, EmailEffect, EmailWorld, EmailDb, commit, commit_effect, insert_effect, insert_key,
  insert_dispatch, new_effect, email_fingerprint,
}
use watchkeeper.Simulator.Email.Replay.{commit-ran}
use watchkeeper.Simulator.Server.{
  Hooks, Response, SendInput, answered, send_valid, send_body, send, with_key,
}
use watchkeeper.Simulator.Handlers.{
  EmailServer, SimulatorRequest, SimulatorBody, effect_body, answer, write, authorized,
  post_messages,
}
use watchkeeper.Simulator.Status.{status, of_operation}
use watchkeeper.Simulator.Status.Theorems.{status-select}

inserted_keyless :
    (w : EmailWorld) (fingerprint : String) (e a : EmailEffect) (db new : EmailDb)
    → commit_effect w "" fingerprint e db ≡ ok (a, new)
    → new.effects ≡ db.effects ++ e ∷ []
unfolding commit_effect insert_effect insert_key
inserted_keyless w fingerprint e a db new h = ground (arith, h)

one_last :
    (id : Uuid) (db : EmailDb) (e : EmailEffect)
    → e.operation_id ≡ id
    → length (select (of_operation id) db.effects) + length (select (of_operation id) (e ∷ []))
      ≡ suc (length (select (of_operation id) db.effects))
unfolding select of_operation
one_last id db e mine = ground arith

one_more :
    (id : Uuid) (db new : EmailDb) (e : EmailEffect)
    → e.operation_id ≡ id
    → new.effects ≡ db.effects ++ e ∷ []
    → length (select (of_operation id) new.effects)
      ≡ suc (length (select (of_operation id) db.effects))
unfolding select of_operation
one_more id db new e mine h =
    ap (λ rows. length (select (of_operation id) rows)) h
    ∙ ap length (select-append (of_operation id) db.effects (e ∷ []))
    ∙ length-append (select (of_operation id) db.effects) (select (of_operation id) (e ∷ []))
    ∙ one_last id db e mine

commit-counted :
    (c : Codec) (id : Uuid) (r : EmailRequest) (w : EmailWorld) (db : EmailDb) (e : EmailEffect)
    → r.idempotency_key ≡ ""
    → (commit c id r w db).0 ≡ ok e
    → (status id (commit c id r w db).1).committed_count ≡ suc (status id db).committed_count
unfolding new_effect insert_dispatch
commit-counted c id r w db e keyless h =
    let (fresh, ran) = commit-ran c id r w db e h in
    let new = (commit c id r w db).1 in
    (status-select id "" "" "" new).0
    ∙ one_more id db new (new_effect fresh w.now id r) refl (
        inserted_keyless w (email_fingerprint c r) (new_effect fresh w.now id r) e
          (insert_dispatch id r db) new
          (subst
            (λ k.
              commit_effect w k (email_fingerprint c r) (new_effect fresh w.now id r)
                (insert_dispatch id r db)
              ≡ ok (e, new))
            keyless ran))
    ∙ ap suc (sym (status-select id "" "" "" db).0)

-- An answer of 201 is one of a commit.
abbrev Sent : EmailEffect → Response → Type 0
Sent e r = (r.status_code ≡ 201) × (r.effect ≡ some e)

answered-Sent :
    (h : Hooks) (x : Result EmailEffect × EmailDb) (e : EmailEffect)
    → Sent e (answered h x).0
    → (x.0 ≡ ok e) × ((answered h x).1 ≡ x.1)
answered-Sent h (err x, db) e (code, _) = ground (arith, code)
answered-Sent h (ok a, db) e (code, effect) = elim (Bool-cases h.after_commit_fails) [
  | inl failed ↦ ground (arith, rw failed at code)
  | inr fine ↦ (ap ok (some-equal (rw fine at effect)), refl)
]

send_valid-Sent :
    (c : Codec) (h : Hooks) (id : Uuid) (m : EmailRequest) (w : EmailWorld) (db : EmailDb)
    (e : EmailEffect)
    → Sent e (send_valid c h id m w db).0
    → ((commit c id m w db).0 ≡ ok e) × ((send_valid c h id m w db).1 ≡ (commit c id m w db).1)
send_valid-Sent c h id m w db e sent = elim (Bool-cases h.accepted_fails) [
  | inl failed ↦ ground (arith, rw failed at sent.0)
  | inr fine ↦
      let (is_ok, same) = answered-Sent h (commit c id m w db) e (rw fine at sent) in
      (is_ok, rw fine same)
]

send_body-Sent :
    (c : Codec) (profile : String) (h : Hooks) (i : SendInput) (w : EmailWorld) (db : EmailDb)
    (id : Uuid) (m : EmailRequest) (e : EmailEffect)
    → str_eq profile "idempotency_only" ≡ false
    → Sent e (send_body c profile h i w db id (some m)).0
    → ((commit c id m w db).0 ≡ ok e)
      × ((send_body c profile h i w db id (some m)).1 ≡ (commit c id m w db).1)
unfolding with_key
send_body-Sent c profile h i w db id m e no_key sent =
    elim (Bool-cases
      (str_eq m.recipient "" || str_eq m.template "" || str_eq m.logical_message_key "")) [
        | inl bad ↦ ground (arith, rw bad at sent.0)
        | inr good ↦
            let (is_ok, same) = send_valid-Sent c h id m w db e (rw (good, no_key) at sent) in
            (is_ok, rw (good, no_key) same)
      ]

abbrev effect_of : SimulatorBody → Option EmailEffect
effect_of (effect_body o) = o
effect_of _ = none

send-counts :
    (c : Codec) (profile : String) (h : Hooks) (i : SendInput) (w : EmailWorld) (db : EmailDb)
    (id : Uuid) (m : EmailRequest) (e : EmailEffect)
    → str_eq profile "idempotency_only" ≡ false
    → i.operation_id ≡ some id
    → i.body ≡ some m
    → m.idempotency_key ≡ ""
    → Sent e (send c profile h i w db).0
    → (status id (send c profile h i w db).1).committed_count ≡ suc (status id db).committed_count
unfolding send
send-counts c profile h i w db id m e no_key path body keyless sent =
    let (is_ok, same) = send_body-Sent c profile h i w db id m e no_key (rw (path, body) at sent) in
    ap (λ x. (status id x).committed_count) (rw (path, body) same)
    ∙ commit-counted c id m w db e keyless is_ok

-- Of a server that binds no keys: where a message of an operation is answered 201 with an effect, the
-- status of the operation then counts one effect more than before, whatever fails.
pub answer-counted :
    (c : Codec) (s : EmailServer) (h : Hooks) (r : SimulatorRequest) (w : EmailWorld) (db : EmailDb)
    (id : Uuid) (m : EmailRequest) (e : EmailEffect)
    → str_eq s.profile "idempotency_only" ≡ false
    → r.message.operation_id ≡ some id
    → r.message.body ≡ some m
    → m.idempotency_key ≡ ""
    → (answer c s h post_messages r w db).0 ≡ write 201 (effect_body (some e))
    → (status id (answer c s h post_messages r w db).1).committed_count
      ≡ suc (status id db).committed_count
unfolding answer write
answer-counted c s h r w db id m e no_key path body keyless answered =
    elim (Bool-cases (authorized s.token r)) [
      | inr other ↦ ground (arith, ap (λ a. a.status_code) (rw other at answered))
      | inl same ↦ rw same (
          send-counts c s.profile h r.message w db id m e no_key path body keyless (
            ap (λ a. a.status_code) (rw same at answered),
            ap (λ a. effect_of a.body) (rw same at answered),
          ))
    ]
