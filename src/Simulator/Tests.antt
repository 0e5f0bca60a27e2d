-- ===== src/Simulator/Tests.antt =====
-- Runs of the email service, and its theorems at those.
use watchkeeper.Simulator.Server.{Hooks, send, with_key}
use watchkeeper.Simulator.Handlers.{
  EmailServer, SimulatorRequest, answer, authorized, write, post_messages, effect_body,
}
use watchkeeper.Simulator.Handlers.Counted.{answer-counted}
use watchkeeper.Prelude.{suc, ℕ, ◌≡◌, refl, false, none, some, length}
use watchkeeper.Domain.Types.{Uuid, ok}
use watchkeeper.Domain.Fingerprint.{encoded, end_of_input, Codec}
use watchkeeper.Simulator.Status.{status}
use watchkeeper.Simulator.Email.Replay.{commit-once}
use watchkeeper.Simulator.Status.{inspect}
use watchkeeper.Store.Tx.{committed}
use watchkeeper.Simulator.Status.Theorems.{OfOperation, WithFields, status-count}
use watchkeeper.Simulator.Status.Latest.{IsLatest}
use watchkeeper.Simulator.Email.{EmailDb, EmailEffect}
use watchkeeper.Prelude.{Chosen, List}
use watchkeeper.Simulator.Email.{
  new_key, insert_dispatch, new_effect, request_json, find_effect, replay_effect, find_key,
  insert_key, insert_effect, EmailWorld, commit_keyed, email_fingerprint, commit_effect,
  EmailEffect, EmailRequest, commit, no_emails,
}

abbrev toy_codec : Codec
toy_codec = record {
  decode = λ s. end_of_input;
  marshal = λ v. encoded "value";
  sha256_hex = λ s. s;
}

abbrev calm : ℕ → Uuid → EmailWorld
calm time id = record { now = time; new_id = some id; fails = λ n. false; commit = committed }

abbrev keyed_request : EmailRequest
keyed_request = record {
  idempotency_key = "op";
  recipient = "a";
  template = "t";
  logical_message_key = "m";
  experiment_run_id = none;
}

abbrev first_effect : EmailEffect
first_effect = record {
  receipt_id = 7;
  operation_id = 1;
  recipient = "a";
  template = "t";
  logical_message_key = "m";
  committed_at = 100;
}

first_ok : (commit toy_codec 1 keyed_request (calm 100 7) no_emails).0 ≡ ok first_effect
unfolding commit commit_effect commit_keyed insert_effect insert_key find_key find_effect
    email_fingerprint request_json new_effect insert_dispatch new_key
first_ok = refl

second_ok :
    (commit toy_codec 1 keyed_request
      (calm 200 8)
      (commit toy_codec 1 keyed_request (calm 100 7) no_emails).1).0
    ≡ ok first_effect
unfolding commit commit_effect commit_keyed insert_effect insert_key replay_effect find_key
    find_effect email_fingerprint request_json new_effect insert_dispatch new_key
second_ok = refl

commit-once_example :
    (email_fingerprint toy_codec keyed_request ≡ email_fingerprint toy_codec keyed_request)
    × (◌≡◌ {A = ℕ} 1 1)
    × (first_effect ≡ first_effect)
    × ((commit toy_codec 1 keyed_request
          (calm 200 8)
          (commit toy_codec 1 keyed_request (calm 100 7) no_emails).1).1.effects
        ≡ (commit toy_codec 1 keyed_request (calm 100 7) no_emails).1.effects)
    × ((commit toy_codec 1 keyed_request
          (calm 200 8)
          (commit toy_codec 1 keyed_request (calm 100 7) no_emails).1).1.keys
        ≡ (commit toy_codec 1 keyed_request (calm 100 7) no_emails).1.keys)
commit-once_example =
    commit-once toy_codec 1 1 keyed_request keyed_request (calm 100 7) (calm 200 8) no_emails
      first_effect first_effect refl refl first_ok second_ok

abbrev one_committed : EmailDb
one_committed = (commit toy_codec 1 keyed_request (calm 100 7) no_emails).1

status-count_example :
    ((rows : List EmailEffect) × Chosen (OfOperation 1) one_committed.effects rows
      × ((status 1 one_committed).committed_count ≡ length rows)
      × IsLatest rows (status 1 one_committed).latest)
    × ((rows : List EmailEffect) × Chosen (WithFields "a" "t" "m") one_committed.effects rows
        × ((inspect "a" "t" "m" one_committed).committed_count ≡ length rows))
status-count_example = status-count 1 "a" "t" "m" one_committed

-- A message of a server that keeps receipts.
abbrev keyless_request : EmailRequest
keyless_request = record keyed_request { idempotency_key = "" }

abbrev server : EmailServer
server = record { profile = "receipt_status"; token = "token"; admin_token = "admin" }

abbrev no_hooks : Hooks
no_hooks = record { accepted_fails = false; after_commit_fails = false }

abbrev message : SimulatorRequest
message = record {
  authorization = "Bearer token";
  path_id = none;
  message = record { operation_id = some 1; body = some keyless_request; key_header = "" };
  recipient = "";
  template = "";
  logical_message_key = "";
}

message_ok :
    (answer toy_codec server no_hooks post_messages message (calm 100 7) no_emails).0
    ≡ write 201 (effect_body (some first_effect))
unfolding answer authorized send with_key write commit commit_effect insert_effect insert_key
    find_effect email_fingerprint request_json new_effect insert_dispatch
message_ok = refl

answer-counted_example :
    (status 1
      (answer toy_codec server no_hooks post_messages message
        (calm 100 7)
        no_emails).1).committed_count
    ≡ suc (status 1 no_emails).committed_count
answer-counted_example =
    answer-counted toy_codec server no_hooks message (calm 100 7) no_emails 1 keyless_request
      first_effect refl refl refl refl message_ok
