-- ===== src/Simulator/Status.antt =====
-- `Status`, `Inspect` and `DispatchCount` of internal/simulator/email.go, where the rows are read
-- without an error.
pub mod Latest
pub mod Theorems
use watchkeeper.Prelude.{
  ℕ, suc, ◌+◌, String, Bool, true, false, Option, none, some, List, [], ◌∷◌, ◌==◌, ◌||◌, ◌&&◌, ltb,
  leb, str_eq, select, length, if◌then◌else◌,
}
use watchkeeper.Domain.Types.{Uuid}
use watchkeeper.Simulator.Email.{EmailEffect, EmailDb, DispatchRow}

-- `operation_id` is empty in what `Inspect` answers.
pub record EmailStatus : Type 0 where
  pub operation_id : Option Uuid
  pub committed_count : ℕ
  pub latest : Option EmailEffect
  pub authoritative : Bool

-- `ORDER BY committed_at,id`
unfoldable pub effect_before : EmailEffect → EmailEffect → Bool
effect_before a b =
    ltb a.committed_at b.committed_at
    || (a.committed_at == b.committed_at && leb a.receipt_id b.receipt_id)

unfoldable pub insert_by_time : EmailEffect → List EmailEffect → List EmailEffect
insert_by_time e [] = e ∷ []
insert_by_time e (x ∷ rows) =
    let rest = insert_by_time e rows in if effect_before e x then e ∷ x ∷ rows else x ∷ rest

unfoldable pub by_time : List EmailEffect → List EmailEffect
by_time [] = []
by_time (e ∷ rows) = insert_by_time e (by_time rows)

-- The loop over the rows: each is counted, and the last stays.
unfoldable pub count_effects : EmailStatus → List EmailEffect → EmailStatus
count_effects s [] = s
count_effects s (e ∷ rows) =
    count_effects (record s { committed_count = s.committed_count + 1; latest = some e }) rows

unfoldable pub of_operation : Uuid → EmailEffect → Bool
of_operation id e = e.operation_id == id

unfoldable pub status : Uuid → EmailDb → EmailStatus
status id db =
    count_effects
      (record { operation_id = some id; committed_count = 0; latest = none; authoritative = true })
      (by_time (select (of_operation id) db.effects))

unfoldable pub matches : String → String → String → EmailEffect → Bool
matches recipient template key e =
    str_eq e.recipient recipient && str_eq e.template template && str_eq e.logical_message_key key

-- The rows of `Inspect` have no operation: 0 stands for the empty text.
unfoldable pub without_operations : List EmailEffect → List EmailEffect
without_operations [] = []
without_operations (e ∷ rows) = record e { operation_id = 0 } ∷ without_operations rows

unfoldable pub inspect : String → String → String → EmailDb → EmailStatus
inspect recipient template key db =
    count_effects
      (record { operation_id = none; committed_count = 0; latest = none; authoritative = true })
      (without_operations (by_time (select (matches recipient template key) db.effects)))

unfoldable pub dispatch_of : Uuid → DispatchRow → Bool
dispatch_of id d = d.operation_id == id

unfoldable pub dispatch_count : Uuid → EmailDb → ℕ
dispatch_count id db = length (select (dispatch_of id) db.dispatches)
