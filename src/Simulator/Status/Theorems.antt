-- ===== src/Simulator/Status/Theorems.antt =====
-- What Status and Inspect count.
use watchkeeper.Prelude.{
  String, suc, ◌+◌, ◌≡◌, refl, some, List, [], ◌∷◌, arith, ap, ◌∙◌, select, length, eq_iff, ==_iff,
  Chosen, select-Chosen,
}
use watchkeeper.Domain.Types.{Uuid}
use watchkeeper.Simulator.Email.{EmailEffect, EmailDb}
use watchkeeper.Simulator.Status.Latest.{IsLatest, by_time-IsLatest}
use watchkeeper.Simulator.Status.{
  without_operations, EmailStatus, count_effects, by_time, insert_by_time, of_operation, matches,
  status, inspect,
}

length-insert_by_time :
    (e : EmailEffect) (rows : List EmailEffect) → length (insert_by_time e rows) ≡ suc (length rows)
unfolding insert_by_time
length-insert_by_time e [] = refl
length-insert_by_time e (x ∷ rows) = ground (arith, length-insert_by_time e rows)

length-by_time : (rows : List EmailEffect) → length (by_time rows) ≡ length rows
unfolding by_time
length-by_time [] = refl
length-by_time (e ∷ rows) = length-insert_by_time e (by_time rows) ∙ ap suc (length-by_time rows)

committed_count-count_effects :
    (s : EmailStatus) (rows : List EmailEffect)
    → (count_effects s rows).committed_count ≡ s.committed_count + length rows
unfolding count_effects
committed_count-count_effects s [] = omega arith
committed_count-count_effects s (e ∷ rows) = omega (
  arith,
  committed_count-count_effects
      (record s { committed_count = s.committed_count + 1; latest = some e }) rows,
)

counts :
    (s : EmailStatus) (rows : List EmailEffect)
    → s.committed_count ≡ 0
    → (count_effects s (by_time rows)).committed_count ≡ length rows
counts s rows h =
    omega (arith, committed_count-count_effects s (by_time rows), length-by_time rows, h)

length-without_operations :
    (rows : List EmailEffect) → length (without_operations rows) ≡ length rows
unfolding without_operations
length-without_operations [] = refl
length-without_operations (e ∷ rows) = ap suc (length-without_operations rows)

counts_unnamed :
    (s : EmailStatus) (rows : List EmailEffect)
    → s.committed_count ≡ 0
    → (count_effects s (without_operations (by_time rows))).committed_count ≡ length rows
counts_unnamed s rows h = omega (
  arith,
  committed_count-count_effects s (without_operations (by_time rows)),
  length-without_operations (by_time rows),
  length-by_time rows,
  h,
)

pub status-select :
    (id : Uuid) (recipient template key : String) (db : EmailDb)
    → ((status id db).committed_count ≡ length (select (of_operation id) db.effects))
      × ((inspect recipient template key db).committed_count
          ≡ length (select (matches recipient template key) db.effects))
unfolding status inspect
status-select id recipient template key db = (counts _ _ refl, counts_unnamed _ _ refl)

-- The effects of an operation, and those with three fields.
abbrev pub OfOperation : Uuid → EmailEffect → Type 0
OfOperation id e = e.operation_id ≡ id

abbrev pub WithFields : String → String → String → EmailEffect → Type 0
WithFields recipient template key e =
    (e.recipient ≡ recipient) × (e.template ≡ template) × (e.logical_message_key ≡ key)

of_operation-Chosen :
    (id : Uuid) (rows : List EmailEffect)
    → Chosen (OfOperation id) rows (select (of_operation id) rows)
unfolding of_operation
of_operation-Chosen id rows =
    select-Chosen _ _ rows (λ e h. (==_iff e.operation_id id).0 h)
      λ e h same. cc (h, (==_iff e.operation_id id).1 same)

matches-Chosen :
    (recipient template key : String) (rows : List EmailEffect)
    → Chosen (WithFields recipient template key) rows (select (matches recipient template key) rows)
unfolding matches
matches-Chosen recipient template key rows =
    select-Chosen _ _ rows
      (λ e h. (
        (eq_iff _ _).0 (ground (arith, h)),
        (eq_iff _ _).0 (ground (arith, h)),
        (eq_iff _ _).0 (ground (arith, h)),
      ))
      λ e h same. ground (
        arith,
        h,
        (eq_iff e.recipient recipient).1 same.0,
        (eq_iff e.template template).1 same.1,
        (eq_iff e.logical_message_key key).1 same.2,
      )

-- Status counts the committed effects of the operation, each once and no others, and answers one of
-- them than which none is later, if there is any; Inspect counts those whose recipient, template and
-- key are the three that were asked for.
pub status-count :
    (id : Uuid) (recipient template key : String) (db : EmailDb)
    → ((rows : List EmailEffect) × Chosen (OfOperation id) db.effects rows
        × ((status id db).committed_count ≡ length rows)
        × IsLatest rows (status id db).latest)
      × ((rows : List EmailEffect) × Chosen (WithFields recipient template key) db.effects rows
          × ((inspect recipient template key db).committed_count ≡ length rows))
unfolding status
status-count id recipient template key db =
    let (by_id, by_fields) = status-select id recipient template key db in
    (
      (
        select (of_operation id) db.effects,
        of_operation-Chosen id db.effects,
        by_id,
        by_time-IsLatest _ (select (of_operation id) db.effects) refl,
      ),
      (
        select (matches recipient template key) db.effects,
        matches-Chosen recipient template key db.effects,
        by_fields,
      ),
    )
