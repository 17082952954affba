-- ===== src/Db/Journal.antt =====
-- src/db.ts: appendEvent, listEventsAfter, addMessage, updateMessageDelivery, addArtifact.
pub mod Legal
use agent_control_center_cor.Base.{
  ℕ, zero, suc, ◌^◌, ◌-◌, String, Bool, true, false, not, ◌&&◌, ◌||◌, Option, none, some, List, [],
  ◌∷◌, ◌++◌, Result, ok, err, ltb, leb, eqb, ◌==◌, get_or, if◌then◌else◌, any, first_where,
  select_where, order_by,
}
use agent_control_center_cor.Json.{Json, obj, max_safe_integer}
use agent_control_center_cor.Protocol.{ArtifactKind}
use agent_control_center_cor.Db.State.{
  Db, DbError, EventRow, EventLevel, MessageRow, Direction, DeliveryStatus, ArtifactRow, constraint,
  message_not_found, bad_limit, bad_cursor, bad_artifact, artifact_conflict,
}
use agent_control_center_cor.Db.Action.{
  Action, ◌>>=◌, ◌>>◌, pure, gets, required, check, update_messages,
}
use agent_control_center_cor.Db.Insert.{has_task, has_run_or_null, insert_event, insert_message}
use agent_control_center_cor.Db.Runs.{is_same}

-- `appendEvent`; it returns the row's id.
unfoldable pub append_event :
    String → Option String → String → Option EventLevel → String → Option Json → ℕ → Action ℕ
append_event task_id run_id type level message data_json created_at =
    insert_event task_id run_id type (get_or level EventLevel.info) message data_json created_at

-- LIMIT n
abbrev pub take {ℓ} : {A : Type ℓ} → ℕ → List A → List A
take zero xs = []
take (suc n) [] = []
take (suc n) (x ∷ xs) = x ∷ take n xs

abbrev of_task : Option String → EventRow → Bool
of_task none e = true
of_task (some task_id) e = e.task_id == task_id

unfoldable pub events_after : ℕ → Option String → Db → List EventRow
events_after after_id task_id db =
    order_by (λ a b. ltb a.id b.id)
      (select_where (λ (e : EventRow). of_task task_id e && ltb after_id e.id) db.events)

-- `listEventsAfter`: a negative or fractional cursor or limit is `none`.
pub list_events_after : Option ℕ → Option String → Option ℕ → Db → Result DbError (List EventRow)
list_events_after none task_id limit db = err bad_cursor
list_events_after (some after_id) task_id none db =
    if leb after_id max_safe_integer then err bad_limit else err bad_cursor
list_events_after (some after_id) task_id (some limit) db =
    if leb after_id max_safe_integer
    then (if leb 1 limit && leb limit 1000
        then ok (take limit (events_after after_id task_id db))
        else err bad_limit)
    else err bad_cursor

-- `addMessage`; `id` is `message_${randomUUID()}`.
pub add_message :
    String
    → String
    → Option String
    → Direction
    → String
    → String
    → Option DeliveryStatus
    → ℕ
    → Action MessageRow
add_message id task_id run_id direction role body delivery created_at =
    let row : MessageRow = record {
      id = id;
      task_id = task_id;
      run_id = run_id;
      direction = direction;
      role = role;
      body = body;
      delivery_status = get_or delivery DeliveryStatus.queued;
      created_at = created_at;
    } in
    do insert_message row; pure row

pub update_message_delivery : String → DeliveryStatus → Action (Unit {0})
update_message_delivery message_id status = do
  changes ← update_messages (λ m. m.id == message_id) (λ m. record m { delivery_status = status })
  check (eqb changes 1) (message_not_found message_id)
