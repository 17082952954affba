-- ===== src/Db/Journal/Legal.antt =====
-- The methods of src/db.ts on events and messages write neither tasks nor runs.
use agent_control_center_cor.Base.{ℕ, String, Option}
use agent_control_center_cor.Json.{Json}
use agent_control_center_cor.Db.State.{EventLevel, Direction, DeliveryStatus}
use agent_control_center_cor.Db.Legal.{Quiet, quiet_rules}
use agent_control_center_cor.Db.Journal.{append_event, add_message, update_message_delivery}

pub Quiet-append_event :
    (task_id : String) (run_id : Option String) (type : String) (level : Option EventLevel)
    (message : String) (data_json : Option Json) (created_at : ℕ)
    → Quiet (append_event task_id run_id type level message data_json created_at)
unfolding append_event
Quiet-append_event task_id run_id type level message data_json created_at = search quiet_rules

pub Quiet-add_message :
    (id task_id : String) (run_id : Option String) (direction : Direction) (role body : String)
    (delivery : Option DeliveryStatus) (created_at : ℕ)
    → Quiet (add_message id task_id run_id direction role body delivery created_at)
unfolding add_message
Quiet-add_message id task_id run_id direction role body delivery created_at = search quiet_rules

pub Quiet-update_message_delivery :
    (message_id : String) (status : DeliveryStatus)
    → Quiet (update_message_delivery message_id status)
unfolding update_message_delivery
Quiet-update_message_delivery message_id status = search quiet_rules
