-- ===== src/Events/Event.antt =====
-- The event of internal/events/ring.go.
use go_lab_tacacs_mcp.Common.{Bool, List, Option, [], false, none, ℕ}
use go_lab_tacacs_mcp.Common.Text.{Str}

pub record EventAv : Type 0 where
  pub name : Str
  pub separator : Str
  pub value : Str

-- Instants are numbers counted from Go's zero time, which is 0.
pub record Event : Type 0 where
  pub schema_version : ℕ
  pub id : ℕ
  pub time : ℕ
  pub category : Str
  pub typ : Str
  pub result : Str
  pub transport : Str
  pub client_id : Str
  pub session_id : ℕ
  pub revision : ℕ
  pub user_id : Str
  pub command : Str
  pub task_id : Str
  pub arguments : List EventAv
  pub start_time : Option ℕ
  pub stop_time : Option ℕ
  pub authen_method : Str
  pub authen_type : Str
  pub service : Str
  pub privilege : ℕ
  pub port : Str
  pub remote : Str
  pub protocol : Str
  pub carrier : Str
  pub listener_role : Str
  pub listener_id : Str
  pub packet_code : Str
  pub outcome : Str
  pub reason_code : Str
  pub endpoint_id : Str
  pub acct_session_id : Str
  pub suppress_export : Bool

-- `Event{}`
abbrev pub zero_event : Event
zero_event = record {
  schema_version = 0;
  id = 0;
  time = 0;
  category = [];
  typ = [];
  result = [];
  transport = [];
  client_id = [];
  session_id = 0;
  revision = 0;
  user_id = [];
  command = [];
  task_id = [];
  arguments = [];
  start_time = none;
  stop_time = none;
  authen_method = [];
  authen_type = [];
  service = [];
  privilege = 0;
  port = [];
  remote = [];
  protocol = [];
  carrier = [];
  listener_role = [];
  listener_id = [];
  packet_code = [];
  outcome = [];
  reason_code = [];
  endpoint_id = [];
  acct_session_id = [];
  suppress_export = false;
}
