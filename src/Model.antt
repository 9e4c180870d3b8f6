-- ===== src/Model.antt =====
-- The data model of src/lmap.h.in and src/lmapd.h.in: one record for each struct, the linked lists
-- as lists, `char *` as an optional string, a flags word as one Boolean for each flag constant.
use simet_lmapd.Base.{ℕ, ◌+◌, ◌%◌, ◌^◌, Bool, true, false, List, Option}
use simet_lmapd.Base.Int.{ℤ}
use simet_lmapd.Text.{Str}

-- The int that the operations return: 0 or -1.
pub data Rc : Type 0 where
  done failed : Rc

abbrev pub is_done : Rc → Bool
is_done done = true
is_done failed = false

-- x++ on a uint32_t.
abbrev pub incr32 : ℕ → ℕ
incr32 n = (n + 1) % 2 ^ 32

pub record Tag : Type 0 where
  pub tag : Option Str

pub record LmapOption : Type 0 where
  pub id : Option Str
  pub name : Option Str
  pub value : Option Str

pub record Registry : Type 0 where
  pub uri : Option Str
  pub roles : List Tag

pub record Task : Type 0 where
  pub name : Option Str
  pub registries : List Registry
  pub version : Option Str
  pub program : Option Str
  pub options : List LmapOption
  pub tags : List Tag

-- LMAP_SCHEDULE_STATE_* and LMAP_ACTION_STATE_*, which have the same names and values.
pub data RunState : Type 0 where
  enabled disabled running suppressed : RunState

abbrev pub is_enabled : RunState → Bool
is_enabled enabled = true
is_enabled _ = false

abbrev pub is_disabled : RunState → Bool
is_disabled disabled = true
is_disabled _ = false

abbrev pub is_running : RunState → Bool
is_running running = true
is_running _ = false

abbrev pub is_suppressed : RunState → Bool
is_suppressed suppressed = true
is_suppressed _ = false

-- `pid` is 0 while no process runs.
pub record Action : Type 0 where
  pub name : Option Str
  pub task : Option Str
  pub destinations : List Tag
  pub options : List LmapOption
  pub tags : List Tag
  pub suppression_tags : List Tag
  pub state : RunState
  pub move_deferred : Bool
  pub storage : ℕ
  pub last_invocation : ℤ
  pub last_completion : ℤ
  pub last_status : ℤ
  pub last_message : Option Str
  pub last_failed_completion : ℤ
  pub last_failed_status : ℤ
  pub last_failed_message : Option Str
  pub cnt_invocations : ℕ
  pub cnt_failures : ℕ
  pub cnt_suppressions : ℕ
  pub cnt_overlaps : ℕ
  pub pid : ℕ
  pub workspace : Option Str
  pub cnt_active_suppressions : ℕ

-- LMAP_SCHEDULE_EXEC_MODE_*
pub data ExecMode : Type 0 where
  sequential parallel pipelined : ExecMode

-- LMAP_SCHEDULE_FLAG_STOP_RUNNING is the field `stop_running`.
pub record Schedule : Type 0 where
  pub name : Option Str
  pub start : Option Str
  pub end : Option Str
  pub cycle_number : ℤ
  pub duration : ℕ
  pub mode : ExecMode
  pub end_set : Bool
  pub duration_set : Bool
  pub exec_mode_set : Bool
  pub stop_running : Bool
  pub tags : List Tag
  pub suppression_tags : List Tag
  pub actions : List Action
  pub state : RunState
  pub storage : ℕ
  pub cnt_invocations : ℕ
  pub cnt_failures : ℕ
  pub cnt_suppressions : ℕ
  pub cnt_overlaps : ℕ
  pub last_invocation : ℤ
  pub workspace : Option Str
  pub cnt_active_suppressions : ℕ

-- LMAP_SUPP_STATE_*
pub data SuppState : Type 0 where
  enabled disabled active : SuppState

-- `stop_running` is the value, `stop_running_set` LMAP_SUPP_FLAG_STOP_RUNNING_SET.
pub record Supp : Type 0 where
  pub name : Option Str
  pub start : Option Str
  pub end : Option Str
  pub match : List Tag
  pub stop_running : Bool
  pub stop_running_set : Bool
  pub state : SuppState

-- LMAP_EVENT_TYPE_*; `unset` is the 0 of a fresh event.
pub data EventType : Type 0 where
  unset periodic calendar one_off immediate startup controller_lost controller_connected : EventType

-- The calendar fields are bit sets.
pub record Event : Type 0 where
  pub name : Option Str
  pub type : EventType
  pub interval_set : Bool
  pub start_set : Bool
  pub end_set : Bool
  pub random_spread_set : Bool
  pub cycle_interval_set : Bool
  pub timezone_offset_set : Bool
  pub last_invocation : ℤ
  pub interval : ℕ
  pub start : ℤ
  pub end : ℤ
  pub random_spread : ℕ
  pub cycle_interval : ℕ
  pub months : ℕ
  pub days_of_month : ℕ
  pub days_of_week : ℕ
  pub hours : ℕ
  pub minutes : ℕ
  pub seconds : ℕ
  pub timezone_offset : ℤ

pub record Agent : Type 0 where
  pub agent_id : Option Str
  pub group_id : Option Str
  pub measurement_point : Option Str
  pub report_agent_id : Bool
  pub report_group_id : Bool
  pub report_measurement_point : Bool
  pub controller_timeout : ℕ
  pub report_agent_id_set : Bool
  pub report_group_id_set : Bool
  pub report_measurement_point_set : Bool
  pub controller_timeout_set : Bool
  pub report_date : ℤ
  pub last_started : ℤ

pub record Capability : Type 0 where
  pub tasks : List Task
  pub version : Option Str
  pub tags : List Tag

pub record Lmap : Type 0 where
  pub agent : Option Agent
  pub capabilities : Option Capability
  pub schedules : List Schedule
  pub supps : List Supp
  pub events : List Event
  pub tasks : List Task
