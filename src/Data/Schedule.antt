-- ===== src/Data/Schedule.antt =====
-- The setters of struct schedule in src/data.c.
use simet_lmapd.Base.{
  ℕ, zero, suc, ◌+◌, Bool, true, false, not, ◌&&◌, ◌||◌, List, [], ◌∷◌, Option, none, some,
  if◌then◌else◌, ltb, leb, ◌==◌, ◌-◌, ◌^◌, bit_or,
}
use simet_lmapd.Base.Int.{ℤ, pos, negsuc}
use simet_lmapd.Text.{Str, codes, str_eq, isxdigit}
use simet_lmapd.Model.{
  Schedule, sequential, parallel, pipelined, enabled, disabled, running, suppressed, Rc, done,
  failed, is_done,
}
use simet_lmapd.Data.Scalar.{
  set_string, set_lmap_identifier, set_boolean, set_tag, set_int32, set_uint32, set_uint64,
  set_timezoneoffset, is_empty,
}
use simet_lmapd.Data.Containers.{add_tag, put_back, add_option}
use simet_lmapd.Data.DateTime.{set_dateandtime}
pub mod Exclusive

unfoldable pub lmap_schedule_new : Schedule
lmap_schedule_new = record {
  name = none;
  start = none;
  end = none;
  cycle_number = pos 0;
  duration = 0;
  mode = pipelined;
  end_set = false;
  duration_set = false;
  exec_mode_set = false;
  stop_running = false;
  tags = [];
  suppression_tags = [];
  actions = [];
  state = enabled;
  storage = 0;
  cnt_invocations = 0;
  cnt_failures = 0;
  cnt_suppressions = 0;
  cnt_overlaps = 0;
  last_invocation = pos 0;
  workspace = none;
  cnt_active_suppressions = 0;
}

unfoldable pub lmap_schedule_set_name : Schedule → Option Str → Schedule × Rc
unfolding set_lmap_identifier
lmap_schedule_set_name schedule value =
    let (v, rc) = set_lmap_identifier schedule.name value in (record schedule { name = v }, rc)

unfoldable pub lmap_schedule_set_start : Schedule → Option Str → Schedule × Rc
unfolding set_lmap_identifier
lmap_schedule_set_start schedule value =
    let (v, rc) = set_lmap_identifier schedule.start value in (record schedule { start = v }, rc)

-- A duration that was set is dropped first, also when the new end is then refused.
unfoldable pub lmap_schedule_set_end : Schedule → Option Str → Schedule × Rc
unfolding set_lmap_identifier
lmap_schedule_set_end s value =
    let t = if s.duration_set then record s { duration = 0; duration_set = false } else s in
    let (v, rc) = set_lmap_identifier t.end value in
    (record t { end = v; end_set = is_done rc || t.end_set }, rc)

unfoldable pub lmap_schedule_set_duration : Schedule → Str → Schedule × Rc
unfolding set_uint64
lmap_schedule_set_duration s value =
    let t = if s.end_set then record s { end = none; end_set = false } else s in
    let (v, rc) = set_uint64 t.duration value in
    (record t { duration = v; duration_set = is_done rc || t.duration_set }, rc)

unfoldable pub lmap_schedule_set_exec_mode : Schedule → Str → Schedule × Rc
lmap_schedule_set_exec_mode s value =
    if str_eq (codes "sequential") value
    then (record s { mode = sequential; exec_mode_set = true }, done)
    else if str_eq (codes "parallel") value
    then (record s { mode = parallel; exec_mode_set = true }, done)
    else if str_eq (codes "pipelined") value
    then (record s { mode = pipelined; exec_mode_set = true }, done)
    else (s, failed)

unfoldable pub lmap_schedule_set_state : Schedule → Str → Schedule × Rc
lmap_schedule_set_state s value =
    if str_eq (codes "enabled") value
    then (record s { state = enabled }, done)
    else if str_eq (codes "disabled") value
    then (record s { state = disabled }, done)
    else if str_eq (codes "running") value
    then (record s { state = running }, done)
    else if str_eq (codes "suppressed") value
    then (record s { state = suppressed }, done)
    else (s, failed)

unfoldable pub lmap_schedule_set_storage : Schedule → Str → Schedule × Rc
unfolding set_uint64
lmap_schedule_set_storage schedule value =
    let (v, rc) = set_uint64 schedule.storage value in (record schedule { storage = v }, rc)

unfoldable pub lmap_schedule_set_invocations : Schedule → Str → Schedule × Rc
unfolding set_uint32
lmap_schedule_set_invocations schedule value =
    let (v, rc) = set_uint32 schedule.cnt_invocations value in
    (record schedule { cnt_invocations = v }, rc)

unfoldable pub lmap_schedule_set_suppressions : Schedule → Str → Schedule × Rc
unfolding set_uint32
lmap_schedule_set_suppressions schedule value =
    let (v, rc) = set_uint32 schedule.cnt_suppressions value in
    (record schedule { cnt_suppressions = v }, rc)

unfoldable pub lmap_schedule_set_overlaps : Schedule → Str → Schedule × Rc
unfolding set_uint32
lmap_schedule_set_overlaps schedule value =
    let (v, rc) = set_uint32 schedule.cnt_overlaps value in
    (record schedule { cnt_overlaps = v }, rc)

unfoldable pub lmap_schedule_set_failures : Schedule → Str → Schedule × Rc
unfolding set_uint32
lmap_schedule_set_failures schedule value =
    let (v, rc) = set_uint32 schedule.cnt_failures value in
    (record schedule { cnt_failures = v }, rc)

unfoldable pub lmap_schedule_set_last_invocation : Schedule → Str → Schedule × Rc
unfolding set_dateandtime
lmap_schedule_set_last_invocation schedule value =
    let (v, rc) = set_dateandtime schedule.last_invocation value in
    (record schedule { last_invocation = v }, rc)

unfoldable pub lmap_schedule_set_workspace : Schedule → Option Str → Schedule × Rc
unfolding set_string
lmap_schedule_set_workspace schedule value =
    let (v, rc) = set_string schedule.workspace value in (record schedule { workspace = v }, rc)

unfoldable pub lmap_schedule_add_tag : Schedule → Str → Option (Schedule × Rc)
unfolding add_tag
lmap_schedule_add_tag schedule value =
    put_back (λ l. record schedule { tags = l }) (add_tag schedule.tags value)

unfoldable pub lmap_schedule_add_suppression_tag : Schedule → Str → Option (Schedule × Rc)
unfolding add_tag
lmap_schedule_add_suppression_tag schedule value =
    put_back (λ l. record schedule { suppression_tags = l })
      (add_tag schedule.suppression_tags value)
