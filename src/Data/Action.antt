-- ===== src/Data/Action.antt =====
-- The setters of struct action in src/data.c.
use simet_lmapd.Base.{false, [], Option, none, if◌then◌else◌}
use simet_lmapd.Base.Int.{pos}
use simet_lmapd.Text.{Str, codes, str_eq}
use simet_lmapd.Model.{Action, LmapOption, enabled, disabled, running, suppressed, Rc, done, failed}
use simet_lmapd.Data.Scalar.{set_string, set_lmap_identifier, set_int32, set_uint32, set_uint64}
use simet_lmapd.Data.Containers.{add_tag, put_back, add_option}
use simet_lmapd.Data.DateTime.{set_dateandtime}

unfoldable pub lmap_action_new : Action
lmap_action_new = record {
  name = none;
  task = none;
  destinations = [];
  options = [];
  tags = [];
  suppression_tags = [];
  state = enabled;
  move_deferred = false;
  storage = 0;
  last_invocation = pos 0;
  last_completion = pos 0;
  last_status = pos 0;
  last_message = none;
  last_failed_completion = pos 0;
  last_failed_status = pos 0;
  last_failed_message = none;
  cnt_invocations = 0;
  cnt_failures = 0;
  cnt_suppressions = 0;
  cnt_overlaps = 0;
  pid = 0;
  workspace = none;
  cnt_active_suppressions = 0;
}

unfoldable pub lmap_action_set_name : Action → Option Str → Action × Rc
unfolding set_lmap_identifier
lmap_action_set_name action value =
    let (v, rc) = set_lmap_identifier action.name value in (record action { name = v }, rc)

unfoldable pub lmap_action_set_task : Action → Option Str → Action × Rc
unfolding set_string
lmap_action_set_task action value =
    let (v, rc) = set_string action.task value in (record action { task = v }, rc)

unfoldable pub lmap_action_set_state : Action → Str → Action × Rc
lmap_action_set_state a value =
    if str_eq (codes "enabled") value
    then (record a { state = enabled }, done)
    else if str_eq (codes "disabled") value
    then (record a { state = disabled }, done)
    else if str_eq (codes "running") value
    then (record a { state = running }, done)
    else if str_eq (codes "suppressed") value
    then (record a { state = suppressed }, done)
    else (a, failed)

unfoldable pub lmap_action_add_option : Action → LmapOption → Option (Action × Rc)
unfolding add_option
lmap_action_add_option a o = put_back (λ l. record a { options = l }) (add_option a.options o)

unfoldable pub lmap_action_set_storage : Action → Str → Action × Rc
unfolding set_uint64
lmap_action_set_storage action value =
    let (v, rc) = set_uint64 action.storage value in (record action { storage = v }, rc)

unfoldable pub lmap_action_set_invocations : Action → Str → Action × Rc
unfolding set_uint32
lmap_action_set_invocations action value =
    let (v, rc) = set_uint32 action.cnt_invocations value in
    (record action { cnt_invocations = v }, rc)

unfoldable pub lmap_action_set_suppressions : Action → Str → Action × Rc
unfolding set_uint32
lmap_action_set_suppressions action value =
    let (v, rc) = set_uint32 action.cnt_suppressions value in
    (record action { cnt_suppressions = v }, rc)

unfoldable pub lmap_action_set_overlaps : Action → Str → Action × Rc
unfolding set_uint32
lmap_action_set_overlaps action value =
    let (v, rc) = set_uint32 action.cnt_overlaps value in (record action { cnt_overlaps = v }, rc)

unfoldable pub lmap_action_set_failures : Action → Str → Action × Rc
unfolding set_uint32
lmap_action_set_failures action value =
    let (v, rc) = set_uint32 action.cnt_failures value in (record action { cnt_failures = v }, rc)

unfoldable pub lmap_action_set_last_invocation : Action → Str → Action × Rc
unfolding set_dateandtime
lmap_action_set_last_invocation action value =
    let (v, rc) = set_dateandtime action.last_invocation value in
    (record action { last_invocation = v }, rc)

unfoldable pub lmap_action_set_last_completion : Action → Str → Action × Rc
unfolding set_dateandtime
lmap_action_set_last_completion action value =
    let (v, rc) = set_dateandtime action.last_completion value in
    (record action { last_completion = v }, rc)

unfoldable pub lmap_action_set_last_status : Action → Str → Action × Rc
unfolding set_int32
lmap_action_set_last_status action value =
    let (v, rc) = set_int32 action.last_status value in (record action { last_status = v }, rc)

unfoldable pub lmap_action_set_last_message : Action → Option Str → Action × Rc
unfolding set_string
lmap_action_set_last_message action value =
    let (v, rc) = set_string action.last_message value in (record action { last_message = v }, rc)

unfoldable pub lmap_action_set_last_failed_completion : Action → Str → Action × Rc
unfolding set_dateandtime
lmap_action_set_last_failed_completion action value =
    let (v, rc) = set_dateandtime action.last_failed_completion value in
    (record action { last_failed_completion = v }, rc)

unfoldable pub lmap_action_set_last_failed_status : Action → Str → Action × Rc
unfolding set_int32
lmap_action_set_last_failed_status action value =
    let (v, rc) = set_int32 action.last_failed_status value in
    (record action { last_failed_status = v }, rc)

unfoldable pub lmap_action_set_last_failed_message : Action → Option Str → Action × Rc
unfolding set_string
lmap_action_set_last_failed_message action value =
    let (v, rc) = set_string action.last_failed_message value in
    (record action { last_failed_message = v }, rc)

unfoldable pub lmap_action_set_workspace : Action → Option Str → Action × Rc
unfolding set_string
lmap_action_set_workspace action value =
    let (v, rc) = set_string action.workspace value in (record action { workspace = v }, rc)

unfoldable pub lmap_action_add_destination : Action → Str → Option (Action × Rc)
unfolding add_tag
lmap_action_add_destination action value =
    put_back (λ l. record action { destinations = l }) (add_tag action.destinations value)

unfoldable pub lmap_action_add_tag : Action → Str → Option (Action × Rc)
unfolding add_tag
lmap_action_add_tag action value =
    put_back (λ l. record action { tags = l }) (add_tag action.tags value)

unfoldable pub lmap_action_add_suppression_tag : Action → Str → Option (Action × Rc)
unfolding add_tag
lmap_action_add_suppression_tag action value =
    put_back (λ l. record action { suppression_tags = l }) (add_tag action.suppression_tags value)
