-- ===== src/Data/Agent.antt =====
-- The setters of struct agent and struct capability in src/data.c.
use simet_lmapd.Base.{
  ℕ, zero, suc, ◌+◌, Bool, true, false, not, ◌&&◌, ◌||◌, List, [], ◌∷◌, Option, none, some,
  if◌then◌else◌, ltb, leb, ◌==◌, ◌-◌, ◌^◌, bit_or,
}
use simet_lmapd.Base.Int.{ℤ, pos, negsuc}
use simet_lmapd.Text.{Str, codes, str_eq, isxdigit}
use simet_lmapd.Model.{Agent, Capability, Rc, done, failed, is_done}
use simet_lmapd.Data.Scalar.{
  set_string, set_lmap_identifier, set_boolean, set_tag, set_int32, set_uint32, set_uint64,
  set_timezoneoffset, is_empty,
}
use simet_lmapd.Data.Containers.{add_tag, put_back, add_option}
use simet_lmapd.Data.DateTime.{set_dateandtime}
pub mod Uuid

unfoldable pub lmap_agent_new : Agent
lmap_agent_new = record {
  agent_id = none;
  group_id = none;
  measurement_point = none;
  report_agent_id = false;
  report_group_id = false;
  report_measurement_point = false;
  controller_timeout = 604800;
  report_agent_id_set = false;
  report_group_id_set = false;
  report_measurement_point_set = false;
  controller_timeout_set = false;
  report_date = pos 0;
  last_started = pos 0;
}

abbrev is_dash_index : ℕ → Bool
is_dash_index i = i == 8 || i == 13 || i == 18 || i == 23

-- The loop over i = 36 - left .. 36; the NUL that ends the string is the case [].
unfoldable pub uuid_loop : ℕ → ℕ → Str → Bool
uuid_loop zero i [] = i == 36
uuid_loop zero i (c ∷ s) = if is_dash_index i then c == b'-' else isxdigit c
uuid_loop (suc left) i [] = false
uuid_loop (suc left) i (c ∷ s) = elim (if is_dash_index i then c == b'-' else isxdigit c) [
  | true ↦ uuid_loop left (i + 1) s
  | false ↦ false
]

unfoldable pub lmap_agent_set_agent_id : Agent → Option Str → Agent × Rc
unfolding set_string uuid_loop
lmap_agent_set_agent_id agent none =
    let (v, rc) = set_string agent.agent_id none in (record agent { agent_id = v }, rc)
lmap_agent_set_agent_id agent (some value) =
    let (v, rc) = set_string agent.agent_id (some value) in
    if uuid_loop 36 0 value then (record agent { agent_id = v }, rc) else (agent, failed)

unfoldable pub lmap_agent_set_group_id : Agent → Option Str → Agent × Rc
unfolding set_string
lmap_agent_set_group_id agent value =
    let (v, rc) = set_string agent.group_id value in (record agent { group_id = v }, rc)

unfoldable pub lmap_agent_set_measurement_point : Agent → Option Str → Agent × Rc
unfolding set_string
lmap_agent_set_measurement_point agent value =
    let (v, rc) = set_string agent.measurement_point value in
    (record agent { measurement_point = v }, rc)

unfoldable pub lmap_agent_set_report_agent_id : Agent → Str → Agent × Rc
unfolding set_boolean
lmap_agent_set_report_agent_id agent value =
    let (v, rc) = set_boolean agent.report_agent_id value in
    (
      record agent {
        report_agent_id = v;
        report_agent_id_set = is_done rc || agent.report_agent_id_set;
      },
      rc,
    )

unfoldable pub lmap_agent_set_report_group_id : Agent → Str → Agent × Rc
unfolding set_boolean
lmap_agent_set_report_group_id agent value =
    let (v, rc) = set_boolean agent.report_group_id value in
    (
      record agent {
        report_group_id = v;
        report_group_id_set = is_done rc || agent.report_group_id_set;
      },
      rc,
    )

unfoldable pub lmap_agent_set_report_measurement_point : Agent → Str → Agent × Rc
unfolding set_boolean
lmap_agent_set_report_measurement_point agent value =
    let (v, rc) = set_boolean agent.report_measurement_point value in
    (
      record agent {
        report_measurement_point = v;
        report_measurement_point_set = is_done rc || agent.report_measurement_point_set;
      },
      rc,
    )

unfoldable pub lmap_agent_set_controller_timeout : Agent → Str → Agent × Rc
unfolding set_uint32
lmap_agent_set_controller_timeout agent value =
    let (v, rc) = set_uint32 agent.controller_timeout value in
    (
      record agent {
        controller_timeout = v;
        controller_timeout_set = is_done rc || agent.controller_timeout_set;
      },
      rc,
    )

unfoldable pub lmap_agent_set_last_started : Agent → Str → Agent × Rc
unfolding set_dateandtime
lmap_agent_set_last_started agent value =
    let (v, rc) = set_dateandtime agent.last_started value in
    (record agent { last_started = v }, rc)

unfoldable pub lmap_agent_set_report_date : Agent → Str → Agent × Rc
unfolding set_dateandtime
lmap_agent_set_report_date agent value =
    let (v, rc) = set_dateandtime agent.report_date value in (record agent { report_date = v }, rc)

unfoldable pub lmap_capability_new : Capability
lmap_capability_new = record { tasks = []; version = none; tags = [] }

unfoldable pub lmap_capability_set_version : Capability → Option Str → Capability × Rc
unfolding set_string
lmap_capability_set_version capability value =
    let (v, rc) = set_string capability.version value in (record capability { version = v }, rc)

unfoldable pub lmap_capability_add_tag : Capability → Str → Option (Capability × Rc)
unfolding add_tag
lmap_capability_add_tag capability value =
    put_back (λ l. record capability { tags = l }) (add_tag capability.tags value)
