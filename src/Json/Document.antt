-- ===== src/Json/Document.antt =====
-- src/json-io.c: parsing of the agent and of whole documents.
use simet_lmapd.Base.{true, false, List, [], ◌∷◌, Option, none, some}
use simet_lmapd.Text.{Str, codes}
use simet_lmapd.Model.{Rc, failed, Agent, Lmap}
use simet_lmapd.Data.Agent.{
  lmap_agent_new, lmap_agent_set_agent_id, lmap_agent_set_controller_timeout,
  lmap_agent_set_group_id, lmap_agent_set_last_started, lmap_agent_set_measurement_point,
  lmap_agent_set_report_agent_id, lmap_agent_set_report_group_id,
  lmap_agent_set_report_measurement_point,
}
use simet_lmapd.Json.{Json, object, JsonC, What}
use simet_lmapd.Json.Lookup.{
  Entry, yang_config_true, yang_config_false, yang_none, entry_string, entry_bool2str,
  entry_int2str, entry_object, foreach_field,
}
use simet_lmapd.Json.Tasks.{only_field, given_or, xx_lctrl_capabilities, xx_lctrl_tasks}
use simet_lmapd.Json.Settings.{xx_lctrl_suppressions}
use simet_lmapd.Json.Events.{xx_lctrl_events}
use simet_lmapd.Json.Schedules.{xx_lctrl_schedules}

abbrev pub xx_lcas_agent_id : Agent → Str → Option (Agent × Rc)
xx_lcas_agent_id a s = some (lmap_agent_set_agent_id a (some s))

abbrev pub xx_lcas_group_id : Agent → Str → Option (Agent × Rc)
xx_lcas_group_id a s = some (lmap_agent_set_group_id a (some s))

abbrev pub xx_lcas_measurement_point : Agent → Str → Option (Agent × Rc)
xx_lcas_measurement_point a s = some (lmap_agent_set_measurement_point a (some s))

abbrev pub xx_lcas_report_agent_id : Agent → Str → Option (Agent × Rc)
xx_lcas_report_agent_id a s = some (lmap_agent_set_report_agent_id a s)

abbrev pub xx_lcas_report_group_id : Agent → Str → Option (Agent × Rc)
xx_lcas_report_group_id a s = some (lmap_agent_set_report_group_id a s)

abbrev pub xx_lcas_report_measurement_point : Agent → Str → Option (Agent × Rc)
xx_lcas_report_measurement_point a s = some (lmap_agent_set_report_measurement_point a s)

abbrev pub xx_lcas_controller_timeout : Agent → Str → Option (Agent × Rc)
xx_lcas_controller_timeout a s = some (lmap_agent_set_controller_timeout a s)

abbrev pub xx_lcas_last_started : Agent → Str → Option (Agent × Rc)
xx_lcas_last_started a s = some (lmap_agent_set_last_started a s)

abbrev pub agent_table : List (Entry Agent)
agent_table =
    entry_string (codes "agent-id") yang_config_true xx_lcas_agent_id
    ∷ entry_string (codes "group-id") yang_config_true xx_lcas_group_id
    ∷ entry_string (codes "measurement-point") yang_config_true xx_lcas_measurement_point
    ∷ entry_bool2str (codes "report-agent-id") yang_config_true xx_lcas_report_agent_id
    ∷ entry_bool2str (codes "report-group-id") yang_config_true xx_lcas_report_group_id
    ∷ entry_bool2str (codes "report-measurement-point") yang_config_true
        xx_lcas_report_measurement_point
    ∷ entry_int2str (codes "controller-timeout") yang_config_true xx_lcas_controller_timeout
    ∷ entry_string (codes "last-started") yang_config_false xx_lcas_last_started
    ∷ []

module _ (lib : JsonC) where
  -- The table lets only objects through; the walk along anything else is a fault.
  unfoldable pub xx_lctrl_agent : Lmap → Json → What → Option (Lmap × Rc)
  unfolding foreach_field
  xx_lctrl_agent lmap (object fs) what =
      elim (foreach_field lib failed (given_or lmap_agent_new lmap.agent) what fs agent_table) [
        | none ↦ none
        | some (a, rc) ↦ some (record lmap { agent = some a }, rc)
      ]
  xx_lctrl_agent lmap v what = none

  abbrev pub control_table : List (Entry Lmap)
  control_table =
      entry_object (codes "capabilities") yang_config_false (xx_lctrl_capabilities lib)
      ∷ entry_object (codes "agent") yang_none xx_lctrl_agent
      ∷ entry_object (codes "tasks") yang_none (xx_lctrl_tasks lib)
      ∷ entry_object (codes "schedules") yang_none (xx_lctrl_schedules lib)
      ∷ entry_object (codes "suppressions") yang_none (xx_lctrl_suppressions lib)
      ∷ entry_object (codes "events") yang_none (xx_lctrl_events lib)
      ∷ []

  -- The walk along the fields of the inner object.
  abbrev pub control_fields : Lmap → What → Option Json → Option (Lmap × Rc)
  control_fields lmap what (some (object fs)) = foreach_field lib failed lmap what fs control_table
  control_fields lmap what _ = some (lmap, failed)

  -- The document has one field, under either name.
  unfoldable pub parse_control_doc : Lmap → Json → What → Option (Lmap × Rc)
  unfolding foreach_field only_field
  parse_control_doc lmap root what = elim (only_field (codes "ietf-lmap-control:lmap") root) [
    | some v ↦ control_fields lmap what (some v)
    | none ↦ control_fields lmap what (only_field (codes "lmap") root)
  ]

  unfoldable pub parse_state_doc : Lmap → Json → Option (Lmap × Rc)
  unfolding parse_control_doc
  parse_state_doc lmap root =
      parse_control_doc lmap root (record { config_true = true; config_false = true })

  unfoldable pub parse_config_doc : Lmap → Json → Option (Lmap × Rc)
  unfolding parse_control_doc
  parse_config_doc lmap root =
      parse_control_doc lmap root (record { config_true = true; config_false = false })
