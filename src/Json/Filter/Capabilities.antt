-- ===== src/Json/Filter/Capabilities.antt =====
-- src/json-io.c: what the filter of PARSE_CONFIG_TRUE keeps a configuration from changing.
use mathlib.Core.Path.{subst}
use simet_lmapd.Base.{◌≡◌, ◌≢◌, refl, true, false, Option, none, some, All}
use simet_lmapd.Text.{codes}
use simet_lmapd.Model.{Rc, failed, Lmap, Capability}
use simet_lmapd.Data.Containers.{lmap_add_supp, lmap_add_task, lmap_add_schedule, lmap_add_event}
use simet_lmapd.Json.{
  Json, object, array, null, boolean, double, int, string, Values, end, value, JsonC, What,
}
use simet_lmapd.Json.Lookup.{passes, foreach_field, entry_object}
use simet_lmapd.Json.Tasks.{
  parse_task, parse_task_array, parse_tasks, xx_lctrl_tasks, xx_lctrlt_add_task, only_field,
  given_or,
}
use simet_lmapd.Json.Settings.{parse_suppression, parse_supp_array, xx_lctrl_suppressions}
use simet_lmapd.Json.Events.{parse_event, parse_event_array, xx_lctrl_events}
use simet_lmapd.Json.Schedules.{parse_schedule, parse_schedule_array, xx_lctrl_schedules}
use simet_lmapd.Data.Agent.{lmap_agent_new}
use simet_lmapd.Json.Document.{
  agent_table, xx_lctrl_agent, control_table, control_fields, parse_control_doc, parse_config_doc,
}
use simet_lmapd.Json.Filter.{
  Yields, Keeps, Yields-update, Yields-added, Yields-parsed, Yields-array, Yields-put_back,
  object-Keeps, foreach-Yields,
}

module _ (lib : JsonC) (caps : Option Capability) (what : What) where
  abbrev pub HasCapabilities : Lmap → Type 0
  HasCapabilities lmap = lmap.capabilities ≡ caps

  tasks-Yields :
      (lmap : Lmap) (vs : Values)
      → HasCapabilities lmap
      → Yields HasCapabilities (parse_task_array lib xx_lctrlt_add_task lmap what vs)
  unfolding parse_task_array lmap_add_task
  tasks-Yields lmap end p = p
  tasks-Yields lmap (value v vs) p =
      Yields-parsed HasCapabilities _ lmap (parse_task lib v what) p (λ t.
        Yields-added HasCapabilities _ (lmap_add_task lmap t)
          (Yields-put_back HasCapabilities _ _ (λ l. p)) (λ l q. tasks-Yields l vs q))

  supps-Yields :
      (lmap : Lmap) (vs : Values)
      → HasCapabilities lmap
      → Yields HasCapabilities (parse_supp_array lib lmap what vs)
  unfolding parse_supp_array lmap_add_supp
  supps-Yields lmap end p = p
  supps-Yields lmap (value v vs) p =
      Yields-parsed HasCapabilities _ lmap (parse_suppression lib v what) p (λ t.
        Yields-added HasCapabilities _ (lmap_add_supp lmap t)
          (Yields-put_back HasCapabilities _ _ (λ l. p)) (λ l q. supps-Yields l vs q))

  schedules-Yields :
      (lmap : Lmap) (vs : Values)
      → HasCapabilities lmap
      → Yields HasCapabilities (parse_schedule_array lib lmap what vs)
  unfolding parse_schedule_array lmap_add_schedule
  schedules-Yields lmap end p = p
  schedules-Yields lmap (value v vs) p =
      Yields-parsed HasCapabilities _ lmap (parse_schedule lib v what) p (λ t.
        Yields-added HasCapabilities _ (lmap_add_schedule lmap t)
          (Yields-put_back HasCapabilities _ _ (λ l. p)) (λ l q. schedules-Yields l vs q))

  events-Yields :
      (lmap : Lmap) (vs : Values)
      → HasCapabilities lmap
      → Yields HasCapabilities (parse_event_array lib lmap what vs)
  unfolding parse_event_array lmap_add_event
  events-Yields lmap end p = p
  events-Yields lmap (value v vs) p =
      Yields-parsed HasCapabilities _ lmap (parse_event lib v what) p (λ t.
        Yields-added HasCapabilities _ (lmap_add_event lmap t)
          (Yields-put_back HasCapabilities _ _ (λ l. p)) (λ l q. events-Yields l vs q))

  agent-Yields :
      (lmap : Lmap) (v : Json)
      → HasCapabilities lmap
      → Yields HasCapabilities (xx_lctrl_agent lib lmap v what)
  unfolding xx_lctrl_agent
  agent-Yields lmap (object fs) p =
      Yields-update HasCapabilities _
        (foreach_field lib failed (given_or lmap_agent_new lmap.agent) what fs agent_table) (λ a. p)
  agent-Yields lmap (array vs) p = tt
  agent-Yields lmap null p = tt
  agent-Yields lmap (boolean b) p = tt
  agent-Yields lmap (double d) p = tt
  agent-Yields lmap (int n) p = tt
  agent-Yields lmap (string t) p = tt

impossible : false ≢ true
impossible h = cc

abbrev config : What
config = record { config_true = true; config_false = false }

control-Keeps :
    (lib : JsonC) (caps : Option Capability)
    → All (Keeps lib (HasCapabilities lib caps config) config) (control_table lib)
unfolding xx_lctrl_tasks xx_lctrl_schedules xx_lctrl_suppressions xx_lctrl_events parse_tasks passes
    entry_object
control-Keeps lib caps = (
  (λ pass. absurd (impossible pass)),
  (
    object-Keeps lib _ config _ _ _ (λ l v p. agent-Yields lib caps config l v p),
    (
      object-Keeps lib _ config _ _ _ (λ l v p.
          Yields-array _ _ l (only_field (codes "task") v) p
            (λ vs. tasks-Yields lib caps config l vs p)),
      (
        object-Keeps lib _ config _ _ _ (λ l v p.
            Yields-array _ _ l (only_field (codes "schedule") v) p
              (λ vs. schedules-Yields lib caps config l vs p)),
        (
          object-Keeps lib _ config _ _ _ (λ l v p.
              Yields-array _ _ l (only_field (codes "suppression") v) p
                (λ vs. supps-Yields lib caps config l vs p)),
          (
            object-Keeps lib _ config _ _ _ (λ l v p.
                Yields-array _ _ l (only_field (codes "event") v) p
                  (λ vs. events-Yields lib caps config l vs p)),
            tt,
          ),
        ),
      ),
    ),
  ),
)

control_fields-Yields :
    (lib : JsonC) (caps : Option Capability) (lmap : Lmap) (v : Option Json)
    → lmap.capabilities ≡ caps
    → Yields (HasCapabilities lib caps config) (control_fields lib lmap config v)
control_fields-Yields lib caps lmap (some (object fs)) p =
    foreach-Yields lib (HasCapabilities lib caps config) config (control_table lib) failed lmap fs
      (control-Keeps lib caps) p
control_fields-Yields lib caps lmap none p = p
control_fields-Yields lib caps lmap (some (array vs)) p = p
control_fields-Yields lib caps lmap (some null) p = p
control_fields-Yields lib caps lmap (some (boolean b)) p = p
control_fields-Yields lib caps lmap (some (double d)) p = p
control_fields-Yields lib caps lmap (some (int n)) p = p
control_fields-Yields lib caps lmap (some (string t)) p = p

-- The document under one name or the other.
named-Yields :
    (lib : JsonC) (caps : Option Capability) (lmap : Lmap) (o w : Option Json)
    → lmap.capabilities ≡ caps
    → Yields (HasCapabilities lib caps config) (elim o as (λ x. Option (Lmap × Rc)) [
      | some v ↦ control_fields lib lmap config (some v)
      | none ↦ control_fields lib lmap config w
    ])
named-Yields lib caps lmap none w p = control_fields-Yields lib caps lmap w p
named-Yields lib caps lmap (some v) w p = control_fields-Yields lib caps lmap (some v) p

config_doc-Yields :
    (lib : JsonC) (lmap : Lmap) (root : Json)
    → Yields (HasCapabilities lib lmap.capabilities config) (parse_config_doc lib lmap root)
unfolding parse_config_doc parse_control_doc
config_doc-Yields lib lmap root =
    named-Yields lib lmap.capabilities lmap (only_field (codes "ietf-lmap-control:lmap") root) _
      refl

-- A configuration document never changes the capabilities of the data model, whatever it holds and
-- whether it is accepted or refused half way.
pub parse_config_doc-capabilities :
    (lib : JsonC) (lmap lmap1 : Lmap) (root : Json) (rc : Rc)
    → parse_config_doc lib lmap root ≡ some (lmap1, rc)
    → lmap1.capabilities ≡ lmap.capabilities
unfolding parse_config_doc parse_control_doc
parse_config_doc-capabilities lib lmap lmap1 root rc e =
    subst (λ o. Yields (HasCapabilities lib lmap.capabilities config) o) e
      (config_doc-Yields lib lmap root)
