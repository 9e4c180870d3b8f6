-- ===== src/Data/Validity.antt =====
-- The validity checks of src/data.c. Each returns 1 or 0; what it logs is left out.
use simet_lmapd.Base.{
  ℕ, Bool, true, false, not, ◌&&◌, ◌||◌, List, [], ◌∷◌, Option, none, some, all, ltb, leb, ◌==◌,
  if◌then◌else◌,
}
use simet_lmapd.Base.Int.{ltb_ℤ}
use simet_lmapd.Text.{Str}
use simet_lmapd.Model.{
  Tag, LmapOption, Registry, Task, Action, Schedule, Supp, Event, EventType, periodic, calendar,
  one_off, unset, Agent, Lmap,
}
use simet_lmapd.Data.Containers.{lmap_find_event, lmap_find_task, lmap_find_schedule}
pub mod References
pub mod Events

-- A pointer that is not null.
abbrev pub given {ℓ} : {A : Type ℓ} → Option A → Bool
given none = false
given (some a) = true

-- `!flag || pointer`
abbrev pub implies : Bool → Bool → Bool
implies a b = not a || b

unfoldable pub lmap_agent_valid : Agent → Bool
lmap_agent_valid a =
    implies a.report_agent_id (given a.agent_id)
    && implies a.report_group_id (given a.group_id)
    && implies a.report_measurement_point (given a.measurement_point)

unfoldable pub lmap_registry_valid : Registry → Bool
lmap_registry_valid r = given r.uri

unfoldable pub lmap_option_valid : LmapOption → Bool
lmap_option_valid o = given o.id

unfoldable pub lmap_tag_valid : Tag → Bool
lmap_tag_valid t = given t.tag

-- A reference that is set must be found.
abbrev pub refers {ℓ} : {A : Type ℓ} → (Str → Option A) → Option Str → Bool
refers find none = true
refers find (some n) = given (find n)

unfoldable pub lmap_supp_valid : Lmap → Supp → Bool
lmap_supp_valid lmap s =
    given s.name && refers (lmap_find_event lmap) s.start && refers (lmap_find_event lmap) s.end

abbrev pub is_unset : EventType → Bool
is_unset unset = true
is_unset _ = false

abbrev pub is_periodic : EventType → Bool
is_periodic periodic = true
is_periodic _ = false

abbrev pub is_calendar : EventType → Bool
is_calendar calendar = true
is_calendar _ = false

abbrev pub is_one_off : EventType → Bool
is_one_off one_off = true
is_one_off _ = false

unfoldable pub periodic_valid : Event → Bool
periodic_valid e =
    if not e.interval_set
    then false
    else not (e.random_spread_set && leb e.interval e.random_spread)

unfoldable pub calendar_valid : Event → Bool
calendar_valid e =
    not (e.months == 0)
    && not (e.days_of_month == 0)
    && not (e.days_of_week == 0)
    && not (e.hours == 0)
    && not (e.minutes == 0)
    && not (e.seconds == 0)

unfoldable pub lmap_event_valid : Event → Bool
unfolding periodic_valid calendar_valid
lmap_event_valid e =
    given e.name
    && not (is_unset e.type)
    && implies (is_periodic e.type) (periodic_valid e)
    && implies (is_calendar e.type) (calendar_valid e)
    && implies (is_one_off e.type) e.start_set
    && not (e.start_set && e.end_set && ltb_ℤ e.end e.start)

unfoldable pub lmap_task_valid : Task → Bool
lmap_task_valid t = given t.name && given t.program

-- A lookup of a null name finds nothing.
abbrev pub found {ℓ} : {A : Type ℓ} → (Str → Option A) → Option Str → Bool
found find none = false
found find (some n) = given (find n)

unfoldable pub lmap_action_valid : Lmap → Action → Bool
lmap_action_valid lmap a =
    given a.name
    && given a.task
    && refers (lmap_find_task lmap) a.task
    && all (λ t. found (lmap_find_schedule lmap) t.tag) a.destinations

unfoldable pub lmap_schedule_valid : Lmap → Schedule → Bool
unfolding lmap_action_valid
lmap_schedule_valid lmap s =
    given s.name
    && given s.start
    && refers (lmap_find_event lmap) s.start
    && refers (lmap_find_event lmap) s.end
    && all (lmap_action_valid lmap) s.actions

abbrev pub optional {ℓ} : {A : Type ℓ} → (A → Bool) → Option A → Bool
optional p none = true
optional p (some a) = p a

unfoldable pub lmap_valid : Lmap → Bool
unfolding lmap_agent_valid lmap_supp_valid lmap_task_valid lmap_event_valid lmap_schedule_valid
lmap_valid lmap =
    optional lmap_agent_valid lmap.agent
    && all (lmap_supp_valid lmap) lmap.supps
    && all lmap_task_valid lmap.tasks
    && all lmap_event_valid lmap.events
    && all (lmap_schedule_valid lmap) lmap.schedules
