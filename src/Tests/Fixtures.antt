-- ===== src/Tests/Fixtures.antt =====
-- The configuration of the tests.
use simet_lmapd.Base.{Bool, true, false, [], ◌∷◌, none, some}
use simet_lmapd.Base.Int.{pos}
use simet_lmapd.Text.{Str, codes, str_eq}
use simet_lmapd.Model.{
  Tag, Task, Action, Schedule, Supp, SuppState, Event, periodic, one_off, Capability, Lmap, enabled,
  running, sequential,
}
use simet_lmapd.Runner.{Io}

abbrev pub night : Tag
night = record { tag = some (codes "night") }

abbrev pub ping_task : Task
ping_task = record {
  name = some (codes "ping");
  registries = [];
  version = none;
  program = some (codes "/bin/ping");
  options = [];
  tags = [];
}

abbrev pub named_action : Str → Action
named_action n = record {
  name = some n;
  task = some (codes "ping");
  destinations = [];
  options = [];
  tags = [];
  suppression_tags = night ∷ [];
  state = enabled;
  move_deferred = false;
  storage = 0;
  last_invocation = pos 0;
  last_completion = pos 0;
  last_status = pos 0;
  last_message = none;
  last_failed_completion = pos 0;
  last_failed_status = pos 0;
  last_failed_message = none;
  cnt_invocations = 0;
  cnt_failures = 0;
  cnt_suppressions = 0;
  cnt_overlaps = 0;
  pid = 0;
  workspace = some (codes "/ws");
  cnt_active_suppressions = 0;
}

abbrev pub first_action : Action
first_action = named_action (codes "first")

abbrev pub second_action : Action
second_action = named_action (codes "second")

abbrev pub hourly_schedule : Schedule
hourly_schedule = record {
  name = some (codes "hourly");
  start = some (codes "tick");
  end = none;
  cycle_number = pos 0;
  duration = 0;
  mode = sequential;
  end_set = false;
  duration_set = false;
  exec_mode_set = false;
  stop_running = false;
  tags = [];
  suppression_tags = night ∷ [];
  actions = first_action ∷ second_action ∷ [];
  state = enabled;
  storage = 0;
  cnt_invocations = 0;
  cnt_failures = 0;
  cnt_suppressions = 0;
  cnt_overlaps = 0;
  last_invocation = pos 0;
  workspace = none;
  cnt_active_suppressions = 0;
}

abbrev pub night_supp : Supp
night_supp = record {
  name = some (codes "quiet");
  start = some (codes "dusk");
  end = some (codes "dawn");
  match = night ∷ [];
  stop_running = true;
  stop_running_set = true;
  state = SuppState.enabled;
}

abbrev pub tick_event : Event
tick_event = record {
  name = some (codes "tick");
  type = periodic;
  interval_set = true;
  start_set = true;
  end_set = false;
  random_spread_set = true;
  cycle_interval_set = true;
  timezone_offset_set = false;
  last_invocation = pos 0;
  interval = 3600;
  start = pos 1000;
  end = pos 0;
  random_spread = 60;
  cycle_interval = 900;
  months = 0;
  days_of_month = 0;
  days_of_week = 0;
  hours = 0;
  minutes = 0;
  seconds = 0;
  timezone_offset = pos 0;
}

abbrev pub once_event : Event
once_event = record tick_event { type = one_off }

abbrev pub dusk_event : Event
dusk_event = record tick_event { name = some (codes "dusk") }

abbrev pub dawn_event : Event
dawn_event = record tick_event { name = some (codes "dawn") }

abbrev pub ping_capability : Capability
ping_capability = record { tasks = ping_task ∷ []; version = none; tags = [] }

abbrev pub night_lmap : Lmap
night_lmap = record {
  agent = none;
  capabilities = some ping_capability;
  schedules = hourly_schedule ∷ [];
  supps = night_supp ∷ [];
  events = tick_event ∷ dusk_event ∷ dawn_event ∷ [];
  tasks = ping_task ∷ [];
}

-- Two forks succeed, and every kill.
abbrev pub two_forks : Io
two_forks = record { forks = 100 ∷ 101 ∷ []; kills = true ∷ true ∷ []; moves = []; trace = [] }

-- Patterns without special characters.
abbrev pub plain_match : Str → Str → Bool
plain_match pattern s = str_eq pattern s

abbrev pub running_action : Action
running_action = record first_action { state = running; pid = 100 }

abbrev pub running_schedule : Schedule
running_schedule = record hourly_schedule {
  state = running;
  actions = running_action ∷ second_action ∷ [];
}

abbrev pub running_lmap : Lmap
running_lmap = record night_lmap { schedules = running_schedule ∷ [] }
