-- ===== src/Data/Containers.antt =====
-- The linked lists of src/data.c: appending a named object, appending a tag, finding by name.
-- `none` is a fault: strcmp() through a null pointer.
use simet_lmapd.Base.{
  ◌+◌, ◌≡◌, Bool, true, false, List, [], ◌∷◌, ◌++◌, Option, none, some, if◌then◌else◌,
}
use simet_lmapd.Text.{Str, str_eq}
use simet_lmapd.Model.{
  Rc, done, failed, Tag, LmapOption, Registry, Task, Action, Schedule, Supp, Event, Capability,
  Lmap,
}
use simet_lmapd.Data.Scalar.{set_tag}
pub mod Names
pub mod Tags

module _ {ℓ} {A : Type ℓ} (name : A → Option Str) where
  -- The walk along the list: `some true` if an element has the key, `none` at a null name.
  unfoldable pub duplicate : List A → Str → Option Bool
  duplicate [] key = some false
  duplicate (x ∷ xs) key = elim (name x) [
    | none ↦ none
    | some n ↦ elim (str_eq n key) [ true ↦ some true | false ↦ duplicate xs key ]
  ]

  -- The common body of the functions that append an object under a unique name.
  unfoldable pub add_unique : List A → A → Option (List A × Rc)
  unfolding duplicate
  add_unique xs x = elim (name x) [
    | none ↦ some (xs, failed)
    | some key ↦ elim (duplicate xs key) [
      | none ↦ none
      | some true ↦ some (xs, failed)
      | some false ↦ some (xs ++ x ∷ [], done)
    ]
  ]

  -- The common body of the functions that find an object by its name.
  unfoldable pub find_name : List A → Str → Option A
  find_name [] key = none
  find_name (x ∷ xs) key = elim (name x) [
    | none ↦ find_name xs key
    | some n ↦ elim (str_eq n key) [ true ↦ some x | false ↦ find_name xs key ]
  ]

abbrev pub schedule_name : Schedule → Option Str
schedule_name s = s.name

abbrev pub supp_name : Supp → Option Str
supp_name s = s.name

abbrev pub event_name : Event → Option Str
event_name e = e.name

abbrev pub task_name : Task → Option Str
task_name t = t.name

abbrev pub action_name : Action → Option Str
action_name a = a.name

-- An update of one list of a struct by a result of `add_unique`.
abbrev pub put_back {ℓ κ} :
    {A : Type ℓ} {S : Type κ} → (List A → S) → Option (List A × Rc) → Option (S × Rc)
put_back f none = none
put_back f (some (xs, rc)) = some (f xs, rc)

unfoldable pub lmap_find_event : Lmap → Str → Option Event
unfolding find_name
lmap_find_event lmap key = find_name event_name lmap.events key

unfoldable pub lmap_find_task : Lmap → Str → Option Task
unfolding find_name
lmap_find_task lmap key = find_name task_name lmap.tasks key

unfoldable pub lmap_find_schedule : Lmap → Str → Option Schedule
unfolding find_name
lmap_find_schedule lmap key = find_name schedule_name lmap.schedules key

unfoldable pub lmap_add_schedule : Lmap → Schedule → Option (Lmap × Rc)
unfolding add_unique
lmap_add_schedule lmap s =
    put_back (λ l. record lmap { schedules = l }) (add_unique schedule_name lmap.schedules s)

unfoldable pub lmap_add_supp : Lmap → Supp → Option (Lmap × Rc)
unfolding add_unique
lmap_add_supp lmap s = put_back (λ l. record lmap { supps = l }) (add_unique supp_name lmap.supps s)

unfoldable pub lmap_add_task : Lmap → Task → Option (Lmap × Rc)
unfolding add_unique
lmap_add_task lmap t = put_back (λ l. record lmap { tasks = l }) (add_unique task_name lmap.tasks t)

unfoldable pub lmap_add_event : Lmap → Event → Option (Lmap × Rc)
unfolding add_unique
lmap_add_event lmap e =
    put_back (λ l. record lmap { events = l }) (add_unique event_name lmap.events e)

unfoldable pub lmap_capability_add_task : Capability → Task → Option (Capability × Rc)
unfolding add_unique
lmap_capability_add_task c t =
    put_back (λ l. record c { tasks = l }) (add_unique task_name c.tasks t)

unfoldable pub lmap_schedule_add_action : Schedule → Action → Option (Schedule × Rc)
unfolding add_unique
lmap_schedule_add_action s a =
    put_back (λ l. record s { actions = l }) (add_unique action_name s.actions a)

unfoldable pub lmap_task_add_registry : Task → Registry → Option (Task × Rc)
unfolding add_unique
lmap_task_add_registry t r =
    put_back (λ l. record t { registries = l })
      (add_unique (λ (x : Registry). x.uri) t.registries r)

unfoldable pub add_option : List LmapOption → LmapOption → Option (List LmapOption × Rc)
unfolding add_unique
add_option options o = add_unique (λ (x : LmapOption). x.id) options o

unfoldable pub lmap_tag_new : Tag
lmap_tag_new = record { tag = none }

unfoldable pub lmap_tag_set_tag : Tag → Str → Tag × Rc
unfolding set_tag
lmap_tag_set_tag t value = let (s, rc) = set_tag t.tag (some value) in (record { tag = s }, rc)

-- The walk of `add_tag` along a list, which appends at its end.
unfoldable pub append_tag : List Tag → Tag → Str → Option (List Tag × Rc)
append_tag [] tag value = some (tag ∷ [], done)
append_tag (t ∷ ts) tag value = elim t.tag [
  | none ↦ none
  | some s ↦ elim (str_eq s value) [
    | true ↦ some (t ∷ ts, failed)
    | false ↦ put_back (λ l. t ∷ l) (append_tag ts tag value)
  ]
]

-- The return code of `lmap_tag_set_tag` is not looked at.
unfoldable pub add_tag : List Tag → Str → Option (List Tag × Rc)
unfolding append_tag lmap_tag_new lmap_tag_set_tag
add_tag tags value = append_tag tags (lmap_tag_set_tag lmap_tag_new value).0 value
