-- ===== src/Workspace/Meta.antt =====
-- The meta information of a run of an action: lmapd_workspace_action_meta_add_start and _end and read_result
-- in src/workspace.c. A file is the text in it; whether it is opened is an argument, and so are the version
-- of the program and the text that gmtime() and strftime() make of a cycle number.
use simet_lmapd.Base.{
  ℕ, zero, suc, ◌+◌, ◌-◌, ◌≡◌, Bool, true, false, not, List, [], ◌∷◌, ◌++◌, map, Option, none, some,
  length, ◌==◌, if◌then◌else◌,
}
use simet_lmapd.Base.Int.{ℤ, pos, negsuc, pos_part, neg_part}
use simet_lmapd.Text.{Str, codes, str_eq}
use simet_lmapd.Text.Printing.{print_number, print_int}
use simet_lmapd.Csv.{File, csv_append_key_value, csv_next_key_value}
use simet_lmapd.Csv.Progress.{measure}
use simet_lmapd.Model.{Tag, LmapOption, Task, Action, Schedule, Rc, done, failed}
use simet_lmapd.Data.Task.{
  lmap_option_new, lmap_option_set_id, lmap_option_set_name, lmap_option_set_value,
}
use simet_lmapd.Data.Results.{
  Result, lmap_result_new, lmap_result_add_option, lmap_result_add_tag, lmap_result_set_schedule,
  lmap_result_set_action, lmap_result_set_task, lmap_result_set_event_epoch,
  lmap_result_set_start_epoch, lmap_result_set_end_epoch, lmap_result_set_cycle_number,
  lmap_result_set_status,
}
use simet_lmapd.Workspace.Names.{unsigned64}
pub mod Reading
pub mod Pairs
pub mod Options
pub mod Tags
pub mod Fields
pub mod Writable
pub mod RoundTrip

abbrev pub delimiter : ℕ
delimiter = b';'

-- A call of csv_append_key_value: the key and the value, which may be NULL.
abbrev pub Call : Type 0
Call = Str × Option Str

unfoldable pub write_pairs : List Call → Str
write_pairs [] = []
write_pairs ((key, value) ∷ pairs) =
    csv_append_key_value delimiter (some key) value ++ write_pairs pairs

abbrev pub llu : ℤ → Str
llu t = print_number (unsigned64 t)

unfoldable pub option_pairs : List LmapOption → List Call
option_pairs [] = []
option_pairs (o ∷ os) =
    (codes "option-id", o.id)
    ∷ (codes "option-name", o.name)
    ∷ (codes "option-value", o.value)
    ∷ option_pairs os

unfoldable pub tag_pairs : List Tag → List Call
tag_pairs [] = []
tag_pairs (t ∷ ts) = (codes "tag", t.tag) ∷ tag_pairs ts

abbrev pub is_never : ℤ → Bool
is_never (pos n) = n == 0
is_never (negsuc n) = false

-- What a stream does to the file: it cannot be opened, no FILE can be made of the descriptor, or it is written.
pub data Opening : Type 0 where
  unopened unbuffered opened : Opening

unfoldable pub cycle_pairs : (ℤ → Str) → ℤ → List Call
cycle_pairs format_utc cycle_number =
    if is_never cycle_number
    then []
    else (codes "cycle-number", some (format_utc cycle_number)) ∷ []

module _ (magic : Str) (format_utc : ℤ → Str) where
  -- The calls of the start of a run, in their order.
  unfoldable pub start_pairs : Schedule → Action → Task → List Call
  unfolding option_pairs tag_pairs cycle_pairs
  start_pairs schedule action task =
      (codes "magic", some magic)
      ∷ (codes "schedule", schedule.name)
      ∷ (codes "action", action.name)
      ∷ (codes "task", task.name)
      ∷ (option_pairs task.options
          ++ (option_pairs action.options
              ++ (tag_pairs task.tags
                  ++ (tag_pairs schedule.tags
                      ++ (tag_pairs action.tags
                          ++ ((codes "event", some (llu schedule.last_invocation))
                              ∷ (codes "start", some (llu action.last_invocation))
                              ∷ cycle_pairs format_utc schedule.cycle_number))))))

  -- With O_CREAT and O_TRUNC; `none` where there is no file.
  unfoldable pub lmapd_workspace_action_meta_add_start :
      Opening → Schedule → Action → Task → Option Str → Option Str × Rc
  unfolding write_pairs start_pairs
  lmapd_workspace_action_meta_add_start unopened schedule action task file = (file, failed)
  lmapd_workspace_action_meta_add_start unbuffered schedule action task file = (some [], failed)
  lmapd_workspace_action_meta_add_start opened schedule action task file =
      (some (write_pairs (start_pairs schedule action task)), done)

unfoldable pub end_pairs : Action → List Call
end_pairs action =
    (codes "end", some (llu action.last_completion))
    ∷ (codes "status", some (print_int action.last_status))
    ∷ []

-- With O_APPEND alone: the file must be there.
unfoldable pub lmapd_workspace_action_meta_add_end : Opening → Action → Option Str → Option Str × Rc
unfolding write_pairs end_pairs
lmapd_workspace_action_meta_add_end how action none = (none, failed)
lmapd_workspace_action_meta_add_end unopened action (some text) = (some text, failed)
lmapd_workspace_action_meta_add_end unbuffered action (some text) = (some text, failed)
lmapd_workspace_action_meta_add_end opened action (some text) =
    (some (text ++ write_pairs (end_pairs action)), done)

-- `res` and `opt` of `read_result`.
abbrev pub Reading : Type 0
Reading = Result × Option LmapOption

-- The return code is not looked at; `none` is a fault.
abbrev pub ignore : Option LmapOption → Option (Result × Rc) → Option Reading
ignore opt none = none
ignore opt (some (res, rc)) = some (res, opt)

-- The option that is pending is added.
unfoldable pub flush : Reading → Option Result
flush (res, none) = some res
flush (res, some o) = elim (lmap_result_add_option res o) [
  | none ↦ none
  | some (res1, rc) ↦ some res1
]

unfoldable pub new_option : Str → Reading → Option Reading
unfolding flush
new_option value (res, opt) = elim (flush (res, opt)) [
  | none ↦ none
  | some res1 ↦ some (res1, some (lmap_option_set_id lmap_option_new (some value)).0)
]

abbrev pub on_option : (LmapOption → LmapOption × Rc) → Option LmapOption → Option LmapOption
on_option set none = none
on_option set (some o) = some (set o).0

-- The keys that `read_result` knows.
pub data Key : Type 0 where
  schedule action task option_id option_name option_value tag event start end cycle_number status :
      Key

-- Its tests of the key, which exclude each other.
unfoldable pub key_of : Str → Option Key
key_of key =
    if str_eq key (codes "schedule")
    then some schedule
    else if str_eq key (codes "action")
    then some action
    else if str_eq key (codes "task")
    then some task
    else if str_eq key (codes "option-id")
    then some option_id
    else if str_eq key (codes "option-name")
    then some option_name
    else if str_eq key (codes "option-value")
    then some option_value
    else if str_eq key (codes "tag")
    then some tag
    else if str_eq key (codes "event")
    then some event
    else if str_eq key (codes "start")
    then some start
    else if str_eq key (codes "end")
    then some end
    else if str_eq key (codes "cycle-number")
    then some cycle_number
    else if str_eq key (codes "status")
    then some status
    else none

-- What is done for each of them.
unfoldable pub apply_key : Key → Str → Reading → Option Reading
unfolding new_option
apply_key schedule value (res, opt) = some ((lmap_result_set_schedule res (some value)).0, opt)
apply_key action value (res, opt) = some ((lmap_result_set_action res (some value)).0, opt)
apply_key task value (res, opt) = some ((lmap_result_set_task res (some value)).0, opt)
apply_key option_id value (res, opt) = new_option value (res, opt)
apply_key option_name value (res, opt) =
    some (res, on_option (λ o. lmap_option_set_name o (some value)) opt)
apply_key option_value value (res, opt) =
    some (res, on_option (λ o. lmap_option_set_value o (some value)) opt)
apply_key tag value (res, opt) = ignore opt (lmap_result_add_tag res value)
apply_key event value (res, opt) = some ((lmap_result_set_event_epoch res value).0, opt)
apply_key start value (res, opt) = some ((lmap_result_set_start_epoch res value).0, opt)
apply_key end value (res, opt) = some ((lmap_result_set_end_epoch res value).0, opt)
apply_key cycle_number value (res, opt) =
    some ((lmap_result_set_cycle_number res (some value)).0, opt)
apply_key status value (res, opt) = some ((lmap_result_set_status res value).0, opt)

unfoldable pub apply_pair : Str → Str → Reading → Option Reading
unfolding key_of apply_key
apply_pair key value s = elim (key_of key) [ none ↦ some s | some k ↦ apply_key k value s ]

-- A pair of which one is missing is passed over.
unfoldable pub apply_read : Option Str → Option Str → Reading → Option Reading
unfolding apply_pair
apply_read (some key) (some value) s = apply_pair key value s
apply_read _ _ s = some s

-- The loop of `read_result`; `none` is a fault, or the fuel is used up.
unfoldable pub read_loop : ℕ → File → Reading → Option Reading
read_loop zero file s = none
read_loop (suc fuel) file s = elim file.eof [
  | true ↦ some s
  | false ↦ elim (csv_next_key_value delimiter file) [
    | none ↦ none
    | some (key, value, file1) ↦ elim (apply_read key value s) [
      | none ↦ none
      | some s1 ↦ read_loop fuel file1 s1
    ]
  ]
]

-- One more than the reads that are left is enough.
unfoldable pub read_pairs : File → Reading → Option Reading
unfolding read_loop
read_pairs file s = read_loop (suc (measure file)) file s

abbrev pub start_of : Str → File
start_of content = record { rest = content; eof = false }

-- `read_result` of a stream with this content; `none` is a fault.
unfoldable pub read_result : Str → Option Result
unfolding read_pairs flush
read_result content = elim (read_pairs (start_of content) (lmap_result_new, none)) [
  | none ↦ none
  | some s ↦ flush s
]
