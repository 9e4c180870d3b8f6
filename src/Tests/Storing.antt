-- ===== src/Tests/Storing.antt =====
-- Names, directories and queues of src/workspace.c at concrete inputs.
use simet_lmapd.Base.{
  ℕ, ◌<◌, ◌≡◌, refl, Bool, true, false, [], ◌∷◌, none, some, arith, ◌==◌, if◌then◌else◌, All,
  length,
}
use simet_lmapd.Text.{Str, codes, str_eq}
use simet_lmapd.Model.{Schedule}
use simet_lmapd.Workspace.Names.{name_max, mksafe}
use simet_lmapd.Workspace.Names.Safe.{is_safe, is_visible, mksafe-safe}
use simet_lmapd.Workspace.Tree.{
  Entries, nil, entry, regular, directory, lookup, linkat, link_node, fstatat,
}
use simet_lmapd.Workspace.Queue.{Queue, split_last, data_name, lmapd_workspace_schedule_move}
use simet_lmapd.Workspace.Queue.Steps.{IsMove, IsPaired}
use simet_lmapd.Workspace.Queue.Moving.{schedule_move-IsMove, schedule_move-IsPaired}
use simet_lmapd.Workspace.Queue.Drained.{schedule_move-Moved}
use simet_lmapd.Workspace.Delivery.{
  Moving, Places, lmapd_workspace_action_move, deliver, deliver_all,
}
use simet_lmapd.Workspace.Delivery.Linked.{IsDelivery, action_move-IsDelivery}
use simet_lmapd.Workspace.Delivery.Arrival.{queue_of, arrival}
use simet_lmapd.Workspace.Cleaning.{lmapd_workspace_schedule_clean}
use simet_lmapd.Workspace.Cleaning.Kept.{contains, schedule_clean-stays, schedule_clean-gone}
use simet_lmapd.Workspace.Init.{made}
use simet_lmapd.Workspace.Init.Distinct.{init_schedule-injective}
use simet_lmapd.Tests.Fixtures.{first_action, hourly_schedule}

abbrev never : ℕ → Bool
never t = false

-- The fifth call of the system fails: the link of the meta file.
abbrev fifth : ℕ → Bool
fifth t = t == 5

abbrev data_file : Str
data_file = codes "1.data"

abbrev meta_file : Str
meta_file = codes "1.meta"

abbrev pair_entries : Entries
pair_entries = entry data_file (regular 1 8) (entry meta_file (regular 2 8) nil)

abbrev full_queue : Queue
full_queue = record { incoming = pair_entries; active = nil; tick = 0 }

mksafe-safe_example :
    All (λ c. is_safe c ≡ true) (mksafe none (some (codes "_a/b")))
    × (is_visible (mksafe none (some (codes "_a/b"))) ≡ true)
    × (length (mksafe none (some (codes "_a/b"))) < name_max)
mksafe-safe_example = mksafe-safe (some (codes "_a/b"))

schedule_move-IsMove_example :
    IsMove full_queue
      (lmapd_workspace_schedule_move fifth
        (some (codes "/q/h"))
        (data_file ∷ meta_file ∷ [])
        full_queue).0
schedule_move-IsMove_example =
    schedule_move-IsMove fifth (some (codes "/q/h")) (data_file ∷ meta_file ∷ []) full_queue

nil-IsPaired : IsPaired nil
unfolding lookup
nil-IsPaired m d is there = absurd (there refl)

schedule_move-IsPaired_example :
    IsPaired
      (lmapd_workspace_schedule_move fifth
        (some (codes "/q/h"))
        (data_file ∷ meta_file ∷ [])
        full_queue).0.active
schedule_move-IsPaired_example =
    schedule_move-IsPaired fifth (some (codes "/q/h")) (data_file ∷ meta_file ∷ []) full_queue
      nil-IsPaired

schedule_move-Moved_example :
    let q1 =
      (lmapd_workspace_schedule_move never
        (some (codes "/q/h"))
        (data_file ∷ meta_file ∷ [])
        full_queue).0 in
    (lookup meta_file q1.active ≡ some (regular 2 8))
    × (lookup data_file q1.active ≡ some (regular 1 8))
    × (lookup meta_file q1.incoming ≡ none)
    × (lookup data_file q1.incoming ≡ none)
unfolding lookup split_last data_name str_eq
schedule_move-Moved_example =
    schedule_move-Moved never (codes "/q/h") (data_file ∷ []) [] full_queue meta_file data_file
      (regular 2 8) (regular 1 8) (λ t. refl) refl refl refl refl (λ n there. refl) refl refl

abbrev ran_places : Places
ran_places = record {
  workspace = pair_entries;
  incoming = nil;
  active = nil;
  tick = 0;
  rc = Moving.done;
}

abbrev destination : Schedule
destination = record hourly_schedule { workspace = some (codes "/q/h") }

action_move-IsDelivery_example :
    IsDelivery false ran_places
      (lmapd_workspace_action_move fifth false
        (some hourly_schedule)
        (some first_action)
        (some destination)
        false
        (data_file ∷ meta_file ∷ [])
        ran_places).0
action_move-IsDelivery_example =
    action_move-IsDelivery fifth false (some hourly_schedule) (some first_action) (some destination)
      false (data_file ∷ meta_file ∷ []) ran_places

abbrev sent_places : Places
sent_places = record ran_places {
  incoming = entry meta_file (regular 2 8) (entry data_file (regular 1 8) nil);
  tick = 5;
}

arrival_example :
    let q =
      (lmapd_workspace_schedule_move never
        (some (codes "/q/h"))
        (data_file ∷ meta_file ∷ [])
        (queue_of sent_places 9)).0 in
    (lookup meta_file q.active ≡ some (regular 2 8))
    × (lookup data_file q.active ≡ some (regular 1 8))
    × (lookup meta_file q.incoming ≡ none)
    × (lookup data_file q.incoming ≡ none)
unfolding lookup split_last data_name str_eq lmapd_workspace_action_move deliver deliver_all linkat
    link_node fstatat
arrival_example =
    arrival never (some hourly_schedule) (some first_action) (some destination) (codes "/q/h")
      meta_file data_file (regular 2 8) (regular 1 8) (data_file ∷ []) [] [] (meta_file ∷ [])
      (data_file ∷ []) [] ran_places sent_places 9 (λ t. refl) refl refl refl refl refl refl refl
      refl (λ n there. refl) (λ n there. refl) refl refl

abbrev mixed_entries : Entries
mixed_entries =
    entry (codes "old") (regular 3 8)
      (entry (codes "_kept") (regular 4 8) (entry (codes "first") (directory nil) nil))

schedule_clean-stays_example :
    (es1 : Entries) × ((lmapd_workspace_schedule_clean fifth
        (some destination)
        (codes "old" ∷ codes "_kept" ∷ codes "first" ∷ [])
        (some mixed_entries)).0
      ≡ some es1)
    × (lookup (codes "first") es1 ≡ lookup (codes "first") mixed_entries)
unfolding lookup str_eq
schedule_clean-stays_example =
    schedule_clean-stays fifth destination (codes "/q/h")
      (codes "old" ∷ codes "_kept" ∷ codes "first" ∷ []) mixed_entries (codes "first") refl refl

schedule_clean-gone_example :
    (es1 : Entries) × ((lmapd_workspace_schedule_clean never
        (some destination)
        (codes "old" ∷ codes "_kept" ∷ codes "first" ∷ [])
        (some mixed_entries)).0
      ≡ some es1)
    × (lookup (codes "old") es1 ≡ (
        if contains (codes "old" ∷ codes "_kept" ∷ codes "first" ∷ []) (codes "old")
        then none
        else lookup (codes "old") mixed_entries))
unfolding lookup str_eq
schedule_clean-gone_example =
    schedule_clean-gone never destination (codes "/q/h")
      (codes "old" ∷ codes "_kept" ∷ codes "first" ∷ []) mixed_entries (codes "old") (λ t. refl)
      refl refl

abbrev short_schedule : Schedule
short_schedule = record hourly_schedule { name = some (codes "h"); actions = [] }

init_schedule-injective_example : codes "h" ≡ codes "h"
init_schedule-injective_example =
    init_schedule-injective (λ p. made) (codes "/q") (codes "h") (codes "h") short_schedule
      short_schedule refl refl (omega arith) (omega arith) (omega arith) (omega arith, tt)
      (omega arith, tt) refl
