-- ===== src/Workspace/Meta/RoundTrip.antt =====
-- What the daemon records of a run is what read_result finds.

use simet_lmapd.Base.{
  ◌≡◌, refl, ap, ◌∙◌, sym, true, List, [], ◌∷◌, ◌++◌, Option, none, some, arith, if◌then◌else◌, All,
}
use simet_lmapd.Base.Int.{ℤ, pos, negsuc, ◌≤ℤ◌}
use simet_lmapd.Text.{Str, codes}
use simet_lmapd.Text.Printing.{print_int}
use simet_lmapd.Model.{LmapOption, Tag, Task, Action, Schedule}
use simet_lmapd.Data.Scalar.{int32_max}
use simet_lmapd.Data.Results.{Result, lmap_result_new}
use simet_lmapd.Workspace.Meta.{
  Call, Reading, opened, is_never, option_pairs, tag_pairs, start_pairs, end_pairs, write_pairs,
  read_result, lmapd_workspace_action_meta_add_start, lmapd_workspace_action_meta_add_end, flush,
}
use simet_lmapd.Workspace.Meta.Reading.{read_result-flush}
use simet_lmapd.Workspace.Meta.Pairs.{
  replay, replay-append, write_pairs-append, read_pairs-write_pairs,
}
use simet_lmapd.Workspace.Meta.Options.{
  holding, IsIdentified, HasId, held, replay-option_pairs, flush-holding, prefix-IsUnique,
}
use simet_lmapd.Workspace.Meta.Tags.{merge, HasTag, replay-tag_pairs}
use simet_lmapd.Workspace.Meta.Writable.{is_writable, writable, end-is_writable}
use simet_lmapd.Workspace.Meta.Fields.{IsEpoch, HasText, names, event, start, end, status, cycle}

module _ (magic : Str) (format_utc : ℤ → Str) (schedule : Schedule) (action : Action)
    (task : Task) where
  unfoldable pub merged_tags : List Tag
  merged_tags = merge (merge (merge [] task.tags) schedule.tags) action.tags

  -- What is known of a run when it starts.
  abbrev pub started : Result
  started = record lmap_result_new {
    schedule = schedule.name;
    action = action.name;
    task = task.name;
    options = task.options ++ action.options;
    tags = merged_tags;
    event = schedule.last_invocation;
    start = action.last_invocation;
    cycle_number =
        if is_never schedule.cycle_number then none else some (format_utc schedule.cycle_number);
  }

  named : Result
  named = record lmap_result_new {
    schedule = schedule.name;
    action = action.name;
    task = task.name;
  }

  options :
      IsIdentified (task.options ++ action.options)
      → All HasId task.options
      → All HasId action.options
      → (pairs : List Call)
      → replay (option_pairs task.options ++ (option_pairs action.options ++ pairs)) (named, none)
        ≡ replay pairs (holding named (task.options ++ action.options))
  unfolding replay named held lmap_result_new
  options u p q pairs =
      replay-append (option_pairs task.options) _ (named, none) _
        (replay-option_pairs named [] task.options (prefix-IsUnique task.options action.options u)
          p)
      ∙ replay-append (option_pairs action.options) pairs _ _
          (replay-option_pairs named task.options action.options u q)

  tags :
      (res : Result) (opt : Option LmapOption)
      → res.tags ≡ []
      → All HasTag task.tags
      → All HasTag schedule.tags
      → All HasTag action.tags
      → (pairs : List Call)
      → replay
          (tag_pairs task.tags ++ (tag_pairs schedule.tags ++ (tag_pairs action.tags ++ pairs)))
          (res, opt)
        ≡ replay pairs (record res { tags = merged_tags }, opt)
  unfolding merged_tags
  tags res opt e p q r pairs =
      let (f, u) = replay-tag_pairs task.tags (record res { tags = [] }) opt tt p in
      let (g, v) =
        replay-tag_pairs schedule.tags (record res { tags = merge [] task.tags }) opt u q in
      let (h, w) =
        replay-tag_pairs action.tags
          (record res { tags = merge (merge [] task.tags) schedule.tags }) opt v r in
      ap
        (λ (l : List Tag).
          replay
            (tag_pairs task.tags ++ (tag_pairs schedule.tags ++ (tag_pairs action.tags ++ pairs)))
            (record res { tags = l }, opt))
        e
      ∙ replay-append (tag_pairs task.tags) _ _ _ f
      ∙ replay-append (tag_pairs schedule.tags) _ _ _ g
      ∙ replay-append (tag_pairs action.tags) pairs _ _ h

  -- The state behind the calls of the start of a run.
  pub replay_start :
      HasText schedule.name
      → HasText action.name
      → HasText task.name
      → IsIdentified (task.options ++ action.options)
      → All HasId task.options
      → All HasId action.options
      → All HasTag task.tags
      → All HasTag schedule.tags
      → All HasTag action.tags
      → IsEpoch schedule.last_invocation
      → IsEpoch action.last_invocation
      → replay (start_pairs magic format_utc schedule action task) (lmap_result_new, none)
        ≡ some (holding started (task.options ++ action.options))
  unfolding start_pairs named lmap_result_new
  replay_start sn an tn u p q p1 q1 r1 he hs =
      names magic schedule.name action.name task.name _ (lmap_result_new, none) sn an tn
      ∙ options u p q _
      ∙ tags (holding named all_options).0 (holding named all_options).1 refl p1 q1 r1 _
      ∙ event _ (record (holding named all_options).0 { tags = merged_tags }) _
          schedule.last_invocation he
      ∙ start _ _ _ action.last_invocation hs
      ∙ cycle format_utc schedule.cycle_number _ _ refl
    where
      all_options : List LmapOption
      all_options = task.options ++ action.options

-- Both texts together, with the options still to be added.
replay_run :
    (magic : Str) (format_utc : ℤ → Str) (schedule : Schedule) (action ended : Action) (task : Task)
    (s : Reading)
    → replay (start_pairs magic format_utc schedule action task) (lmap_result_new, none) ≡ some s
    → IsEpoch ended.last_completion
    → negsuc int32_max ≤ℤ ended.last_status
    → ended.last_status ≤ℤ pos int32_max
    → replay
        (start_pairs magic format_utc schedule action task ++ end_pairs ended)
        (lmap_result_new, none)
      ≡ some (
        record s.0 { end = ended.last_completion; status = ended.last_status; status_set = true },
        s.1,
      )
unfolding end_pairs replay
replay_run magic format_utc schedule action ended task s e h low high =
    replay-append (start_pairs magic format_utc schedule action task) (end_pairs ended)
      (lmap_result_new, none) s e
    ∙ end ((codes "status", some (print_int ended.last_status)) ∷ []) s.0 s.1 ended.last_completion
        h
    ∙ status [] (record s.0 { end = ended.last_completion }) s.1 ended.last_status low high

read_writable :
    (pairs : List Call) (s : Reading) (res : Result)
    → is_writable pairs ≡ true
    → replay pairs (lmap_result_new, none) ≡ some s
    → flush s ≡ some res
    → read_result (write_pairs pairs) ≡ some res
read_writable pairs s res w e f =
    read_result-flush (write_pairs pairs) s res
      (read_pairs-write_pairs pairs (lmap_result_new, none) s (writable pairs w) e) f

writable-append :
    (xs ys : List Call)
    → is_writable xs ≡ true
    → is_writable ys ≡ true
    → is_writable (xs ++ ys) ≡ true
writable-append [] ys p q = q
writable-append (x ∷ xs) ys p q = ground (arith, writable-append xs ys)

-- The file behind both calls, where the streams are opened.
abbrev pub run_file_text :
    Str → (ℤ → Str) → Schedule → Action → Action → Task → Option Str → Option Str
run_file_text magic format_utc schedule action ended task old =
    (lmapd_workspace_action_meta_add_end opened ended
      (lmapd_workspace_action_meta_add_start magic format_utc opened schedule action task old).0).0

-- Where the streams are opened, what is recorded of a run at its start and at its end is what `read_result`
-- returns of the file, whatever stood in it: the names, the options of the task and then of the action, the
-- tags of task, schedule and action without repetitions, the three times, the cycle number and the status.
-- The names are not empty, the options have identifiers that differ, every value that is written is not empty, has
-- neither a newline nor a NUL and does not start with a quote, no tag is missing, and the times are not negative and fit 32 bits.
pub read_result-meta :
    (magic : Str) (format_utc : ℤ → Str) (schedule : Schedule) (action ended : Action) (task : Task)
    (old : Option Str)
    → HasText schedule.name
    → HasText action.name
    → HasText task.name
    → IsIdentified (task.options ++ action.options)
    → All HasId task.options
    → All HasId action.options
    → All HasTag task.tags
    → All HasTag schedule.tags
    → All HasTag action.tags
    → is_writable (start_pairs magic format_utc schedule action task) ≡ true
    → IsEpoch schedule.last_invocation
    → IsEpoch action.last_invocation
    → IsEpoch ended.last_completion
    → negsuc int32_max ≤ℤ ended.last_status
    → ended.last_status ≤ℤ pos int32_max
    → (text : Str) × (run_file_text magic format_utc schedule action ended task old ≡ some text)
      × (read_result text
          ≡ some (record (started magic format_utc schedule action task) {
            end = ended.last_completion;
            status = ended.last_status;
            status_set = true;
          }))
unfolding lmapd_workspace_action_meta_add_start lmapd_workspace_action_meta_add_end
read_result-meta magic format_utc schedule action ended task old sn an tn u p q p1 q1 r1 w he hs hc
      low high =
    (
      write_pairs (start_pairs magic format_utc schedule action task)
          ++ write_pairs (end_pairs ended),
      refl,
      ap read_result (
            sym (
              write_pairs-append (start_pairs magic format_utc schedule action task)
                (end_pairs ended)))
          ∙ read_writable (start_pairs magic format_utc schedule action task ++ end_pairs ended) _ _
              (writable-append (start_pairs magic format_utc schedule action task) (end_pairs ended)
                w (end-is_writable ended))
              (replay_run magic format_utc schedule action ended task _
                (replay_start magic format_utc schedule action task sn an tn u p q p1 q1 r1 he hs)
                hc low high)
              (flush-holding
                (record (started magic format_utc schedule action task) {
                  end = ended.last_completion;
                  status = ended.last_status;
                  status_set = true;
                })
                (task.options ++ action.options) u),
    )
