-- ===== src/Tests/Recording.antt =====
-- Meta files, results and the file of src/pidfile.c at concrete inputs.
use mathlib.Core.Option.{some-injective}
use mathlib.Core.Path.{subst}
use simet_lmapd.Csv.Texts.{IsText}
use simet_lmapd.Base.{
  all, ◌==◌, ◌≡◌, ◌⊎◌, refl, true, not, ◌&&◌, List, [], ◌∷◌, ◌++◌, none, some, arith, if◌then◌else◌,
  All,
}
use simet_lmapd.Base.Int.{ℤ, pos, negsuc, ltb_ℤ}
use simet_lmapd.Text.Printing.{print_number}
use simet_lmapd.Text.{Str, codes, str_eq}
use simet_lmapd.Model.{Task, Action, Schedule, Rc, done}
use simet_lmapd.Data.Containers.{find_name}
use simet_lmapd.Data.Results.{Result}
use simet_lmapd.Workspace.Meta.{start_pairs, option_pairs, tag_pairs, cycle_pairs, read_result}
use simet_lmapd.Workspace.Meta.Reading.{IsKept, read_result-IsKept}
use simet_lmapd.Workspace.Meta.RoundTrip.{run_file_text, started, read_result-meta}
use simet_lmapd.Workspace.Results.{csv, lmapd_workspace_read_results}
use simet_lmapd.Workspace.Results.Reported.{IsValid, read_results-IsValid}
use simet_lmapd.Pidfile.{lmapd_pid_read, lmapd_pid_check, lmapd_pid_write}
use simet_lmapd.Pidfile.Written.{pid_round_trip}
use simet_lmapd.Tests.Fixtures.{night, ping_task, first_action, hourly_schedule}

without_nul : (s : Str) → all (λ c. not (c == 0)) s ≡ true → IsText s
without_nul [] h = tt
without_nul (c ∷ s) h = (ground arith, without_nul s (ground arith))

read_result-IsKept_example : (res : Result) × (read_result (codes "tag;x") ≡ some res) × IsKept res
read_result-IsKept_example = read_result-IsKept (codes "tag;x") (without_nul (codes "tag;x") refl)

read_results-IsValid_example :
    (added : List Result) × (rc : Rc) × (lmapd_workspace_read_results
        (λ name. some (codes "schedule;s"))
        (λ t res. some none)
        csv
        (some (codes "1.meta" ∷ []))
        []
      ≡ some ([] ++ added, rc))
    × All IsValid added
    × ((rc ≡ done) ⊎ (added ≡ []))
read_results-IsValid_example =
    read_results-IsValid (λ name. some (codes "schedule;s")) (λ t res. some none) csv
      (some (codes "1.meta" ∷ [])) []
      (λ name content e.
        subst IsText (some-injective _ _ e) (without_nul (codes "schedule;s") refl))
      (λ t res e. absurd cc)

pid_round_trip_example :
    (lmapd_pid_read (λ i. true) (lmapd_pid_write true (pos 42) none).0 ≡ pos 42)
    × (lmapd_pid_check (λ i. true) (pos 7) (lmapd_pid_write true (pos 42) none).0
        ≡ (if not (ltb_ℤ (pos 42) (pos 7)) && not (ltb_ℤ (pos 7) (pos 42)) then pos 42 else pos 0))
pid_round_trip_example = pid_round_trip (λ i. true) 42 (pos 7) none (omega arith) (omega arith) refl

abbrev noted_task : Task
noted_task = record ping_task {
  options =
      record { id = some (codes "n"); name = some (codes "-c"); value = some (codes "a;b c") } ∷ [];
  tags = night ∷ [];
}

abbrev noted_action : Action
noted_action = record first_action {
  options = record { id = some (codes "t"); name = none; value = some (codes "host") } ∷ [];
  tags = night ∷ [];
  last_invocation = pos 4600;
}

abbrev ended_action : Action
ended_action = record noted_action { last_completion = pos 4700; last_status = negsuc 0 }

abbrev noted_schedule : Schedule
noted_schedule = record hourly_schedule { cycle_number = pos 4500; last_invocation = pos 4599 }

abbrev cycle_text : ℤ → Str
cycle_text t = codes "19700101.011500"

read_result-meta_example :
    (text : Str) × (run_file_text
        (codes "lmapd version 1.0.0")
        cycle_text
        noted_schedule
        noted_action
        ended_action
        noted_task
        none
      ≡ some text)
    × (read_result text
        ≡ some
            (record (started
              (codes "lmapd version 1.0.0")
              cycle_text
              noted_schedule
              noted_action
              noted_task) { end = pos 4700; status = negsuc 0; status_set = true }))
unfolding find_name str_eq start_pairs option_pairs tag_pairs cycle_pairs print_number
read_result-meta_example =
    read_result-meta (codes "lmapd version 1.0.0") cycle_text noted_schedule noted_action
      ended_action noted_task none (codes "hourly", refl, λ e. absurd cc)
      (codes "first", refl, λ e. absurd cc) (codes "ping", refl, λ e. absurd cc)
      (codes "n", refl, refl, (codes "t", refl, refl, tt)) ((codes "n", refl, λ e. absurd cc), tt)
      ((codes "t", refl, λ e. absurd cc), tt) ((codes "night", refl, λ e. absurd cc), tt) tt
      ((codes "night", refl, λ e. absurd cc), tt) refl (omega arith, omega arith)
      (omega arith, omega arith) (omega arith, omega arith) (omega arith) (omega arith)
