-- ===== src/Json/Settings.antt =====
-- src/json-io.c: parsing of the agent and of the suppressions.
use simet_lmapd.Base.{List, [], ◌∷◌, Option, none, some}
use simet_lmapd.Text.{Str, codes}
use simet_lmapd.Model.{Rc, done, failed, Supp, Lmap}
use simet_lmapd.Data.Containers.{lmap_add_supp}
use simet_lmapd.Data.Supp.{
  lmap_supp_new, lmap_supp_set_name, lmap_supp_set_start, lmap_supp_set_end, lmap_supp_add_match,
  lmap_supp_set_stop_running, lmap_supp_set_state,
}
use simet_lmapd.Json.{Json, object, array, Values, end, value, JsonC, What}
use simet_lmapd.Json.Lookup.{
  Entry, yang_config_true, yang_config_false, yang_key, entry_string, entry_strarray,
  entry_bool2str, foreach_field, kept,
}
use simet_lmapd.Json.Tasks.{only_field}

abbrev pub xx_lcsp_name : Supp → Str → Option (Supp × Rc)
xx_lcsp_name p s = some (lmap_supp_set_name p (some s))

abbrev pub xx_lcsp_start : Supp → Str → Option (Supp × Rc)
xx_lcsp_start p s = some (lmap_supp_set_start p (some s))

abbrev pub xx_lcsp_end : Supp → Str → Option (Supp × Rc)
xx_lcsp_end p s = some (lmap_supp_set_end p (some s))

abbrev pub xx_lcsp_match : Supp → Str → Option (Supp × Rc)
xx_lcsp_match p s = lmap_supp_add_match p s

abbrev pub xx_lcsp_stop_running : Supp → Str → Option (Supp × Rc)
xx_lcsp_stop_running p s = some (lmap_supp_set_stop_running p s)

abbrev pub xx_lcsp_state : Supp → Str → Option (Supp × Rc)
xx_lcsp_state p s = some (lmap_supp_set_state p s)

abbrev pub supp_table : List (Entry Supp)
supp_table =
    entry_string (codes "name") yang_key xx_lcsp_name
    ∷ entry_string (codes "start") yang_config_true xx_lcsp_start
    ∷ entry_string (codes "end") yang_config_true xx_lcsp_end
    ∷ entry_strarray (codes "match") yang_config_true xx_lcsp_match
    ∷ entry_bool2str (codes "stop-running") yang_config_true xx_lcsp_stop_running
    ∷ entry_string (codes "state") yang_config_false xx_lcsp_state
    ∷ []

module _ (lib : JsonC) where
  unfoldable pub parse_suppression : Json → What → Option (Option Supp)
  unfolding foreach_field
  parse_suppression (object fs) what =
      kept (foreach_field lib failed lmap_supp_new what fs supp_table)
  parse_suppression v what = some none

  -- The loop over the array. The code of `lmap_add_supp` is not looked at.
  unfoldable pub parse_supp_array : Lmap → What → Values → Option (Lmap × Rc)
  unfolding parse_suppression
  parse_supp_array lmap what end = some (lmap, done)
  parse_supp_array lmap what (value v vs) = elim (parse_suppression v what) [
    | none ↦ none
    | some none ↦ some (lmap, failed)
    | some (some p) ↦ elim (lmap_add_supp lmap p) [
      | none ↦ none
      | some (lmap1, rc) ↦ parse_supp_array lmap1 what vs
    ]
  ]

  unfoldable pub xx_lctrl_suppressions : Lmap → Json → What → Option (Lmap × Rc)
  unfolding only_field parse_supp_array
  xx_lctrl_suppressions lmap v what = elim (only_field (codes "suppression") v) [
    | some (array vs) ↦ parse_supp_array lmap what vs
    | _ ↦ some (lmap, failed)
  ]
