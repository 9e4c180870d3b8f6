-- ===== src/Data/Supp.antt =====
-- The setters of struct supp in src/data.c.
use simet_lmapd.Base.{false, ◌||◌, [], Option, none, if◌then◌else◌}
use simet_lmapd.Text.{Str, codes, str_eq}
use simet_lmapd.Model.{Supp, SuppState, Rc, done, failed, is_done}
use simet_lmapd.Data.Scalar.{set_lmap_identifier, set_boolean}
use simet_lmapd.Data.Containers.{add_tag, put_back}

unfoldable pub lmap_supp_new : Supp
lmap_supp_new = record {
  name = none;
  start = none;
  end = none;
  match = [];
  stop_running = false;
  stop_running_set = false;
  state = SuppState.enabled;
}

unfoldable pub lmap_supp_set_name : Supp → Option Str → Supp × Rc
unfolding set_lmap_identifier
lmap_supp_set_name supp value =
    let (v, rc) = set_lmap_identifier supp.name value in (record supp { name = v }, rc)

unfoldable pub lmap_supp_set_start : Supp → Option Str → Supp × Rc
unfolding set_lmap_identifier
lmap_supp_set_start supp value =
    let (v, rc) = set_lmap_identifier supp.start value in (record supp { start = v }, rc)

unfoldable pub lmap_supp_set_end : Supp → Option Str → Supp × Rc
unfolding set_lmap_identifier
lmap_supp_set_end supp value =
    let (v, rc) = set_lmap_identifier supp.end value in (record supp { end = v }, rc)

unfoldable pub lmap_supp_set_stop_running : Supp → Str → Supp × Rc
unfolding set_boolean
lmap_supp_set_stop_running supp value =
    let (v, rc) = set_boolean supp.stop_running value in
    (record supp { stop_running = v; stop_running_set = is_done rc || supp.stop_running_set }, rc)

unfoldable pub lmap_supp_set_state : Supp → Str → Supp × Rc
lmap_supp_set_state supp value =
    if str_eq (codes "enabled") value
    then (record supp { state = SuppState.enabled }, done)
    else if str_eq (codes "disabled") value
    then (record supp { state = SuppState.disabled }, done)
    else if str_eq (codes "active") value
    then (record supp { state = SuppState.active }, done)
    else (supp, failed)

unfoldable pub lmap_supp_add_match : Supp → Str → Option (Supp × Rc)
unfolding add_tag
lmap_supp_add_match supp value =
    put_back (λ l. record supp { match = l }) (add_tag supp.match value)
