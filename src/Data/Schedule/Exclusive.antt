-- ===== src/Data/Schedule/Exclusive.antt =====
-- A schedule ends by an event or after a duration, never both.
use simet_lmapd.Base.{◌≡◌, false, ◌&&◌, List, [], ◌∷◌, Option, none, arith}
use simet_lmapd.Text.{Str}
use simet_lmapd.Model.{Schedule}
use simet_lmapd.Data.Schedule.{lmap_schedule_new, lmap_schedule_set_end, lmap_schedule_set_duration}

-- What is not set has its initial value.
pub record IsExclusive (s : Schedule) : Type 0 where
  pub not_both : (s.end_set && s.duration_set) ≡ false
  pub no_end : s.end_set ≡ false → s.end ≡ none
  pub no_duration : s.duration_set ≡ false → s.duration ≡ 0

pub data Setting : Type 0 where
  end_setting : Option Str → Setting
  duration_setting : Str → Setting

pub apply : Schedule → Setting → Schedule
apply s (end_setting value) = (lmap_schedule_set_end s value).0
apply s (duration_setting value) = (lmap_schedule_set_duration s value).0

pub apply_all : Schedule → List Setting → Schedule
apply_all s [] = s
apply_all s (x ∷ xs) = apply_all (apply s x) xs

apply-IsExclusive : (s : Schedule) (x : Setting) → IsExclusive s → IsExclusive (apply s x)
unfolding apply lmap_schedule_set_end lmap_schedule_set_duration
apply-IsExclusive s (end_setting v) h = ground arith
apply-IsExclusive s (duration_setting v) h = ground arith

all-IsExclusive : (s : Schedule) (xs : List Setting) → IsExclusive s → IsExclusive (apply_all s xs)
unfolding apply_all
all-IsExclusive s [] h = h
all-IsExclusive s (x ∷ xs) h = all-IsExclusive (apply s x) xs (apply-IsExclusive s x h)

-- Whatever ends and durations a new schedule is given, in any order and whether accepted or refused,
-- it never has both an end and a duration.
pub new-IsExclusive : (xs : List Setting) → IsExclusive (apply_all lmap_schedule_new xs)
unfolding lmap_schedule_new
new-IsExclusive xs = all-IsExclusive lmap_schedule_new xs (ground arith)
