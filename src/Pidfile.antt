-- ===== src/Pidfile.antt =====
-- src/pidfile.c: the file with the process id of the daemon. The file is the text in it, `none` where it cannot be
-- opened; `alive` says of a process id that kill(pid, 0) does not fail with ESRCH.
use simet_lmapd.Base.{
  ℕ, suc, ◌+◌, ◌-◌, ◌^◌, Bool, true, false, not, ◌&&◌, ◌||◌, List, [], ◌∷◌, ◌++◌, Option, none,
  some, ltb, if◌then◌else◌,
}
use simet_lmapd.Base.Int.{ℤ, pos, negsuc, ltb_ℤ}
use simet_lmapd.Text.{Str, skip_space, scan_sign, scan_digits, starts_digit, negated}
use simet_lmapd.Text.Printing.{print_int}
use simet_lmapd.Model.{Rc, done, failed}
use simet_lmapd.Data.Scalar.{int32_max}
use simet_lmapd.Workspace.Names.{path_max, snprintf, take}
pub mod Written

-- LMAPD_PID_FILE is chosen by the build.
unfoldable pub pid_path : Str → Str → Str
unfolding take
pid_path pid_file run_path = snprintf path_max (run_path ++ b'/' ∷ pid_file)

-- fscanf("%d"): `none` if there is no number, and for one that no int holds, which C does not define.
unfoldable pub scan_int : Str → Option ℤ
unfolding skip_space scan_sign scan_digits starts_digit
scan_int s =
    let (neg, t) = scan_sign (skip_space s) in
    let i = (if neg then negated (scan_digits 0 t).0 else pos (scan_digits 0 t).0) in
    if not (starts_digit t) || ltb_ℤ (pos int32_max) i || ltb_ℤ i (negsuc int32_max)
    then none
    else some i

abbrev pub is_positive : ℤ → Bool
is_positive i = ltb_ℤ (pos 0) i

-- A process id is an int; 0 stands for none.
module _ (alive : ℤ → Bool) where
  unfoldable pub lmapd_pid_read : Option Str → ℤ
  unfolding scan_int
  lmapd_pid_read none = pos 0
  lmapd_pid_read (some content) = elim (scan_int content) [
    | none ↦ pos 0
    | some pid ↦ if is_positive pid && alive pid then pid else pos 0
  ]

  abbrev pub same : ℤ → ℤ → Bool
  same a b = not (ltb_ℤ a b) && not (ltb_ℤ b a)

  -- `self` is getpid().
  unfoldable pub lmapd_pid_check : ℤ → Option Str → ℤ
  unfolding lmapd_pid_read
  lmapd_pid_check self file =
      let pid = lmapd_pid_read file in
      if same pid (pos 0) || not (same pid self)
      then pos 0
      else if not (alive pid)
      then pos 0
      else pid

-- The file is truncated; a write of at least two characters does not return 0.
unfoldable pub lmapd_pid_write : Bool → ℤ → Option Str → Option Str × Rc
lmapd_pid_write opens self file =
    if opens then (some (print_int self ++ b'\n' ∷ []), done) else (file, failed)

-- unlink() may be refused.
unfoldable pub lmapd_pid_remove : Bool → Option Str → Option Str × Rc
lmapd_pid_remove removes none = (none, failed)
lmapd_pid_remove removes (some content) = if removes then (none, done) else (some content, failed)
