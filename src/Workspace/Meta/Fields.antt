-- ===== src/Workspace/Meta/Fields.antt =====
-- The keys of a meta file other than options and tags, one at a time.

use simet_lmapd.Base.{
  ◌%◌, ◌^◌, ◌≡◌, ◌≢◌, refl, ap, true, List, [], ◌∷◌, Option, none, some, arith, if◌then◌else◌,
  Bool-cases, inl, inr,
}
use simet_lmapd.Base.Int.{ℤ, pos, negsuc, ◌≤ℤ◌}
use simet_lmapd.Text.{Str, codes, str_eq}
use simet_lmapd.Text.Printing.{print_int}
use simet_lmapd.Model.{LmapOption, done}
use simet_lmapd.Data.Scalar.{set_string, set_lmap_identifier, int32_max, uint32_max}
use simet_lmapd.Data.Scalar.Printed.{set_uint32-print_number, set_int32-print_int}
use simet_lmapd.Data.Results.{
  Result, lmap_result_set_schedule, lmap_result_set_action, lmap_result_set_task,
  lmap_result_set_event_epoch, lmap_result_set_start_epoch, lmap_result_set_end_epoch,
  lmap_result_set_cycle_number, lmap_result_set_status, set_epoch,
}
use simet_lmapd.Workspace.Meta.{
  Call, Reading, is_never, llu, key_of, apply_key, apply_pair, cycle_pairs,
}
use simet_lmapd.Workspace.Meta.Pairs.{replay, replay-cons}

-- A time that is read as it was written.
abbrev pub IsEpoch : ℤ → Type 0
IsEpoch t = (pos 0 ≤ℤ t) × (t ≤ℤ pos uint32_max)

epoch : (old t : ℤ) → IsEpoch t → set_epoch old (llu t) ≡ (t, done)
unfolding set_epoch
epoch old (negsuc n) h = absurd (omega (arith, h.0))
epoch old (pos n) h =
    rw small (rw (set_epoch, set_uint32-print_number 0 n (omega (arith, h.1))) refl)
  where
    small : n % 2 ^ 64 ≡ n
    small = omega (arith, h.1)

named :
    (magic s a t : Str) (pairs : List Call) (r : Reading)
    → s ≢ []
    → a ≢ []
    → t ≢ []
    → replay
        ((codes "magic", some magic)
          ∷ (codes "schedule", some s)
          ∷ (codes "action", some a)
          ∷ (codes "task", some t)
          ∷ pairs)
        r
      ≡ replay pairs (record r.0 { schedule = some s; action = some a; task = some t }, r.1)
unfolding replay apply_pair key_of apply_key str_eq lmap_result_set_schedule lmap_result_set_action
    lmap_result_set_task set_lmap_identifier set_string
named magic [] a t pairs r p q w = absurd (p refl)
named magic (_ ∷ _) [] t pairs r p q w = absurd (q refl)
named magic (_ ∷ _) (_ ∷ _) [] pairs r p q w = absurd (w refl)
named magic (_ ∷ _) (_ ∷ _) (_ ∷ _) pairs r p q w = refl

abbrev pub HasText : Option Str → Type 0
HasText o = (s : Str) × (o ≡ some s) × (s ≢ [])

-- The keys that name the run, behind the version of the program.
pub names :
    (magic : Str) (s a t : Option Str) (pairs : List Call) (r : Reading)
    → HasText s
    → HasText a
    → HasText t
    → replay
        ((codes "magic", some magic)
          ∷ (codes "schedule", s)
          ∷ (codes "action", a)
          ∷ (codes "task", t)
          ∷ pairs)
        r
      ≡ replay pairs (record r.0 { schedule = s; action = a; task = t }, r.1)
names magic s a t pairs r (x, e, p) (y, f, q) (z, g, w) =
    rw (e, f, g) (named magic x y z pairs r p q w)

module _ (pairs : List Call) (res : Result) (opt : Option LmapOption) where
  pub event :
      (t : ℤ)
      → IsEpoch t
      → replay ((codes "event", some (llu t)) ∷ pairs) (res, opt)
        ≡ replay pairs (record res { event = t }, opt)
  unfolding apply_pair key_of apply_key str_eq lmap_result_set_event_epoch
  event t h = replay-cons (codes "event") (llu t) pairs (res, opt) _ (rw (epoch res.event t h) refl)

  pub start :
      (t : ℤ)
      → IsEpoch t
      → replay ((codes "start", some (llu t)) ∷ pairs) (res, opt)
        ≡ replay pairs (record res { start = t }, opt)
  unfolding apply_pair key_of apply_key str_eq lmap_result_set_start_epoch
  start t h = replay-cons (codes "start") (llu t) pairs (res, opt) _ (rw (epoch res.start t h) refl)

  pub end :
      (t : ℤ)
      → IsEpoch t
      → replay ((codes "end", some (llu t)) ∷ pairs) (res, opt)
        ≡ replay pairs (record res { end = t }, opt)
  unfolding apply_pair key_of apply_key str_eq lmap_result_set_end_epoch
  end t h = replay-cons (codes "end") (llu t) pairs (res, opt) _ (rw (epoch res.end t h) refl)

  pub status :
      (i : ℤ)
      → negsuc int32_max ≤ℤ i
      → i ≤ℤ pos int32_max
      → replay ((codes "status", some (print_int i)) ∷ pairs) (res, opt)
        ≡ replay pairs (record res { status = i; status_set = true }, opt)
  unfolding apply_pair key_of apply_key str_eq lmap_result_set_status
  status i low high =
      replay-cons (codes "status") (print_int i) pairs (res, opt) _
        (rw (set_int32-print_int (pos 0) i low high) refl)

pub cycle :
    (format_utc : ℤ → Str) (t : ℤ) (res : Result) (opt : Option LmapOption)
    → res.cycle_number ≡ none
    → replay (cycle_pairs format_utc t) (res, opt)
      ≡ some (record res { cycle_number = if is_never t then none else some (format_utc t) }, opt)
unfolding cycle_pairs apply_pair key_of apply_key str_eq replay lmap_result_set_cycle_number
    set_string
cycle format_utc t res opt e = elim (Bool-cases (is_never t)) [
  | inl zero_ ↦
      rw (zero_, cycle_pairs)
        (ap (λ (c : Option Str). some (record res { cycle_number = c }, opt)) e)
  | inr other ↦ rw (other, cycle_pairs) refl
]
