-- ===== src/Data/Validity/Events.antt =====
-- The conditions under which an event is valid.
use simet_lmapd.Base.{
  ◌<◌, ◌≡◌, refl, ◌≢◌, ◌↔◌, Bool, true, none, arith, Bool-cases, inl, inr, not, ◌&&◌,
}
use simet_lmapd.Base.Int.{◌≤ℤ◌, ltb_ℤ}
use simet_lmapd.Model.{Event, periodic, calendar, one_off, unset}
use simet_lmapd.Data.Validity.{
  lmap_event_valid, calendar_valid, periodic_valid, given, implies, is_unset, is_periodic,
  is_calendar, is_one_off,
}

pub record CalendarOk (e : Event) : Type 0 where
  pub months : e.months ≢ 0
  pub days_of_month : e.days_of_month ≢ 0
  pub days_of_week : e.days_of_week ≢ 0
  pub hours : e.hours ≢ 0
  pub minutes : e.minutes ≢ 0
  pub seconds : e.seconds ≢ 0

pub record EventOk (e : Event) : Type 0 where
  pub named : e.name ≢ none
  pub typed : e.type ≢ unset
  pub interval : e.type ≡ periodic → e.interval_set ≡ true
  pub spread : e.type ≡ periodic → e.random_spread_set ≡ true → e.random_spread < e.interval
  pub sets : e.type ≡ calendar → CalendarOk e
  pub time : e.type ≡ one_off → e.start_set ≡ true
  pub ordered : e.start_set ≡ true → e.end_set ≡ true → e.start ≤ℤ e.end

calendar-ok : (e : Event) → calendar_valid e ≡ true → CalendarOk e
unfolding calendar_valid
calendar-ok e h = record {
  months = ground arith;
  days_of_month = ground arith;
  days_of_week = ground arith;
  hours = ground arith;
  minutes = ground arith;
  seconds = ground arith;
}

ok-calendar : (e : Event) → CalendarOk e → calendar_valid e ≡ true
unfolding calendar_valid
ok-calendar e h = ground arith

valid_ok : (e : Event) → lmap_event_valid e ≡ true → EventOk e
unfolding lmap_event_valid
valid_ok e h = record {
  named = ground arith;
  typed = ground arith;
  interval = ground arith;
  spread = ground arith;
  sets = λ c. calendar-ok e (ground arith);
  time = ground arith;
  ordered = ground arith;
}

periodic_part : (e : Event) → EventOk e → implies (is_periodic e.type) (periodic_valid e) ≡ true
unfolding periodic_valid
periodic_part e h = elim (Bool-cases (is_periodic e.type)) [
  | inr other ↦ rw other refl
  | inl p ↦ let t : e.type ≡ periodic = ground arith in ground (arith, h.interval t, h.spread t)
]

calendar_part : (e : Event) → EventOk e → implies (is_calendar e.type) (calendar_valid e) ≡ true
calendar_part e h = elim (Bool-cases (is_calendar e.type)) [
  | inr other ↦ rw other refl
  | inl p ↦ ground (arith, ok-calendar e (h.sets (ground arith)))
]

one_off_part : (e : Event) → EventOk e → implies (is_one_off e.type) e.start_set ≡ true
one_off_part e h = elim (Bool-cases (is_one_off e.type)) [
  | inr other ↦ rw other refl
  | inl p ↦ ground (arith, h.time (ground arith))
]

order_part : (e : Event) → EventOk e → not (e.start_set && e.end_set && ltb_ℤ e.end e.start) ≡ true
order_part e h = elim (Bool-cases (e.start_set && e.end_set)) [
  | inr other ↦ ground arith
  | inl p ↦ ground (arith, h.ordered (ground arith) (ground arith))
]

and_true : {a b : Bool} → a ≡ true → b ≡ true → (a && b) ≡ true
and_true p q = rw p q

ok_valid : (e : Event) → EventOk e → lmap_event_valid e ≡ true
unfolding lmap_event_valid
ok_valid e h =
    let name_part : given e.name ≡ true = ground (arith, h.named) in
    let type_part : not (is_unset e.type) ≡ true = ground (arith, h.typed) in
    rw
      (name_part, type_part, periodic_part e h, calendar_part e h, one_off_part e h, order_part e h)
      refl

-- An event is valid exactly if it has a name and a type, a periodic one an interval above its
-- spread, a calendar one no empty set, a one-off one a time, and its end is not before its start.
pub event_valid_iff : (e : Event) → (lmap_event_valid e ≡ true) ↔ EventOk e
unfolding lmap_event_valid
event_valid_iff e = (valid_ok e, ok_valid e)
