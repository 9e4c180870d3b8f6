-- ===== src/Data/Validity/References.antt =====
-- What a valid configuration guarantees to the event loop.
use simet_lmapd.Base.{
  ◌≡◌, refl, ◌≢◌, ◌⊎◌, inl, inr, true, List, [], ◌∷◌, Option, none, some, all, All, arith,
}
use simet_lmapd.Text.{Str}
use simet_lmapd.Model.{Tag, Action, Schedule, Lmap}
use simet_lmapd.Data.Containers.{lmap_find_event, lmap_find_task, lmap_find_schedule}
use simet_lmapd.Data.Validity.{
  given, refers, found, lmap_valid, lmap_schedule_valid, lmap_action_valid,
}

abbrev pub Named : Option Str → Type 0
Named o = (n : Str) × (o ≡ some n)

-- A reference resolves: it is set, and the lookup finds something.
abbrev pub Resolves {ℓ} : {A : Type ℓ} → (Str → Option A) → Option Str → Type ℓ
Resolves find o = (n : Str) × (o ≡ some n) × (find n ≢ none)

pub record ActionRefs (lmap : Lmap) (a : Action) : Type 0 where
  pub named : Named a.name
  pub task : Resolves (lmap_find_task lmap) a.task
  pub destinations : All (λ t. Resolves (lmap_find_schedule lmap) t.tag) a.destinations

pub record ScheduleRefs (lmap : Lmap) (s : Schedule) : Type 0 where
  pub named : Named s.name
  pub start : Resolves (lmap_find_event lmap) s.start
  pub end : (s.end ≡ none) ⊎ Resolves (lmap_find_event lmap) s.end
  pub actions : All (ActionRefs lmap) s.actions

found-Resolves {ℓ} :
    {A : Type ℓ} (find : Str → Option A) (o : Option Str) → found find o ≡ true → Resolves find o
found-Resolves find none h = cc
found-Resolves find (some n) h = (n, refl, λ e. ground (arith, e))

destinations-refs :
    (lmap : Lmap) (ts : List Tag)
    → all (λ t. found (lmap_find_schedule lmap) t.tag) ts ≡ true
    → All (λ t. Resolves (lmap_find_schedule lmap) t.tag) ts
destinations-refs lmap [] h = tt
destinations-refs lmap (t ∷ ts) h = (
  found-Resolves (lmap_find_schedule lmap) t.tag (ground arith),
  destinations-refs lmap ts (ground arith),
)

given-Named : (o : Option Str) → given o ≡ true → Named o
given-Named none h = cc
given-Named (some n) h = (n, refl)

given-found {ℓ} :
    {A : Type ℓ} (find : Str → Option A) (o : Option Str)
    → given o ≡ true
    → refers find o ≡ true
    → found find o ≡ true
given-found find none h r = h
given-found find (some n) h r = r

refers-Resolves {ℓ} :
    {A : Type ℓ} (find : Str → Option A) (o : Option Str)
    → refers find o ≡ true
    → (o ≡ none) ⊎ Resolves find o
refers-Resolves find none h = inl refl
refers-Resolves find (some n) h = inr (n, refl, λ e. ground (arith, e))

action-refs : (lmap : Lmap) (a : Action) → lmap_action_valid lmap a ≡ true → ActionRefs lmap a
unfolding lmap_action_valid
action-refs lmap a h = record {
  named = given-Named a.name (ground arith);
  task =
      found-Resolves (lmap_find_task lmap) a.task
        (given-found (lmap_find_task lmap) a.task (ground arith) (ground arith));
  destinations = destinations-refs lmap a.destinations (ground arith);
}

actions-refs :
    (lmap : Lmap) (as_ : List Action)
    → all (lmap_action_valid lmap) as_ ≡ true
    → All (ActionRefs lmap) as_
actions-refs lmap [] h = tt
actions-refs lmap (a ∷ as_) h =
    (action-refs lmap a (ground arith), actions-refs lmap as_ (ground arith))

schedule-refs :
    (lmap : Lmap) (s : Schedule) → lmap_schedule_valid lmap s ≡ true → ScheduleRefs lmap s
unfolding lmap_schedule_valid
schedule-refs lmap s h = record {
  named = given-Named s.name (ground arith);
  start =
      found-Resolves (lmap_find_event lmap) s.start
        (given-found (lmap_find_event lmap) s.start (ground arith) (ground arith));
  end = refers-Resolves (lmap_find_event lmap) s.end (ground arith);
  actions = actions-refs lmap s.actions (ground arith);
}

schedules-refs :
    (lmap : Lmap) (ss : List Schedule)
    → all (lmap_schedule_valid lmap) ss ≡ true
    → All (ScheduleRefs lmap) ss
schedules-refs lmap [] h = tt
schedules-refs lmap (s ∷ ss) h =
    (schedule-refs lmap s (ground arith), schedules-refs lmap ss (ground arith))

-- In a valid configuration every schedule has a name and a start event that exists, an end event
-- exists if one is named, and every action has a name, a task and destinations that exist.
pub valid-refs : (lmap : Lmap) → lmap_valid lmap ≡ true → All (ScheduleRefs lmap) lmap.schedules
unfolding lmap_valid
valid-refs lmap h = schedules-refs lmap lmap.schedules (ground arith)
