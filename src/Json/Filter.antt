-- ===== src/Json/Filter.antt =====
-- src/json-io.c: properties that every entry of a table keeps, kept by the walk along an object.
use simet_lmapd.Base.{
  ◌≡◌, ◌≢◌, refl, sym, ap, ◌∙◌, inl, inr, Bool, true, false, List, [], ◌∷◌, Option, none, some,
  arith, All, Option-cases, Bool-cases, if◌then◌else◌, not, ◌&&◌, ◌||◌,
}
use simet_lmapd.Text.{Str, codes, str_eq}
use simet_lmapd.Model.{Rc, done, failed, Lmap, Capability}
use simet_lmapd.Data.Containers.{
  lmap_add_supp, lmap_add_task, lmap_add_schedule, lmap_add_event, put_back,
}
use simet_lmapd.Json.{
  Json, object, array, null, boolean, double, int, string, Values, end, value, Fields, field, nil,
  JsonC, What,
}
use simet_lmapd.Json.Lookup.{
  Entry, Yang, has_type, passes, apply_entry, lookup_jsonmap, foreach_field, entry_object,
}
use simet_lmapd.Json.Tasks.{
  parse_task, parse_task_array, parse_tasks, xx_lctrl_tasks, xx_lctrlt_add_task, only_field,
  given_or,
}
use simet_lmapd.Json.Settings.{parse_suppression, parse_supp_array, xx_lctrl_suppressions}
use simet_lmapd.Json.Events.{parse_event, parse_event_array, xx_lctrl_events}
use simet_lmapd.Json.Schedules.{parse_schedule, parse_schedule_array, xx_lctrl_schedules}
use simet_lmapd.Data.Agent.{lmap_agent_new}
use simet_lmapd.Json.Document.{
  agent_table, xx_lctrl_agent, control_table, control_fields, parse_control_doc, parse_config_doc,
}
pub mod Capabilities

-- Whatever comes out has the property.
abbrev pub Yields {κ} : {S : Type 0} → (S → Type κ) → Option (S × Rc) → Type κ
Yields P none = Unit
Yields P (some (s, rc)) = P s

module _ {κ} {S : Type 0} (P : S → Type κ) where
  pub Yields-then :
      (f : S → Option (S × Rc)) (o : Option (S × Rc))
      → Yields P o
      → ((s : S) → P s → Yields P (f s))
      → Yields P (elim o as (λ x. Option (S × Rc)) [
        | none ↦ none
        | some (s, failed) ↦ some (s, failed)
        | some (s, done) ↦ f s
      ])
  Yields-then f none y k = tt
  Yields-then f (some (s, failed)) y k = y
  Yields-then f (some (s, done)) y k = k s y

  pub Yields-either :
      (b : Bool) (x y : Option (S × Rc))
      → (b ≡ true → Yields P x)
      → (b ≡ false → Yields P y)
      → Yields P (elim b as (λ z. Option (S × Rc)) [ true ↦ x | false ↦ y ])
  Yields-either true x y f g = f refl
  Yields-either false x y f g = g refl

  pub Yields-update :
      {A : Type 0} (f : A → S) (o : Option (A × Rc))
      → ((a : A) → P (f a))
      → Yields P (elim o as (λ x. Option (S × Rc)) [ none ↦ none | some (a, rc) ↦ some (f a, rc) ])
  Yields-update f none k = tt
  Yields-update f (some (a, rc)) k = k a

  pub Yields-added :
      (f : S → Option (S × Rc)) (o : Option (S × Rc))
      → Yields P o
      → ((s : S) → P s → Yields P (f s))
      → Yields P (elim o as (λ x. Option (S × Rc)) [ none ↦ none | some (s, rc) ↦ f s ])
  Yields-added f none y k = tt
  Yields-added f (some (s, rc)) y k = k s y

  pub Yields-parsed :
      {X : Type 0} (f : X → Option (S × Rc)) (s : S) (o : Option (Option X))
      → P s
      → ((x : X) → Yields P (f x))
      → Yields P (elim o as (λ x. Option (S × Rc)) [
        | none ↦ none
        | some none ↦ some (s, failed)
        | some (some x) ↦ f x
      ])
  Yields-parsed f s none p k = tt
  Yields-parsed f s (some none) p k = p
  Yields-parsed f s (some (some x)) p k = k x

  pub Yields-array :
      (f : Values → Option (S × Rc)) (s : S) (o : Option Json)
      → P s
      → ((vs : Values) → Yields P (f vs))
      → Yields P
          (elim o as (λ x. Option (S × Rc)) [ some (array vs) ↦ f vs | _ ↦ some (s, failed) ])
  Yields-array f s none p k = p
  Yields-array f s (some (array vs)) p k = k vs
  Yields-array f s (some null) p k = p
  Yields-array f s (some (boolean b)) p k = p
  Yields-array f s (some (double d)) p k = p
  Yields-array f s (some (int n)) p k = p
  Yields-array f s (some (object fs)) p k = p
  Yields-array f s (some (string t)) p k = p

  pub Yields-put_back :
      {A : Type 0} (f : List A → S) (o : Option (List A × Rc))
      → ((xs : List A) → P (f xs))
      → Yields P (put_back f o)
  Yields-put_back f none k = tt
  Yields-put_back f (some (xs, rc)) k = k xs

module _ {κ} (lib : JsonC) {S : Type 0} (P : S → Type κ) (what : What) where
  -- An entry that the filter passes keeps the property.
  abbrev pub Keeps : Entry S → Type κ
  Keeps e = passes what e ≡ true → (s : S) (v : Json) → P s → Yields P (apply_entry lib s what v e)

  pub object-Keeps :
      (name : Str) (yang : Yang) (h : S → Json → What → Option (S × Rc))
      → ((s : S) (v : Json) → P s → Yields P (h s v what))
      → Keeps (entry_object name yang h)
  unfolding apply_entry entry_object
  object-Keeps name yang h k pass s (array vs) p = k s (array vs) p
  object-Keeps name yang h k pass s null p = k s null p
  object-Keeps name yang h k pass s (boolean b) p = k s (boolean b) p
  object-Keeps name yang h k pass s (double d) p = k s (double d) p
  object-Keeps name yang h k pass s (int n) p = k s (int n) p
  object-Keeps name yang h k pass s (object fs) p = k s (object fs) p
  object-Keeps name yang h k pass s (string t) p = k s (string t) p

  pub lookup-Yields :
      (table : List (Entry S)) (s : S) (key : Str) (v : Json)
      → All Keeps table
      → P s
      → Yields P (lookup_jsonmap lib s what key v table)
  unfolding lookup_jsonmap
  lookup-Yields [] s key v k p = p
  lookup-Yields (e ∷ es) s key v (ke, k) p =
      Yields-either P (str_eq key e.name) _ _
        (λ a.
          Yields-either P (has_type e v) _ _
            (λ b. Yields-either P (passes what e) _ _ (λ c. ke c s v p) (λ c. p)) (λ b. p))
        (λ a. lookup-Yields es s key v k p)

  pub foreach-Yields :
      (table : List (Entry S)) (res : Rc) (s : S) (fs : Fields)
      → All Keeps table
      → P s
      → Yields P (foreach_field lib res s what fs table)
  unfolding foreach_field
  foreach-Yields table res s nil k p = p
  foreach-Yields table res s (field key v fs) k p =
      Yields-then P (λ s1. foreach_field lib done s1 what fs table)
        (lookup_jsonmap lib s what key v table) (lookup-Yields table s key v k p)
        (λ s1 p1. foreach-Yields table done s1 fs k p1)
