-- ===== src/Json/RoundTrip/Suppressions.antt =====
-- `render_suppressions` and `parse_suppression` of src/json-io.c.
use simet_lmapd.Base.{
  ℕ, ◌≡◌, ◌≢◌, refl, Bool, true, false, ◌&&◌, List, [], ◌∷◌, Option, none, some, arith,
  if◌then◌else◌,
}
use simet_lmapd.Text.{Str, str_eq, codes}
use simet_lmapd.Model.{done, Supp, SuppState, Tag}
use simet_lmapd.Data.Supp.{
  lmap_supp_new, lmap_supp_set_name, lmap_supp_set_start, lmap_supp_set_end,
  lmap_supp_set_stop_running, lmap_supp_set_state,
}
use simet_lmapd.Data.Containers.Tags.{IsTagSet}
use simet_lmapd.Json.{string, boolean, array, Values, JsonC, What}
use simet_lmapd.Json.Lookup.{
  lookup_jsonmap, entry_string, entry_strarray, entry_bool2str, each_string,
}
use simet_lmapd.Json.Settings.{supp_table, xx_lcsp_match}
use simet_lmapd.Json.Render.{state_name}
use simet_lmapd.Json.RoundTrip.{TakesLeaf}
use simet_lmapd.Json.RoundTrip.Lists.{AllFilled}

abbrev pub supp_of :
    Option Str → Option Str → Option Str → List Tag → Bool → Bool → SuppState → Supp
supp_of name start end match stop set state = record {
  name = name;
  start = start;
  end = end;
  match = match;
  stop_running = stop;
  stop_running_set = set;
  state = state;
}

-- What a suppression must be for its text to name it again.
abbrev pub IsStorable : Supp → Type 0
IsStorable s =
    (c : ℕ) × (cs : Str) × (s.name ≡ some (c ∷ cs))
    × (s.start ≢ some [])
    × (s.end ≢ some [])
    × AllFilled s.match
    × IsTagSet s.match

-- What is left of a suppression behind a rendering with the flags `what`.
unfoldable pub rendered : What → Supp → Supp
rendered what s = record s {
  stop_running = s.stop_running_set && s.stop_running;
  state = if what.config_false then s.state else SuppState.enabled;
}

module _ (lib : JsonC) (what : What) (reads : what.config_true ≡ true) where
  pub leaf_name :
      (n : Option Str)
      → n ≢ some []
      → TakesLeaf lib what supp_table lmap_supp_new
          (codes "name")
          n
          (supp_of n none none [] false false SuppState.enabled)
  unfolding lookup_jsonmap entry_string str_eq lmap_supp_set_name lmap_supp_new
  leaf_name none h = refl
  leaf_name (some []) h = absurd (h refl)
  leaf_name (some (c ∷ cs)) h = ground (arith, reads, lib.text_of_string (c ∷ cs))

  pub leaf_start :
      (n s : Option Str)
      → s ≢ some []
      → TakesLeaf lib what supp_table
          (supp_of n none none [] false false SuppState.enabled)
          (codes "start")
          s
          (supp_of n s none [] false false SuppState.enabled)
  unfolding lookup_jsonmap entry_string str_eq lmap_supp_set_start
  leaf_start n none h = refl
  leaf_start n (some []) h = absurd (h refl)
  leaf_start n (some (c ∷ cs)) h = ground (arith, reads, lib.text_of_string (c ∷ cs))

  pub leaf_end :
      (n s e : Option Str)
      → e ≢ some []
      → TakesLeaf lib what supp_table
          (supp_of n s none [] false false SuppState.enabled)
          (codes "end")
          e
          (supp_of n s e [] false false SuppState.enabled)
  unfolding lookup_jsonmap entry_string str_eq lmap_supp_set_end
  leaf_end n s none h = refl
  leaf_end n s (some []) h = absurd (h refl)
  leaf_end n s (some (c ∷ cs)) h = ground (arith, reads, lib.text_of_string (c ∷ cs))

  pub match_lookup :
      (n s e : Option Str) (vs : Values)
      → lookup_jsonmap lib
          (supp_of n s e [] false false SuppState.enabled)
          what
          (codes "match")
          (array vs)
          supp_table
        ≡ each_string lib xx_lcsp_match (supp_of n s e [] false false SuppState.enabled) vs
  unfolding lookup_jsonmap entry_string entry_strarray str_eq
  match_lookup n s e vs = ground (arith, reads)

  pub stop_lookup :
      (n s e : Option Str) (ts : List Tag) (b : Bool)
      → lookup_jsonmap lib
          (supp_of n s e ts false false SuppState.enabled)
          what
          (codes "stop-running")
          (boolean b)
          supp_table
        ≡ some (supp_of n s e ts b true SuppState.enabled, done)
  unfolding lookup_jsonmap entry_string entry_strarray entry_bool2str str_eq
      lmap_supp_set_stop_running
  stop_lookup n s e ts true = ground (arith, reads, lib.text_of_boolean true)
  stop_lookup n s e ts false = ground (arith, reads, lib.text_of_boolean false)

  pub state_lookup :
      (n s e : Option Str) (ts : List Tag) (b set : Bool) (state : SuppState)
      → what.config_false ≡ true
      → lookup_jsonmap lib
          (supp_of n s e ts b set SuppState.enabled)
          what
          (codes "state")
          (string (state_name state))
          supp_table
        ≡ some (supp_of n s e ts b set state, done)
  unfolding lookup_jsonmap entry_string entry_strarray entry_bool2str str_eq lmap_supp_set_state
  state_lookup n s e ts b set SuppState.enabled f =
      ground (arith, f, lib.text_of_string (codes "enabled"))
  state_lookup n s e ts b set SuppState.disabled f =
      ground (arith, f, lib.text_of_string (codes "disabled"))
  state_lookup n s e ts b set SuppState.active f =
      ground (arith, f, lib.text_of_string (codes "active"))
