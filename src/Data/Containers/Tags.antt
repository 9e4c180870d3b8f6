-- ===== src/Data/Containers/Tags.antt =====
-- Tag lists: what `add_tag` does with a value, the empty one included.
use simet_lmapd.Base.{
  ◌≡◌, refl, ◌∙◌, ◌≢◌, List, [], ◌∷◌, ◌++◌, Option, none, some, arith, if◌then◌else◌,
}
use simet_lmapd.Text.{Str}
use simet_lmapd.Model.{Tag, done, failed}
use simet_lmapd.Data.Containers.{append_tag, add_tag, find_name}
use simet_lmapd.Data.Containers.Names.{is_some, IsUnique}

abbrev pub tag_of : Tag → Option Str
tag_of t = t.tag

-- Every tag has a value, and no two have the same.
abbrev pub IsTagSet : List Tag → Type 0
IsTagSet = IsUnique tag_of

abbrev pub new_tag : Option Str → Tag
new_tag s = record { tag = s }

append_tag-find :
    (ts : List Tag) (t : Tag) (value : Str)
    → IsTagSet ts
    → append_tag ts t value ≡ (
        if is_some (find_name tag_of ts value)
        then some (ts, failed)
        else some (ts ++ t ∷ [], done))
unfolding append_tag find_name
append_tag-find [] t value u = refl
append_tag-find (x ∷ ts) t value (n, e, f, u) = ground (arith, append_tag-find ts t value u)

-- A value that is not empty is appended to a list of distinct tags, unless the list has it.
pub add_tag_value :
    (ts : List Tag) (value : Str)
    → IsTagSet ts
    → value ≢ []
    → add_tag ts value ≡ (
        if is_some (find_name tag_of ts value)
        then some (ts, failed)
        else some (ts ++ new_tag (some value) ∷ [], done))
unfolding add_tag
add_tag_value ts [] u h = absurd (h refl)
add_tag_value ts (c ∷ s) u h = append_tag-find ts (new_tag (some (c ∷ s))) (c ∷ s) u

append_tag-null :
    (ts : List Tag) (t : Tag) (value : Str)
    → IsTagSet ts
    → find_name tag_of ts value ≡ none
    → append_tag (ts ++ new_tag none ∷ []) t value ≡ none
unfolding append_tag find_name
append_tag-null [] t value u f = refl
append_tag-null (x ∷ ts) t value (n, e, g, u) f = ground (arith, append_tag-null ts t value u)

-- On a list of distinct tags without an empty one, `add_tag` of the empty value reports success and
-- appends a tag without a value; the next value that is not in the list is then compared with it through
-- a null pointer.
pub add_tag_empty_faults :
    (ts : List Tag) (value : Str)
    → IsTagSet ts
    → find_name tag_of ts [] ≡ none
    → find_name tag_of ts value ≡ none
    → (add_tag ts [] ≡ some (ts ++ new_tag none ∷ [], done))
      × (add_tag (ts ++ new_tag none ∷ []) value ≡ none)
unfolding add_tag
add_tag_empty_faults ts value u h f =
    (append_tag-find ts (new_tag none) [] u ∙ rw h refl, append_tag-null ts _ value u f)
