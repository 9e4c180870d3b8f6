-- ===== src/Workspace/Meta/Tags.antt =====
-- The tags of a meta file: a tag that stands there twice is kept once.
use mathlib.Core.Path.{subst}
use simet_lmapd.Base.{
  ◌≡◌, ◌≢◌, refl, ap, ◌∙◌, sym, List, [], ◌∷◌, ◌++◌, Option, some, if◌then◌else◌, All, Bool-cases,
  inl, inr,
}
use simet_lmapd.Text.{Str, codes, str_eq}
use simet_lmapd.Model.{LmapOption, Tag, Rc, done, failed}
use simet_lmapd.Data.Containers.{add_tag, find_name}
use simet_lmapd.Data.Containers.Names.{is_some}
use simet_lmapd.Data.Containers.Tags.{tag_of, new_tag, IsTagSet, add_tag_value}
use simet_lmapd.Data.Results.{Result, lmap_result_add_tag}
use simet_lmapd.Workspace.Names.{text}
use simet_lmapd.Workspace.Meta.{key_of, apply_key, apply_pair, tag_pairs}
use simet_lmapd.Workspace.Meta.Pairs.{replay, replay-cons}
use simet_lmapd.Workspace.Meta.Reading.{add_tag-kept}

-- The tags of the second list that the first one does not have are added to it, in their order.
unfoldable pub add_new : List Tag → Str → List Tag
add_new acc value =
    if is_some (find_name tag_of acc value) then acc else acc ++ new_tag (some value) ∷ []

unfoldable pub merge : List Tag → List Tag → List Tag
merge acc [] = acc
merge acc (t ∷ ts) = merge (add_new acc (text t.tag)) ts

abbrev pub HasTag : Tag → Type 0
HasTag t = (value : Str) × (t.tag ≡ some value) × (value ≢ [])

add_tag-new :
    (acc : List Tag) (value : Str)
    → IsTagSet acc
    → value ≢ []
    → (rc : Rc) × (add_tag acc value ≡ some (add_new acc value, rc))
unfolding add_new
add_tag-new acc value u h = elim (Bool-cases (is_some (find_name tag_of acc value))) [
  | inl found ↦ (failed, add_tag_value acc value u h ∙ rw (add_new, found) refl)
  | inr free ↦ (done, add_tag_value acc value u h ∙ rw (add_new, free) refl)
]

new-IsTagSet :
    (acc : List Tag) (value : Str) → IsTagSet acc → value ≢ [] → IsTagSet (add_new acc value)
new-IsTagSet acc value u h =
    let (rc, e) = add_tag-new acc value u h in
    let (ys, rc1, f, v) = add_tag-kept acc value u h in
    subst IsTagSet (same ys (add_new acc value) rc1 rc (sym f ∙ e)) v
  where
    same :
        (a b : List Tag) (r s : Rc)
        → ◌≡◌ {A = Option (List Tag × Rc)} (some (a, r)) (some (b, s))
        → a ≡ b
    same a b r s e = cc

one_tag :
    (res : Result) (opt : Option LmapOption) (value : Str)
    → IsTagSet res.tags
    → value ≢ []
    → apply_pair (codes "tag") value (res, opt)
      ≡ some (record res { tags = add_new res.tags value }, opt)
unfolding apply_pair key_of apply_key lmap_result_add_tag str_eq
one_tag res opt value u h = let (rc, e) = add_tag-new res.tags value u h in rw e refl

pub replay-tag_pairs :
    (ts : List Tag) (res : Result) (opt : Option LmapOption)
    → IsTagSet res.tags
    → All HasTag ts
    → (replay (tag_pairs ts) (res, opt) ≡ some (record res { tags = merge res.tags ts }, opt))
      × IsTagSet (merge res.tags ts)
unfolding tag_pairs replay merge
replay-tag_pairs [] res opt u h = (refl, u)
replay-tag_pairs (t ∷ ts) res opt u ((value, e, ne), h) =
    let (f, v) =
      replay-tag_pairs ts (record res { tags = add_new res.tags value }) opt
        (new-IsTagSet res.tags value u ne) h in
    (
      ap (λ (i : Option Str). replay ((codes "tag", i) ∷ tag_pairs ts) (res, opt)) e
          ∙ replay-cons (codes "tag") value (tag_pairs ts) (res, opt)
              (record res { tags = add_new res.tags value }, opt) (one_tag res opt value u ne)
          ∙ f
          ∙ ap
              (λ (i : Option Str).
                some (record res { tags = merge (add_new res.tags (text i)) ts }, opt))
              (sym e),
      subst (λ (i : Option Str). IsTagSet (merge (add_new res.tags (text i)) ts)) (sym e) v,
    )
