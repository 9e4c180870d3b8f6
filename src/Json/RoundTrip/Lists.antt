-- ===== src/Json/RoundTrip/Lists.antt =====
-- Arrays of src/json-io.c whose elements are appended to a list of distinct names.
use simet_lmapd.Base.{
  ℕ, ◌≡◌, refl, inl, inr, Option-cases, sym, ap, ◌∙◌, false, List, [], ◌∷◌, ◌++◌, Option, none,
  some, arith, append_assoc, append-nil,
}
use simet_lmapd.Text.{Str, str_eq, str_eq_refl, str_eq_iff}
use simet_lmapd.Model.{Rc, done, Tag}
use simet_lmapd.Data.Containers.{
  duplicate, add_unique, find_name, append_tag, add_tag, put_back, lmap_tag_new, lmap_tag_set_tag,
}
use simet_lmapd.Data.Scalar.{set_tag, set_string}
use simet_lmapd.Data.Containers.Names.{IsUnique}
use simet_lmapd.Data.Containers.Tags.{IsTagSet, tag_of, new_tag}
use simet_lmapd.Json.{string, Values, end, value, JsonC}
use simet_lmapd.Json.Lookup.{each_string}
use simet_lmapd.Json.Render.{tag_values}

module _ {ℓ} {A : Type ℓ} (name : A → Option Str) where
  find_name-miss :
      (xs ys : List A) (x : A) (key n : Str)
      → name x ≡ some key
      → find_name name (xs ++ x ∷ ys) n ≡ none
      → str_eq n key ≡ false
  unfolding find_name
  find_name-miss [] ys x key n e f = ground (arith, str_eq_iff n key, str_eq_refl n)
  find_name-miss (y ∷ xs) ys x key n e f = elim (Option-cases (name y)) [
    | inl unnamed ↦ ground (arith, find_name-miss xs ys x key n e)
    | inr (m, named) ↦ ground (arith, find_name-miss xs ys x key n e)
  ]

  unique-fresh :
      (xs ys : List A) (x : A) (key : Str)
      → name x ≡ some key
      → IsUnique name (xs ++ x ∷ ys)
      → duplicate name xs key ≡ some false
  unfolding duplicate
  unique-fresh [] ys x key e u = refl
  unique-fresh (y ∷ xs) ys x key e (n, en, fn, u) =
      ground (arith, find_name-miss xs ys x key n e fn, unique-fresh xs ys x key e u)

  -- The next of a list of distinct names is appended.
  pub add_unique-next :
      (xs ys : List A) (x : A) (key : Str)
      → name x ≡ some key
      → IsUnique name (xs ++ x ∷ ys)
      → add_unique name xs x ≡ some (xs ++ x ∷ [], done)
  unfolding add_unique
  add_unique-next xs ys x key e u = ground (arith, unique-fresh xs ys x key e u)

-- Every tag has a value that is not empty.
abbrev pub AllFilled : List Tag → Type 0
AllFilled [] = Unit
AllFilled (t ∷ ts) = (c : ℕ) × (cs : Str) × (t.tag ≡ some (c ∷ cs)) × AllFilled ts

append_tag-next :
    (xs ys : List Tag) (t x : Tag) (key : Str)
    → x.tag ≡ some key
    → IsTagSet (xs ++ x ∷ ys)
    → append_tag xs t key ≡ some (xs ++ t ∷ [], done)
unfolding append_tag
append_tag-next [] ys t x key e u = refl
append_tag-next (y ∷ xs) ys t x key e (n, en, fn, u) =
    ground (arith, find_name-miss tag_of xs ys x key n e fn, append_tag-next xs ys t x key e u)

-- The next of a list of distinct tags is appended.
add_tag-next :
    (xs ys : List Tag) (x : Tag) (c : ℕ) (cs : Str)
    → x.tag ≡ some (c ∷ cs)
    → IsTagSet (xs ++ x ∷ ys)
    → add_tag xs (c ∷ cs) ≡ some (xs ++ x ∷ [], done)
unfolding add_tag lmap_tag_new lmap_tag_set_tag set_tag set_string
add_tag-next xs ys x c cs e u =
    append_tag-next xs ys (new_tag (some (c ∷ cs))) x (c ∷ cs) e u
    ∙ ap (λ s. some (xs ++ new_tag s ∷ [], done)) (sym e)

module _ (lib : JsonC) {S : Type 0} (h : S → Str → Option (S × Rc)) (put : List Tag → S) where
  -- The array that is rendered for a list of tags, read by a handler that adds each of them.
  pub tags-read :
      (adds : (ts : List Tag) (s : Str) → h (put ts) s ≡ put_back put (add_tag ts s))
      (xs ts : List Tag)
      → AllFilled ts
      → IsTagSet (xs ++ ts)
      → (vs : Values) × (tag_values ts ≡ some vs)
        × (each_string lib h (put xs) vs ≡ some (put (xs ++ ts), done))
  unfolding tag_values each_string
  tags-read adds xs [] f u = (end, refl, rw (append-nil xs) refl)
  tags-read adds xs (t ∷ ts) (c, cs, e, f) u =
      let (vs, ev, r) = tags-read adds (xs ++ t ∷ []) ts f (rw (append_assoc xs (t ∷ []) ts) u) in
      (
        value (string (c ∷ cs)) vs,
        ground (arith, ev, e),
        ground (
          arith,
          lib.text_of_string (c ∷ cs),
          adds xs (c ∷ cs),
          add_tag-next xs ts t c cs e u,
          r ∙ ap (λ l. some (put l, done)) (append_assoc xs (t ∷ []) ts),
        ),
      )
