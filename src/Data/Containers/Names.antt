-- ===== src/Data/Containers/Names.antt =====
-- Lists of named objects: appending through `add_unique` and finding through `find_name`.
use simet_lmapd.Base.{
  ◌≡◌, refl, ◌∙◌, ◌⊎◌, inl, inr, Bool, true, false, List, [], ◌∷◌, ◌++◌, Option, none, some, arith,
  if◌then◌else◌, Option-cases,
}
use simet_lmapd.Text.{Str, str_eq, str_eq_refl, str_eq_iff}
use simet_lmapd.Model.{done, failed}
use simet_lmapd.Data.Containers.{duplicate, add_unique, find_name}

abbrev pub is_some {ℓ} : {A : Type ℓ} → Option A → Bool
is_some none = false
is_some (some a) = true

module _ {ℓ} {A : Type ℓ} (name : A → Option Str) where
  -- Every element has a name, and no two have the same.
  abbrev pub IsUnique : List A → Type ℓ
  IsUnique [] = Unit
  IsUnique (x ∷ xs) = (n : Str) × (name x ≡ some n) × (find_name name xs n ≡ none) × IsUnique xs

  duplicate-find_name :
      (xs : List A) (key : Str)
      → IsUnique xs
      → duplicate name xs key ≡ some (is_some (find_name name xs key))
  unfolding duplicate find_name
  duplicate-find_name [] key u = refl
  duplicate-find_name (x ∷ xs) key (n, e, f, u) = ground (arith, duplicate-find_name xs key u)

  -- An object goes to the end, unless its name is taken.
  pub add_unique-find_name :
      (xs : List A) (x : A) (key : Str)
      → IsUnique xs
      → name x ≡ some key
      → add_unique name xs x
        ≡ (if is_some (find_name name xs key) then some (xs, failed) else some (xs ++ x ∷ [], done))
  unfolding add_unique
  add_unique-find_name xs x key u e = ground (arith, duplicate-find_name xs key u)

  -- What a lookup finds after an append.
  pub find_name-append :
      (xs : List A) (x : A) (key k : Str)
      → name x ≡ some key
      → find_name name xs key ≡ none
      → find_name name (xs ++ x ∷ []) k ≡ (if str_eq key k then some x else find_name name xs k)
  unfolding find_name
  find_name-append [] x key k e f = ground arith
  find_name-append (y ∷ ys) x key k e f = elim (Option-cases (name y)) [
    | inl unnamed ↦ ground (arith, find_name-append ys x key k e)
    | inr (n, named) ↦ ground (
      arith,
      str_eq_iff n k,
      str_eq_iff n key,
      str_eq_iff key k,
      str_eq_refl k,
      find_name-append ys x key k e,
    )
  ]

  find_name-tail :
      (y : A) (ys : List A) (key : Str)
      → find_name name (y ∷ ys) key ≡ none
      → (n : Str) → name y ≡ some n
      → find_name name ys key ≡ none
  unfolding find_name
  find_name-tail y ys key f n e = ground arith

  pub append-IsUnique :
      (xs : List A) (x : A) (key : Str)
      → IsUnique xs
      → name x ≡ some key
      → find_name name xs key ≡ none
      → IsUnique (xs ++ x ∷ [])
  unfolding find_name
  append-IsUnique [] x key u e f = (key, e, refl, tt)
  append-IsUnique (y ∷ ys) x key (n, en, fn, u) e f = (
    n,
    en,
    find_name-append ys x key n e (find_name-tail y ys key f n en)
        ∙ ground (arith, str_eq_iff key n, str_eq_refl n),
    append-IsUnique ys x key u e (find_name-tail y ys key f n en),
  )

  -- The contract of the append on a list of distinct names: it always returns; it fails and changes
  -- nothing exactly if the name is taken, and otherwise the list stays distinct and the lookup of
  -- every name changes for the new one alone.
  pub AddContract : List A → A → Str → Type ℓ
  AddContract xs x key =
      ((is_some (find_name name xs key) ≡ true) × (add_unique name xs x ≡ some (xs, failed)))
      ⊎ ((ys : List A) × (find_name name xs key ≡ none)
          × (add_unique name xs x ≡ some (ys, done))
          × IsUnique ys
          × ((k : Str)
              → find_name name ys k ≡ (if str_eq key k then some x else find_name name xs k)))

  pub add_unique_contract :
      (xs : List A) (x : A) (key : Str) → IsUnique xs → name x ≡ some key → AddContract xs x key
  unfolding AddContract
  add_unique_contract xs x key u e = elim (Option-cases (find_name name xs key)) [
    | inl free ↦ inr (
      xs ++ x ∷ [],
      free,
      add_unique-find_name xs x key u e ∙ rw free refl,
      append-IsUnique xs x key u e free,
      λ k. find_name-append xs x key k e free,
    )
    | inr (y, taken) ↦ inl (rw taken refl, add_unique-find_name xs x key u e ∙ rw taken refl)
  ]
