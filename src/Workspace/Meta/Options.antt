-- ===== src/Workspace/Meta/Options.antt =====
-- The options of a meta file: each is pending until the next one, or the end, adds it.
use mathlib.Core.Path.{subst}
use simet_lmapd.Base.{
  ◌≡◌, ◌≢◌, refl, ap, ◌∙◌, sym, false, List, [], ◌∷◌, ◌++◌, append_assoc, append-nil, Option, none,
  some, arith, All,
}
use simet_lmapd.Text.{Str, codes, str_eq, str_eq_iff, str_eq_refl}
use simet_lmapd.Model.{LmapOption}
use simet_lmapd.Data.Scalar.{set_string, set_lmap_identifier}
use simet_lmapd.Data.Task.{
  lmap_option_new, lmap_option_set_id, lmap_option_set_name, lmap_option_set_value,
}
use simet_lmapd.Data.Containers.{add_option, find_name}
use simet_lmapd.Data.Containers.Names.{IsUnique, add_unique-find_name}
use simet_lmapd.Data.Results.{Result, lmap_result_add_option}
use simet_lmapd.Workspace.Meta.{
  Reading, flush, new_option, key_of, apply_key, apply_pair, option_pairs,
}
use simet_lmapd.Workspace.Meta.Pairs.{replay, replay-cons, replay-append}

abbrev pub id_of : LmapOption → Option Str
id_of o = o.id

abbrev pub IsIdentified : List LmapOption → Type 0
IsIdentified = IsUnique id_of

-- All options but the last one, and the last.
unfoldable pub held : List LmapOption → List LmapOption × Option LmapOption
held [] = ([], none)
held (x ∷ []) = ([], some x)
held (x ∷ y ∷ ys) = let (a, b) = held (y ∷ ys) in (x ∷ a, b)

-- The state of the loop after the options.
abbrev pub holding : Result → List LmapOption → Reading
holding res xs = (record res { options = (held xs).0 }, (held xs).1)

held-snoc : (xs : List LmapOption) (o : LmapOption) → held (xs ++ o ∷ []) ≡ (xs, some o)
unfolding held
held-snoc [] o = refl
held-snoc (x ∷ []) o = refl
held-snoc (x ∷ y ∷ ys) o =
    ap (λ (r : List LmapOption × Option LmapOption). (x ∷ r.0, r.1)) (held-snoc (y ∷ ys) o)

absent-snoc :
    (xs : List LmapOption) (o : LmapOption) (key n : Str)
    → o.id ≡ some key
    → find_name id_of (xs ++ o ∷ []) n ≡ none
    → (find_name id_of xs n ≡ none) × (str_eq key n ≡ false)
unfolding find_name
absent-snoc [] o key n e f = (refl, ground arith)
absent-snoc (x ∷ xs) o key n e f =
    (ground (arith, absent-snoc xs o key n e), ground (arith, absent-snoc xs o key n e))

differ : (a b : Str) → str_eq a b ≡ false → str_eq b a ≡ false
differ a b h = ground (arith, str_eq_iff b a, str_eq_refl a)

snoc-IsUnique :
    (xs : List LmapOption) (o : LmapOption)
    → IsIdentified (xs ++ o ∷ [])
    → (key : Str) × (o.id ≡ some key) × (find_name id_of xs key ≡ none) × IsIdentified xs
unfolding find_name
snoc-IsUnique [] o (key, e, f, u) = (key, e, refl, tt)
snoc-IsUnique (x ∷ xs) o (n, named, fresh, u) =
    let (key, e, f, v) = snoc-IsUnique xs o u in
    let (absent, other) = absent-snoc xs o key n e fresh in
    (key, e, ground (arith, differ key n other), (n, named, absent, v))

flush-snoc :
    (res : Result) (xs : List LmapOption) (o : LmapOption)
    → IsIdentified (xs ++ o ∷ [])
    → flush (record res { options = xs }, some o) ≡ some (record res { options = xs ++ o ∷ [] })
unfolding flush lmap_result_add_option add_option
flush-snoc res xs o u =
    let (key, e, f, v) = snoc-IsUnique xs o u in
    rw (flush, lmap_result_add_option, add_option, add_unique-find_name id_of xs o key v e, f) refl

data View : List LmapOption → Type 0 where
  start : View []
  snoc : (xs : List LmapOption) (o : LmapOption) → View (xs ++ o ∷ [])

view-cons : (x : LmapOption) {xs : List LmapOption} → View xs → View (x ∷ xs)
view-cons x start = snoc [] x
view-cons x (snoc ys o) = snoc (x ∷ ys) o

view : (xs : List LmapOption) → View xs
view [] = start
view (x ∷ xs) = view-cons x (view xs)

flush-View :
    (res : Result) {xs : List LmapOption}
    → View xs
    → IsIdentified xs
    → flush (holding res xs) ≡ some (record res { options = xs })
unfolding held flush
flush-View res start u = refl
flush-View res (snoc ys o) u = rw (held-snoc ys o) (flush-snoc res ys o u)

-- At the next option, or at the end, the pending one joins the others.
pub flush-holding :
    (res : Result) (xs : List LmapOption)
    → IsIdentified xs
    → flush (holding res xs) ≡ some (record res { options = xs })
flush-holding res xs u = flush-View res (view xs) u

pub prefix-IsUnique : (xs ys : List LmapOption) → IsIdentified (xs ++ ys) → IsIdentified xs
prefix-IsUnique xs [] u = subst IsIdentified (append-nil xs) u
prefix-IsUnique xs (y ∷ ys) u =
    (snoc-IsUnique xs y (
      prefix-IsUnique (xs ++ y ∷ []) ys
        (subst IsIdentified (sym (append_assoc xs (y ∷ []) ys)) u))).3

-- An option has an identifier that is not empty.
abbrev pub HasId : LmapOption → Type 0
HasId o = (id : Str) × (o.id ≡ some id) × (id ≢ [])

of : Str → Option Str → Option Str → LmapOption
of id name value = record { id = some id; name = name; value = value }

rest :
    (res : Result) (id : Str) (name value : Option Str)
    → replay
        ((codes "option-name", name) ∷ (codes "option-value", value) ∷ [])
        (res, some (of id none none))
      ≡ some (res, some (of id name value))
unfolding replay apply_pair key_of apply_key lmap_option_set_name lmap_option_set_value set_string
    str_eq of
rest res id none none = refl
rest res id none (some v) = refl
rest res id (some n) none = refl
rest res id (some n) (some v) = refl

whole : (o : LmapOption) (id : Str) → o.id ≡ some id → of id o.name o.value ≡ o
unfolding of
whole o id e = ap (λ (i : Option Str). record o { id = i }) (sym e)

opened : (id : Str) → id ≢ [] → (lmap_option_set_id lmap_option_new (some id)).0 ≡ of id none none
unfolding lmap_option_set_id lmap_option_new set_lmap_identifier set_string of
opened [] ne = absurd (ne refl)
opened (c ∷ s) ne = refl

identify :
    (res : Result) (xs : List LmapOption) (id : Str)
    → IsIdentified xs
    → id ≢ []
    → apply_pair (codes "option-id") id (holding res xs)
      ≡ some (record res { options = xs }, some (of id none none))
unfolding apply_pair key_of apply_key new_option str_eq
identify res xs id u ne = rw (new_option, flush-holding res xs u, opened id ne) refl

one_option :
    (res : Result) (xs : List LmapOption) (o : LmapOption)
    → IsIdentified xs
    → HasId o
    → replay (option_pairs (o ∷ [])) (holding res xs) ≡ some (holding res (xs ++ o ∷ []))
unfolding option_pairs
one_option res xs o u (id, e, ne) =
    ap
      (λ (i : Option Str).
        replay
          ((codes "option-id", i)
            ∷ (codes "option-name", o.name)
            ∷ (codes "option-value", o.value)
            ∷ [])
          (holding res xs))
      e
    ∙ replay-cons (codes "option-id") id _ (holding res xs)
        (record res { options = xs }, some (of id none none)) (identify res xs id u ne)
    ∙ rest (record res { options = xs }) id o.name o.value
    ∙ (rw (held-snoc xs o)
        (ap (λ (x : LmapOption). some (record res { options = xs }, some x)) (whole o id e)))

-- The options are held, in their order.
pub replay-option_pairs :
    (res : Result) (xs os : List LmapOption)
    → IsIdentified (xs ++ os)
    → All HasId os
    → replay (option_pairs os) (holding res xs) ≡ some (holding res (xs ++ os))
unfolding option_pairs replay
replay-option_pairs res xs [] u h =
    ap (λ (l : List LmapOption). some (holding res l)) (sym (append-nil xs))
replay-option_pairs res xs (o ∷ os) u h =
    replay-append (option_pairs (o ∷ [])) (option_pairs os) _ _
      (one_option res xs o (prefix-IsUnique xs (o ∷ os) u) h.0)
    ∙ replay-option_pairs res (xs ++ o ∷ []) os
        (subst IsIdentified (sym (append_assoc xs (o ∷ []) os)) u) h.1
    ∙ ap (λ (l : List LmapOption). some (holding res l)) (append_assoc xs (o ∷ []) os)
