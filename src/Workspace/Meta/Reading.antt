-- ===== src/Workspace/Meta/Reading.antt =====
-- read_result ends on every text without a fault, and keeps options and tags apart.
use simet_lmapd.Base.{
  ℕ, zero, suc, ◌<◌, ◌≡◌, ◌≢◌, refl, ◌∙◌, inl, inr, true, false, List, [], ◌∷◌, ◌++◌, Option, none,
  some, arith, Option-cases, Bool-cases,
}
use simet_lmapd.Text.{Str}
use simet_lmapd.Csv.{File, csv_next_key_value}
use simet_lmapd.Csv.Progress.{measure, csv_next_key_value-measure}
use simet_lmapd.Csv.Texts.{csv_next_key_value-ne, IsText, csv_next_key_value-IsText}
use simet_lmapd.Csv.KeyValue.{csv_next_key_value-ends}
use simet_lmapd.Model.{LmapOption, Tag, Rc, done, failed}
use simet_lmapd.Data.Containers.{add_option, add_tag, add_unique, find_name}
use simet_lmapd.Data.Containers.Names.{IsUnique, add_unique-find_name, append-IsUnique}
use simet_lmapd.Data.Containers.Tags.{tag_of, new_tag, IsTagSet, add_tag_value}
use simet_lmapd.Data.Task.{lmap_option_new, lmap_option_set_id}
use simet_lmapd.Data.Results.{
  Result, lmap_result_add_option, lmap_result_add_tag, lmap_result_set_schedule,
  lmap_result_set_action, lmap_result_set_task, lmap_result_set_event_epoch,
  lmap_result_set_start_epoch, lmap_result_set_end_epoch, lmap_result_set_cycle_number,
  lmap_result_set_status, lmap_result_new,
}
use simet_lmapd.Workspace.Meta.{
  delimiter, start_of, Reading, apply_read, read_loop, read_pairs, read_result, flush, new_option,
  ignore, apply_pair, Key, option_id, tag, key_of, apply_key,
}

-- More fuel than the reads that are left changes nothing.
enough :
    (m n : ℕ) (file : File) (s : Reading)
    → measure file < m
    → measure file < n
    → read_loop m file s ≡ read_loop n file s
unfolding read_loop
enough zero n file s p q = absurd (omega arith)
enough (suc m) zero file s p q = absurd (omega arith)
enough (suc m) (suc n) file s p q = elim (Bool-cases file.eof) [
  | inl over ↦ rw (over, read_loop) refl
  | inr on ↦ elim (Option-cases (csv_next_key_value delimiter file)) [
    | inl stuck ↦ rw (on, stuck, read_loop) refl
    | inr ((k, v, file1), e) ↦
        let less = csv_next_key_value-measure delimiter file file1 k v on e in
        elim (Option-cases (apply_read k v s)) [
          | inl fault ↦ rw (on, e, fault, read_loop) refl
          | inr (s1, f) ↦
              rw (on, e, f, read_loop)
                (enough m n file1 s1 (omega (arith, less)) (omega (arith, less)))
        ]
  ]
]

next :
    (fuel : ℕ) (file file1 : File) (k v : Option Str) (s s1 : Reading)
    → file.eof ≡ false
    → csv_next_key_value delimiter file ≡ some (k, v, file1)
    → apply_read k v s ≡ some s1
    → read_loop (suc fuel) file s ≡ read_loop fuel file1 s1
unfolding read_loop
next fuel file file1 k v s s1 on e f = rw (on, e, f, read_loop) refl

-- One turn of the loop.
pub read_pairs-step :
    (file file1 : File) (k v : Option Str) (s s1 : Reading)
    → file.eof ≡ false
    → csv_next_key_value delimiter file ≡ some (k, v, file1)
    → apply_read k v s ≡ some s1
    → read_pairs file s ≡ read_pairs file1 s1
unfolding read_pairs read_loop
read_pairs-step file file1 k v s s1 on e f =
    next (measure file) file file1 k v s s1 on e f
    ∙ (enough (measure file) (suc (measure file1)) file1 s1
        (csv_next_key_value-measure delimiter file file1 k v on e) (omega arith))

pub read_pairs-end : (file : File) (s : Reading) → file.eof ≡ true → read_pairs file s ≡ some s
unfolding read_pairs read_loop
read_pairs-end file s over = rw (over, read_loop) refl

-- No two options have the same identifier, and no two tags are the same; all of them have one.
abbrev pub IsKept : Result → Type 0
IsKept res = IsUnique (λ (o : LmapOption). o.id) res.options × IsTagSet res.tags

abbrev Goes : Option Reading → Type 0
Goes r = (s : Reading) × (r ≡ some s) × IsKept s.0

add_option-kept :
    (xs : List LmapOption) (o : LmapOption)
    → IsUnique (λ (x : LmapOption). x.id) xs
    → (ys : List LmapOption) × (rc : Rc) × (add_option xs o ≡ some (ys, rc))
      × IsUnique (λ (x : LmapOption). x.id) ys
unfolding add_option add_unique
add_option-kept xs o u = elim (Option-cases o.id) [
  | inl unnamed ↦ (xs, failed, rw (unnamed, add_unique) refl, u)
  | inr (key, named) ↦ elim (Option-cases (find_name (λ (x : LmapOption). x.id) xs key)) [
    | inl free ↦ (
      xs ++ o ∷ [],
      done,
      add_unique-find_name (λ (x : LmapOption). x.id) xs o key u named ∙ rw free refl,
      append-IsUnique (λ (x : LmapOption). x.id) xs o key u named free,
    )
    | inr (t, found) ↦ (
      xs,
      failed,
      add_unique-find_name (λ (x : LmapOption). x.id) xs o key u named ∙ rw found refl,
      u,
    )
  ]
]

pub add_tag-kept :
    (xs : List Tag) (value : Str)
    → IsTagSet xs
    → value ≢ []
    → (ys : List Tag) × (rc : Rc) × (add_tag xs value ≡ some (ys, rc)) × IsTagSet ys
add_tag-kept xs value u h = elim (Option-cases (find_name tag_of xs value)) [
  | inl free ↦ (
    xs ++ new_tag (some value) ∷ [],
    done,
    add_tag_value xs value u h ∙ rw free refl,
    append-IsUnique tag_of xs (new_tag (some value)) value u refl free,
  )
  | inr (t, found) ↦ (xs, failed, add_tag_value xs value u h ∙ rw found refl, u)
]

flush-IsKept : (s : Reading) → IsKept s.0 → (res : Result) × (flush s ≡ some res) × IsKept res
unfolding flush lmap_result_add_option
flush-IsKept (res, none) k = (res, refl, k)
flush-IsKept (res, some o) (u, t) =
    let (ys, rc, e, v) = add_option-kept res.options o u in
    (record res { options = ys }, rw (flush, lmap_result_add_option, e) refl, (v, t))

new_option-IsKept : (value : Str) (s : Reading) → IsKept s.0 → Goes (new_option value s)
unfolding new_option
new_option-IsKept value s k =
    let (res, e, kept) = flush-IsKept s k in
    ((res, some (lmap_option_set_id lmap_option_new (some value)).0), rw (new_option, e) refl, kept)

add_tag-IsKept :
    (res : Result) (opt : Option LmapOption) (value : Str)
    → value ≢ []
    → IsKept res
    → Goes (ignore opt (lmap_result_add_tag res value))
unfolding lmap_result_add_tag
add_tag-IsKept res opt value h (u, t) =
    let (ys, rc, e, v) = add_tag-kept res.tags value t h in
    ((record res { tags = ys }, opt), rw e refl, (u, v))

apply_key-IsKept :
    (k : Key) (value : Str) (s : Reading) → value ≢ [] → IsKept s.0 → Goes (apply_key k value s)
unfolding apply_key lmap_result_set_schedule lmap_result_set_action lmap_result_set_task
    lmap_result_set_event_epoch lmap_result_set_start_epoch lmap_result_set_end_epoch
    lmap_result_set_cycle_number lmap_result_set_status
apply_key-IsKept option_id value s h k = new_option-IsKept value s k
apply_key-IsKept tag value (res, opt) h k = add_tag-IsKept res opt value h k
apply_key-IsKept _ value s h k = (_, refl, k)

apply_pair-IsKept :
    (key value : Str) (s : Reading) → value ≢ [] → IsKept s.0 → Goes (apply_pair key value s)
unfolding apply_pair
apply_pair-IsKept key value s h kept = elim (Option-cases (key_of key)) [
  | inl other ↦ (s, rw (apply_pair, other) refl, kept)
  | inr (k, e) ↦
      let (s1, f, kept1) = apply_key-IsKept k value s h kept in (s1, rw (apply_pair, e) f, kept1)
]

apply_read-IsKept :
    (file file1 : File) (k v : Option Str) (s : Reading)
    → IsText file.rest
    → csv_next_key_value delimiter file ≡ some (k, v, file1)
    → IsKept s.0
    → Goes (apply_read k v s)
unfolding apply_read
apply_read-IsKept file file1 none v s text e kept = (s, refl, kept)
apply_read-IsKept file file1 (some k) none s text e kept = (s, refl, kept)
apply_read-IsKept file file1 (some k) (some v) s text e kept =
    apply_pair-IsKept k v s (csv_next_key_value-ne delimiter file file1 (some k) v text e) kept

read_loop-IsKept :
    (fuel : ℕ) (file : File) (s : Reading)
    → measure file < fuel
    → IsText file.rest
    → IsKept s.0
    → Goes (read_loop fuel file s)
unfolding read_loop
read_loop-IsKept zero file s h text kept = absurd (omega arith)
read_loop-IsKept (suc fuel) file s h text kept = elim (Bool-cases file.eof) [
  | inl over ↦ (s, rw (over, read_loop) refl, kept)
  | inr on ↦
      let ((k, v, file1), e) = csv_next_key_value-ends delimiter file in
      let less = csv_next_key_value-measure delimiter file file1 k v on e in
      let (s1, f, kept1) = apply_read-IsKept file file1 k v s text e kept in
      let (s2, g, kept2) =
        read_loop-IsKept fuel file1 s1 (omega (arith, less))
          (csv_next_key_value-IsText delimiter file file1 k v text e) kept1 in
      (s2, next fuel file file1 k v s s1 on e f ∙ g, kept2)
]

pub read_result-flush :
    (content : Str) (s : Reading) (res : Result)
    → read_pairs (start_of content) (lmap_result_new, none) ≡ some s
    → flush s ≡ some res
    → read_result content ≡ some res
unfolding read_result
read_result-flush content s res e f = rw (read_result, e) f

-- Whatever the text of a meta file without NUL characters, `read_result` ends without a fault and returns a
-- result whose options have identifiers, all different, and whose tags are all different.
pub read_result-IsKept :
    (content : Str)
    → IsText content
    → (res : Result) × (read_result content ≡ some res) × IsKept res
unfolding read_pairs lmap_result_new
read_result-IsKept content text =
    let (s, e, kept) =
      read_loop-IsKept (suc (measure (start_of content))) (start_of content) (lmap_result_new, none)
        (omega arith) text (tt, tt) in
    let (res, f, kept1) = flush-IsKept s kept in (res, read_result-flush content s res e f, kept1)
