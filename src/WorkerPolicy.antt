-- ===== src/WorkerPolicy.antt =====
-- internal/workerpolicy/temporary.go: the temporary file systems that a worker may ask for.
pub mod Storage
pub mod Budget
pub mod Samples
use sandbox_codex.Common.{
  Bool, List, Result, Str, [], all, any, codes, contains_any, ensure, err, false, has_prefix,
  if◌then◌else◌, is_empty, leb, length, ltb, negsuc, not, ok, pos, split_on, str_eq, true, ℕ, ℤ,
  ◌%◌, ◌&&◌, ◌++◌, ◌+◌, ◌-◌, ◌==◌, ◌>>=◌, ◌>>◌, ◌||◌, ◌∷◌,
}

-- TemporaryStorage; an absent medium or lifetime is the empty text.
pub record TemporaryStorage : Type 0 where
  pub target : Str
  pub max_bytes : ℤ
  pub medium : Str
  pub lifetime : Str
  pub executable : Bool

pub data StorageError : Type 0 where
  too_many unclean_target other_medium bad_size protected_path overlapping : StorageError
  label_limit over_budget : StorageError

-- PathsOverlap
unfoldable pub paths_overlap : Str → Str → Bool
paths_overlap a b =
    str_eq a (codes "/")
    || (str_eq b (codes "/")
        || (str_eq a b || (has_prefix (b ++ codes "/") a || has_prefix (a ++ codes "/") b)))

abbrev plain_segment : Str → Bool
plain_segment s = not (is_empty s || (str_eq s (codes ".") || str_eq s (codes "..")))

-- path.IsAbs(p) && path.Clean(p) == p && p != "/": a slash, and behind it parts that are neither
-- empty nor "." nor "..".
unfoldable pub is_clean_target : Str → Bool
unfolding split_on
is_clean_target [] = false
is_clean_target (c ∷ s) = c == b'/' && all plain_segment (split_on b'/' s)

abbrev pub protected_paths : List Str
protected_paths =
    codes "/proc"
    ∷ codes "/sys"
    ∷ codes "/dev"
    ∷ codes "/run/codex-dock-guard"
    ∷ codes "/run/codex-dock-control"
    ∷ codes "/etc/hosts"
    ∷ codes "/etc/resolv.conf"
    ∷ codes "/etc/hostname"
    ∷ []

abbrev pub valid_size : ℤ → Bool
valid_size (pos n) = leb 4096 n && (leb n 2147483648 && n % 4096 == 0)
valid_size (negsuc n) = false

abbrev or_default : Str → Str → Str
or_default value s = if is_empty s then value else s

abbrev pub with_defaults : TemporaryStorage → TemporaryStorage
with_defaults v = record v {
  medium = or_default (codes "memory") v.medium;
  lifetime = or_default (codes "vm") v.lifetime;
}

abbrev pub has_clean_target : TemporaryStorage → Bool
has_clean_target v = is_clean_target v.target && not (contains_any (0 ∷ 13 ∷ 10 ∷ 9 ∷ []) v.target)

abbrev pub is_vm_memory : TemporaryStorage → Bool
is_vm_memory v = str_eq v.medium (codes "memory") && str_eq v.lifetime (codes "vm")

abbrev pub is_protected : TemporaryStorage → Bool
is_protected v = any (paths_overlap v.target) protected_paths

abbrev pub overlaps_one : List TemporaryStorage → TemporaryStorage → Bool
overlaps_one previous v = any (λ w. paths_overlap v.target w.target) previous

-- The tests of one entry, with its defaults, against the entries before it.
unfoldable pub check_entry :
    List TemporaryStorage → TemporaryStorage → Result StorageError (Unit {0})
check_entry previous v = do
  ensure (has_clean_target v) unclean_target
  ensure (is_vm_memory v) other_medium
  ensure (valid_size v.max_bytes) bad_size
  ensure (not (is_protected v)) protected_path
  ensure (not (overlaps_one previous v)) overlapping

-- The loop; `previous` holds the entries that have passed, the last one first.
unfoldable pub check_entries :
    List TemporaryStorage → List TemporaryStorage → Result StorageError (List TemporaryStorage)
check_entries previous [] = ok previous
check_entries previous (v ∷ vs) =
    let next = check_entries (with_defaults v ∷ previous) vs in
    check_entry previous (with_defaults v) >> next

-- `<` on strings
unfoldable pub str_lt : Str → Str → Bool
str_lt _ [] = false
str_lt [] (_ ∷ _) = true
str_lt (c ∷ s) (d ∷ t) = ltb c d || (c == d && str_lt s t)

-- sort.Slice by the target, of entries with different targets.
unfoldable pub insert_storage : TemporaryStorage → List TemporaryStorage → List TemporaryStorage
insert_storage v [] = v ∷ []
insert_storage v (w ∷ ws) =
    let rest = insert_storage v ws in if str_lt w.target v.target then w ∷ rest else v ∷ w ∷ ws

unfoldable pub sort_storage : List TemporaryStorage → List TemporaryStorage
sort_storage [] = []
sort_storage (v ∷ vs) = insert_storage v (sort_storage vs)

-- NormalizeTemporaryStorage; `encoded_length` is the length of the JSON text, 28 that of the label.
unfoldable pub normalize_storage :
    (List TemporaryStorage → ℕ)
    → List TemporaryStorage
    → Result StorageError (List TemporaryStorage)
unfolding check_entries sort_storage
normalize_storage encoded_length [] = ok []
normalize_storage encoded_length (v ∷ vs) = do
  ensure (leb (length (v ∷ vs)) 16) too_many
  checked ← check_entries [] (v ∷ vs)
  ensure (leb (encoded_length (sort_storage checked) + 28) 4096) label_limit
  ok (sort_storage checked)

-- guestMemory - total
abbrev pub minus : ℤ → ℕ → ℤ
minus (pos g) n = if leb n g then pos (g - n) else negsuc (n - g - 1)
minus (negsuc g) n = negsuc (g + n)

abbrev pub fits : ℕ → ℤ → Bool
fits n (pos r) = leb n r
fits n (negsuc r) = false

-- v.MaxBytes > 0 && v.MaxBytes <= guestMemory-total
abbrev pub budget_fits : ℤ → ℕ → ℤ → Bool
budget_fits guest total (negsuc n) = false
budget_fits guest total (pos n) = ltb 0 n && fits n (minus guest total)

abbrev pub size_of : ℤ → ℕ
size_of (pos n) = n
size_of (negsuc n) = 0

-- ValidateTemporaryBudget, with the total so far.
unfoldable pub validate_budget : ℕ → List TemporaryStorage → ℤ → Result StorageError (Unit {0})
validate_budget total [] guest = ok tt
validate_budget total (v ∷ vs) guest =
    let rest = validate_budget (total + size_of v.max_bytes) vs guest in
    if budget_fits guest total v.max_bytes then rest else err over_budget
