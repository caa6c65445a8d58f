-- ===== src/WorkerPolicy/Samples.antt =====
-- Two temporary file systems (internal/workerpolicy/temporary.go).
use sandbox_codex.Common.{
  All, List, [], codes, false, ok, pos, refl, split_on, true, ◌↔◌, ◌∷◌, ◌≡◌, ◌≤◌,
}
use sandbox_codex.WorkerPolicy.{
  TemporaryStorage, check_entries, check_entry, insert_storage, is_clean_target, normalize_storage,
  paths_overlap, sort_storage, str_lt, validate_budget, with_defaults,
}
use sandbox_codex.WorkerPolicy.Budget.{IsPositive, total_bytes, validate_budget_iff}
use sandbox_codex.WorkerPolicy.Storage.{IsDisjoint, IsProper, normalize_storage-IsDisjoint}

abbrev cache : TemporaryStorage
cache = record {
  target = codes "/tmp/x";
  max_bytes = pos 8192;
  medium = [];
  lifetime = [];
  executable = false;
}

abbrev build : TemporaryStorage
build = record cache { target = codes "/build"; medium = codes "memory"; executable = true }

abbrev normal : List TemporaryStorage
normal = with_defaults build ∷ with_defaults cache ∷ []

cache_normalizes : normalize_storage (λ vs. 200) (cache ∷ build ∷ []) ≡ ok normal
unfolding normalize_storage check_entry check_entries sort_storage insert_storage str_lt
    is_clean_target split_on paths_overlap
cache_normalizes = refl

normalize_storage-IsDisjoint_example : All IsProper normal × IsDisjoint normal
normalize_storage-IsDisjoint_example =
    normalize_storage-IsDisjoint (λ vs. 200) (cache ∷ build ∷ []) normal cache_normalizes

validate_budget_iff_example :
    (validate_budget 0 normal (pos 16384) ≡ ok tt)
    ↔ (All IsPositive normal × (total_bytes normal ≤ 16384))
validate_budget_iff_example = validate_budget_iff normal 16384
