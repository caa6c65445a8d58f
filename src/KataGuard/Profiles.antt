-- ===== src/KataGuard/Profiles.antt =====
-- The resource profiles of internal/kataguard/resources.go and profile_registry.go.
use Prim.Native.Nat.{zero, suc}
pub mod Envelope
use sandbox_codex.Common.{
  Bool, List, Option, Result, Str, [], all, any, codes, ensure, false, if◌then◌else◌, is_digit,
  is_empty, is_lower, leb, length, negsuc, none, not, ok, pos, some, str_eq, true, ℕ, ℤ, ◌%◌, ◌&&◌,
  ◌*◌, ◌+◌, ◌==◌, ◌>>=◌, ◌>>◌, ◌^◌, ◌||◌, ◌∷◌,
}

-- ResourceProfile
pub record ResourceProfile : Type 0 where
  pub name : Str
  pub cpu_cores : ℤ
  pub guest_memory : ℤ
  pub host_memory : ℤ
  pub pid_limit : ℤ

abbrev pub mib : ℕ
mib = 2 ^ 20

abbrev pub guest_limit : ℕ
guest_limit = 2048 * mib

abbrev pub host_limit : ℕ
host_limit = 3072 * mib

abbrev pub compact_guest : ℕ
compact_guest = 512 * mib

-- CurrentResourceProfile
abbrev pub standard_profile : ResourceProfile
standard_profile = record {
  name = codes "standard";
  cpu_cores = pos 1;
  guest_memory = pos guest_limit;
  host_memory = pos host_limit;
  pid_limit = pos 512;
}

abbrev pub small_profile : ResourceProfile
small_profile = record {
  name = codes "small";
  cpu_cores = pos 1;
  guest_memory = pos (1024 * mib);
  host_memory = pos (2048 * mib);
  pid_limit = pos 512;
}

abbrev pub compact_profile : ResourceProfile
compact_profile = record {
  name = codes "compact";
  cpu_cores = pos 1;
  guest_memory = pos compact_guest;
  host_memory = pos (768 * mib);
  pid_limit = pos 512;
}

-- LookupResourceProfile
unfoldable pub lookup_profile : Str → Option ResourceProfile
lookup_profile name =
    if is_empty name || str_eq name (codes "standard")
    then some standard_profile
    else if str_eq name (codes "small")
    then some small_profile
    else if str_eq name (codes "compact")
    then some compact_profile
    else none

abbrev pub is_some : {A : Type 0} → Option A → Bool
is_some none = false
is_some (some a) = true

-- `lo <= z && z <= hi`
abbrev pub in_range : ℕ → ℕ → ℤ → Bool
in_range lo hi (negsuc n) = false
in_range lo hi (pos n) = leb lo n && leb n hi

abbrev pub is_multiple : ℕ → ℤ → Bool
is_multiple m (negsuc n) = suc n % m == 0
is_multiple m (pos n) = n % m == 0

-- The value of a number that is not negative.
abbrev pub natural_part : ℤ → ℕ
natural_part (negsuc n) = 0
natural_part (pos n) = n

-- `^[a-z][a-z0-9-]{0,62}$`
abbrev pub is_profile_name : Str → Bool
is_profile_name [] = false
is_profile_name (c ∷ s) =
    is_lower c && (leb (length s) 62 && all (λ b. is_lower b || (is_digit b || b == b'-')) s)

-- The bounds of a custom profile. The sum in the bound of the host memory stays within 64 bits,
-- since the guest memory is within its own bounds by then.
abbrev pub within_bounds : ResourceProfile → Bool
within_bounds p =
    in_range 1 64 p.cpu_cores
    && (in_range compact_guest guest_limit p.guest_memory
        && (is_multiple mib p.guest_memory
            && (in_range (natural_part p.guest_memory + 256 * mib) host_limit p.host_memory
                && (is_multiple mib p.host_memory && in_range 64 4096 p.pid_limit))))

pub data GuardError : Type 0 where
  bad_profile_name builtin_profile profile_bounds too_many_profiles duplicate_profile : GuardError
  bad_allocation missing_record untrusted_record unknown_profile changed_budget : GuardError
  changed_profile other_worker foreign_worker no_write : GuardError
  guard_failed : Str → GuardError

-- ValidateCustomResourceProfile
unfoldable pub validate_profile : ResourceProfile → Result GuardError (Unit {0})
validate_profile p = do
  ensure (is_profile_name p.name) bad_profile_name
  ensure (not (is_some (lookup_profile p.name))) builtin_profile
  ensure (within_bounds p) profile_bounds

-- The loop of loadResourceProfiles, with the names that it has seen.
unfoldable pub check_profiles : List Str → List ResourceProfile → Result GuardError (Unit {0})
check_profiles seen [] = ok tt
check_profiles seen (p ∷ ps) =
    let rest = check_profiles (p.name ∷ seen) ps in
    validate_profile p >> (ensure (not (any (str_eq p.name) seen)) duplicate_profile >> rest)

-- loadResourceProfiles, from the profiles that the file decodes to
unfoldable pub load_profiles : List ResourceProfile → Result GuardError (List ResourceProfile)
load_profiles ps = do ensure (leb (length ps) 32) too_many_profiles; check_profiles [] ps; ok ps

abbrev pub find_profile : Str → List ResourceProfile → Option ResourceProfile
find_profile name [] = none
find_profile name (p ∷ ps) = if str_eq p.name name then some p else find_profile name ps

abbrev pub or_custom : Str → List ResourceProfile → Option ResourceProfile → Option ResourceProfile
or_custom name profiles (some p) = some p
or_custom name profiles none = find_profile name profiles

-- Guard.resourceProfile
unfoldable pub resource_profile : List ResourceProfile → Str → Option ResourceProfile
resource_profile profiles name = or_custom name profiles (lookup_profile name)
