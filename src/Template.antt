-- ===== src/Template.antt =====
-- Validate of internal/template/validate.go: the static checks on the Dockerfile of a template.
pub mod Base
pub mod Samples
use sandbox_codex.Common.{
  Bool, List, Str, [], any, codes, drop_prefix, false, grow_part, has_prefix, if◌then◌else◌,
  is_empty, is_lower, is_space, not, split_on, str_eq, trim_space, trim_suffix_byte, true, ℕ, ◌&&◌,
  ◌++◌, ◌-◌, ◌||◌, ◌∷◌,
}

-- Info, with the fields that Validate and Tag read
pub record Template : Type 0 where
  pub name : Str
  pub dockerfile : Str
  pub base_image : Str
  pub is_base : Bool

-- A check on the text of a Dockerfile.
pub record Requirement : Type 0 where
  pub description : Str
  pub check : Str → Bool

pub record Validation : Type 0 where
  pub template_name : Str
  pub passed : List Str
  pub failed : List Str

-- Info.IsDerived
abbrev pub is_derived : Template → Bool
is_derived t = not (is_empty t.base_image)

-- Info.Tag
unfoldable pub image_tag : Template → Str → Str
image_tag t custom =
    if not (is_empty custom)
    then custom
    else if t.is_base
    then codes "codex-dock:latest"
    else codes "codex-dock:" ++ t.name

abbrev pub no_strings : List Str → Bool
no_strings [] = true
no_strings (s ∷ ss) = false

-- ValidationResult.IsValid
abbrev pub is_valid_template : Validation → Bool
is_valid_template r = no_strings r.failed

-- strings.Contains, the part first
unfoldable pub contains_text : Str → Str → Bool
contains_text part [] = has_prefix part []
contains_text part (c ∷ s) = has_prefix part (c ∷ s) || contains_text part s

abbrev pub ends_field : Str → Bool
ends_field [] = true
ends_field (c ∷ s) = is_space c

-- strings.Fields on ASCII text
unfoldable pub fields : Str → List Str
fields [] = []
fields (c ∷ s) =
    let rest = fields s in
    if is_space c then rest else if ends_field s then (c ∷ []) ∷ rest else grow_part c rest

abbrev pub upper : ℕ → ℕ
upper c = if is_lower c then c - 32 else c

-- strings.ToUpper on ASCII text
abbrev pub to_upper : Str → Str
to_upper [] = []
to_upper (c ∷ s) = upper c ∷ to_upper s

-- The fields of a line, less a continuation at its end.
abbrev pub line_fields : Str → List Str
line_fields line = fields (trim_space (trim_suffix_byte 92 (trim_space line)))

-- containsAptPkg
unfoldable pub contains_apt_pkg : Str → Str → Bool
contains_apt_pkg content pkg =
    any (λ line. any (λ f. str_eq f pkg) (line_fields line)) (split_on 10 content)

abbrev pub is_other_user : Str → Bool
is_other_user user = not (str_eq user (codes "root")) && not (is_empty user)

-- The test on one line, trimmed.
abbrev pub names_user : Str → Bool
names_user trimmed =
    has_prefix (codes "USER ") (to_upper trimmed)
    && is_other_user (trim_space (drop_prefix (codes "USER ") trimmed))

unfoldable pub switches_user : Str → Bool
switches_user content = any (λ line. names_user (trim_space line)) (split_on 10 content)

unfoldable pub adds_user : Str → Bool
adds_user c = contains_text (codes "useradd") c || contains_text (codes "adduser") c

abbrev pub base_requirements : List Requirement
base_requirements =
    record {
      description = codes "installs @openai/codex (npm)";
      check = contains_text (codes "@openai/codex");
    }
    ∷ record {
      description = codes "installs @anthropic-ai/claude-code (npm)";
      check = contains_text (codes "@anthropic-ai/claude-code");
    }
    ∷ record { description = codes "installs git"; check = λ c. contains_apt_pkg c (codes "git") }
    ∷ record { description = codes "installs curl"; check = λ c. contains_apt_pkg c (codes "curl") }
    ∷ record { description = codes "creates non-root user"; check = adds_user }
    ∷ record { description = codes "switches to non-root USER"; check = switches_user }
    ∷ record {
      description = codes "copies entrypoint.sh";
      check = contains_text (codes "entrypoint.sh");
    }
    ∷ []

-- The two branches of the loop of Validate.
abbrev pub note_check : Bool → Str → Validation → Validation
note_check true d r = record r { passed = r.passed ++ d ∷ [] }
note_check false d r = record r { failed = r.failed ++ d ∷ [] }

-- The loop over the requirements.
unfoldable pub check_requirements : Str → List Requirement → Validation → Validation
check_requirements content [] r = r
check_requirements content (q ∷ qs) r =
    check_requirements content qs (note_check (q.check content) q.description r)

abbrev pub unchecked : Template → Validation
unchecked t = record { template_name = t.name; passed = []; failed = [] }

abbrev pub validate_given : Bool → Template → Validation
validate_given true t =
    note_check true (codes "FROM references codex-dock base (" ++ t.base_image ++ codes ")")
      (unchecked t)
validate_given false t = check_requirements t.dockerfile base_requirements (unchecked t)

-- Validate
unfoldable pub validate : Template → Validation
validate t = validate_given (is_derived t) t
