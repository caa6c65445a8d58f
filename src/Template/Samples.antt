-- ===== src/Template/Samples.antt =====
-- A base template, a derived one, and one whose last user is root (internal/template/validate.go).
use sandbox_codex.Common.{
  Str, [], codes, false, refl, split_on, trim_space, true, ◌++◌, ◌↔◌, ◌≡◌, ◌≢◌, ◌⊎◌,
}
use sandbox_codex.Template.{
  Template, adds_user, check_requirements, contains_apt_pkg, contains_text, fields, image_tag,
  is_valid_template, switches_user, validate,
}
use sandbox_codex.Template.Base.{IsBase, validate-IsBase}

abbrev base_text : Str
base_text =
    codes "RUN apt-get install git \\\n  curl \\\n  nodejs\n"
    ++ codes "RUN npm i @openai/codex @anthropic-ai/claude-code\nRUN useradd codex\n"
    ++ codes "COPY entrypoint.sh /\nuser codex\n"

abbrev base_template : Template
base_template = record {
  name = codes "plain";
  dockerfile = base_text;
  base_image = [];
  is_base = true;
}

abbrev derived_template : Template
derived_template = record {
  name = codes "go";
  dockerfile = [];
  base_image = codes "codex-dock:latest";
  is_base = false;
}

-- A later line that goes back to root does not matter to the checks.
abbrev root_template : Template
root_template = record base_template { dockerfile = base_text ++ codes "USER root\n" }

base_template_valid : is_valid_template (validate base_template) ≡ true
unfolding validate check_requirements contains_text contains_apt_pkg switches_user adds_user fields
    split_on trim_space
base_template_valid = refl

root_template_valid : is_valid_template (validate root_template) ≡ true
unfolding validate check_requirements contains_text contains_apt_pkg switches_user adds_user fields
    split_on trim_space
root_template_valid = refl

nothing_installed : (validate (record base_template { dockerfile = [] })).passed ≡ []
unfolding validate check_requirements contains_text contains_apt_pkg switches_user adds_user fields
    split_on trim_space
nothing_installed = refl

derived_tag : image_tag derived_template [] ≡ codes "codex-dock:go"
unfolding image_tag
derived_tag = refl

validate-IsBase_example :
    (is_valid_template (validate base_template) ≡ true)
    ↔ ((base_template.base_image ≢ []) ⊎ IsBase base_template.dockerfile)
validate-IsBase_example = validate-IsBase base_template
