-- ===== src/Template/Base.antt =====
-- What the Dockerfile of a valid template holds (internal/template/validate.go).
use sandbox_codex.Common.{
  &&-eq-true, Any, Bool, Bool-cases, List, Str, [], all, any-Any, ap, arith, codes, drop_prefix,
  false, has_prefix, has_prefix_iff, inl, inr, is_empty, not, refl, split_on, str_eq, str_eq_iff,
  subst, sym, trim_space, true, ℕ, ◌&&◌, ◌++◌, ◌↔◌, ◌∷◌, ◌≡◌, ◌≢◌, ◌⊎◌,
}
use sandbox_codex.Sandbox.Runtime.{base}
use sandbox_codex.Template.{
  Requirement, Template, Validation, adds_user, base_requirements, check_requirements,
  contains_apt_pkg, contains_text, is_other_user, is_valid_template, line_fields, names_user,
  no_strings, note_check, switches_user, to_upper, unchecked, validate, validate_given,
}

-- The text has the part in it.
pub Holds : Str → Str → Type 0
Holds part s = (u : Str) × (v : Str) × (s ≡ u ++ part ++ v)

prefix-Holds : (part s : Str) → has_prefix part s ≡ true → Holds part s
unfolding Holds
prefix-Holds part s e = let (r, q) = (has_prefix_iff part s).0 e in ([], r, q)

later-Holds : (part : Str) (c : ℕ) (s : Str) → Holds part s → Holds part (c ∷ s)
unfolding Holds
later-Holds part c s (u, v, q) = (c ∷ u, v, ap (λ t. c ∷ t) q)

split-Holds : (part s : Str) → contains_text part s ≡ true → Holds part s
unfolding contains_text
split-Holds part [] e = prefix-Holds part [] e
split-Holds part (c ∷ s) e = elim (Bool-cases (has_prefix part (c ∷ s))) [
  | inl starts ↦ prefix-Holds part (c ∷ s) starts
  | inr other ↦ later-Holds part c s (split-Holds part s (ground arith))
]

-- A text that starts with the part contains it.
starts-contains_text : (part s : Str) → has_prefix part s ≡ true → contains_text part s ≡ true
unfolding contains_text
starts-contains_text part [] e = e
starts-contains_text part (c ∷ s) e = ground arith

contains_text-append : (part u v : Str) → contains_text part (u ++ part ++ v) ≡ true
unfolding contains_text
contains_text-append part [] v =
    starts-contains_text part (part ++ v) ((has_prefix_iff part (part ++ v)).1 (v, refl))
contains_text-append part (c ∷ u) v = let ih = contains_text-append part u v in ground arith

pub contains_text_iff : (part s : Str) → (contains_text part s ≡ true) ↔ Holds part s
unfolding Holds
contains_text_iff part s = (
  split-Holds part s,
  (λ h. subst (λ t. contains_text part t ≡ true) (sym h.2) (contains_text-append part h.0 h.1)),
)

-- A line of the text has the field.
pub HasField : Str → Str → Type 0
HasField pkg content = Any (λ line. Any (λ f. f ≡ pkg) (line_fields line)) (split_on 10 content)

pub contains_apt_pkg_iff :
    (content pkg : Str) → (contains_apt_pkg content pkg ≡ true) ↔ HasField pkg content
unfolding contains_apt_pkg HasField
contains_apt_pkg_iff content pkg =
    any-Any _ _ (λ line. any-Any _ _ (λ f. str_eq_iff f pkg) (line_fields line))
      (split_on 10 content)

-- The line names a user after the word, and it is not root.
pub NamesUser : Str → Type 0
NamesUser line =
    (has_prefix (codes "USER ") (to_upper (trim_space line)) ≡ true)
    × (¬ (trim_space (drop_prefix (codes "USER ") (trim_space line)) ≡ codes "root"))
    × ¬ (trim_space (drop_prefix (codes "USER ") (trim_space line)) ≡ [])

is_other_user_iff : (user : Str) → (is_other_user user ≡ true) ↔ (user ≢ codes "root") × (user ≢ [])
is_other_user_iff [] = ((λ e. cc), (λ h. elim (h.1 refl) [ ]))
is_other_user_iff (c ∷ s) = elim (Bool-cases (str_eq (c ∷ s) (codes "root"))) [
  | inl same ↦ ((λ e. cc), (λ h. elim (h.0 ((str_eq_iff (c ∷ s) (codes "root")).0 same)) [ ]))
  | inr other ↦ (
    (λ e. ((λ q. not-both other ((str_eq_iff (c ∷ s) (codes "root")).1 q)), (λ q. cc))),
    (λ h. rw (other)),
  )
]
  where
    not-both : {b : Bool} → b ≡ false → b ≡ true → ⊥
    not-both h k = cc

names_user_iff : (line : Str) → (names_user (trim_space line) ≡ true) ↔ NamesUser line
unfolding NamesUser
names_user_iff line =
    let h = is_other_user_iff (trim_space (drop_prefix (codes "USER ") (trim_space line))) in
    grind (arith, h)

pub switches_user_iff :
    (content : Str) → (switches_user content ≡ true) ↔ Any NamesUser (split_on 10 content)
unfolding switches_user
switches_user_iff content = any-Any NamesUser _ names_user_iff (split_on 10 content)

-- What the checks on a base ask for.
pub record IsBase (content : Str) : Type 0 where
  pub codex : Holds (codes "@openai/codex") content
  pub claude : Holds (codes "@anthropic-ai/claude-code") content
  pub git : HasField (codes "git") content
  pub curl : HasField (codes "curl") content
  pub adds : Holds (codes "useradd") content ⊎ Holds (codes "adduser") content
  pub user : Any NamesUser (split_on 10 content)
  pub entrypoint : Holds (codes "entrypoint.sh") content

adds_user_iff :
    (content : Str)
    → (adds_user content ≡ true)
      ↔ (Holds (codes "useradd") content ⊎ Holds (codes "adduser") content)
unfolding adds_user
adds_user_iff content =
    let h = contains_text_iff (codes "useradd") content in
    let k = contains_text_iff (codes "adduser") content in grind (arith, h, k)

no_strings-append : (xs : List Str) (d : Str) → no_strings (xs ++ d ∷ []) ≡ false
no_strings-append [] d = refl
no_strings-append (x ∷ xs) d = refl

note_check_iff :
    (b : Bool) (d : Str) (r : Validation)
    → (is_valid_template (note_check b d r) ≡ true) ↔ (is_valid_template r ≡ true) × (b ≡ true)
note_check_iff true d r = ((λ e. (e, refl)), (λ h. h.0))
note_check_iff false d r = let h = no_strings-append r.failed d in ((λ e. cc), (λ k. cc))

-- The loop keeps what failed before.
check_requirements_iff :
    (content : Str) (qs : List Requirement) (r : Validation)
    → (is_valid_template (check_requirements content qs r) ≡ true)
      ↔ (is_valid_template r ≡ true) × (all (λ q. q.check content) qs ≡ true)
unfolding check_requirements
check_requirements_iff content [] r = ((λ e. (e, refl)), (λ h. h.0))
check_requirements_iff content (q ∷ qs) r =
    let h = note_check_iff (q.check content) q.description r in
    let ih = check_requirements_iff content qs (note_check (q.check content) q.description r) in
    (
      (λ e. let (v, rest) = ih.0 e in let (w, c) = h.0 v in (w, ground arith)),
      (λ k. ih.1 (
        h.1 (k.0, (&&-eq-true (q.check content) _ k.1).0),
        (&&-eq-true (q.check content) _ k.1).1,
      )),
    )

both_iff :
    (a b : Bool) {P Q : Type 0} → ((a ≡ true) ↔ P) → ((b ≡ true) ↔ Q) → (a && b ≡ true) ↔ P × Q
both_iff false b h k = ((λ e. cc), (λ pq. h.1 pq.0))
both_iff true b h k = ((λ e. (h.0 refl, k.0 e)), (λ pq. k.1 pq.1))

all_checks_iff :
    (content : Str) → (all (λ q. q.check content) base_requirements ≡ true) ↔ IsBase content
all_checks_iff content = (
  (λ e.
      let (codex, (claude, (git, (curl, (adds, (user, (entrypoint, _))))))) = all_facts.0 e in
      record {
        codex = codex;
        claude = claude;
        git = git;
        curl = curl;
        adds = adds;
        user = user;
        entrypoint = entrypoint;
      }),
  (λ h.
      all_facts.1
        (h.codex, (h.claude, (h.git, (h.curl, (h.adds, (h.user, (h.entrypoint, refl)))))))),
)
  where
    all_facts :
        (all (λ q. q.check content) base_requirements ≡ true)
        ↔ Holds (codes "@openai/codex") content
          × (Holds (codes "@anthropic-ai/claude-code") content
              × (HasField (codes "git") content
                  × (HasField (codes "curl") content
                      × ((Holds (codes "useradd") content ⊎ Holds (codes "adduser") content)
                          × (Any NamesUser (split_on 10 content)
                              × (Holds (codes "entrypoint.sh") content × (true ≡ true)))))))
    all_facts = both_iff _ _ (contains_text_iff (codes "@openai/codex") content) (
        both_iff _ _ (contains_text_iff (codes "@anthropic-ai/claude-code") content) (
          both_iff _ _ (contains_apt_pkg_iff content (codes "git")) (
            both_iff _ _ (contains_apt_pkg_iff content (codes "curl")) (
              both_iff _ _ (adds_user_iff content) (
                both_iff _ _ (switches_user_iff content) (
                  both_iff _ true {Q = true ≡ true}
                    (contains_text_iff (codes "entrypoint.sh") content) ((λ e. e), (λ e. e))))))))

own_checks_iff :
    (t : Template) → (is_valid_template (validate_given false t) ≡ true) ↔ IsBase t.dockerfile
own_checks_iff t =
    let h = check_requirements_iff t.dockerfile base_requirements (unchecked t) in
    let k = all_checks_iff t.dockerfile in ((λ e. k.0 (h.0 e).1), (λ b. h.1 (refl, k.1 b)))

-- A template is valid, exactly if it is derived from another image or its Dockerfile has each
-- thing that the checks ask of a base: both agent packages, git and curl as fields of a line, a
-- command that adds a user, a line that names a user other than root, and the entrypoint.
pub validate-IsBase :
    (t : Template)
    → (is_valid_template (validate t) ≡ true) ↔ ((t.base_image ≢ []) ⊎ IsBase t.dockerfile)
unfolding validate
validate-IsBase t = of_image t.base_image
  where
    of_image :
        (image : Str)
        → (is_valid_template (validate_given (not (is_empty image)) t) ≡ true)
          ↔ ((image ≢ []) ⊎ IsBase t.dockerfile)
    of_image [] = (
      (λ e. inr ((own_checks_iff t).0 e)),
      (λ h. elim h [
        | inl derived ↦ elim (derived refl) [ ]
        | inr base ↦ (own_checks_iff t).1 base
      ]),
    )
    of_image (c ∷ s) = ((λ e. inl (λ k. cc)), (λ h. refl))
