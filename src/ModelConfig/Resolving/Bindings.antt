-- ===== src/ModelConfig/Resolving/Bindings.antt =====
-- What a settled binding promises, and the lookups of roles and models.
use mathlib.Core.Path.{sym, ap, ◌∙◌}
use smart_class_agent.Common.{
  ℕ, ◌≡◌, refl, String, true, false, none, some, is_some, List, [], ◌∷◌, All, any, str_eq, arith,
  ok, guard, ◌==◌, bind-ok, guard-ok, Bool-cases, Option-cases, inl, inr, if◌then◌else◌, ◌⊎◌,
  eq_iff,
}
use smart_class_agent.ModelConfig.{
  Role, ModelProfile, RoleBinding, Capabilities, same_role, index, get, put, main, structured,
  structured_fast, small, memory, compression, video_vision,
}
use smart_class_agent.ModelConfig.Registry.{
  Capability, has_capability, required, has_all, validate_capabilities,
}
use smart_class_agent.ModelConfig.Resolving.{
  check_models, check_binding, model_names, is_optional, inherited_name,
}

-- A name stands for a model that has what a role requires.
pub record IsUsable (role : Role) (models : List (String × ModelProfile)) (name : String)
    : Type 0 where
  pub profile : ModelProfile
  pub found : get str_eq name models ≡ some profile
  pub capable : All (λ c. has_capability profile.capabilities c ≡ true) (required role)

-- A settled binding: it inherits no more, a disabled role is one that may be, and the model of an
-- enabled role and its fallbacks are usable for it.
pub record IsSettled (models : List (String × ModelProfile)) (item : Role × RoleBinding)
    : Type 0 where
  pub own : item.1.inherit ≡ none
  pub optional : item.1.enabled ≡ false → is_optional item.0 ≡ true
  pub usable :
      item.1.enabled ≡ true
      → (name : String) × (item.1.model ≡ some name)
        × All (IsUsable item.0 models) (name ∷ item.1.fallback)

has_all-ok :
    (role : Role) (c : Capabilities) (names : List Capability) (u : Unit {0})
    → has_all role c names ≡ ok u
    → All (λ n. has_capability c n ≡ true) names
unfolding has_all
has_all-ok role c [] u h = tt
has_all-ok role c (n ∷ names) u h =
    let (v, tested, rest) = bind-ok (guard (has_capability c n) _) _ u h in
    (guard-ok _ _ v tested, has_all-ok role c names u rest)

check_models-ok :
    (role : Role) (models : List (String × ModelProfile)) (names : List String) (u : Unit {0})
    → check_models role models names ≡ ok u
    → All (IsUsable role models) names
unfolding check_models validate_capabilities
check_models-ok role models [] u h = tt
check_models-ok role models (name ∷ names) u h = elim (Option-cases (get str_eq name models)) [
  | inl missing ↦ absurd (ground (arith, missing, h))
  | inr (profile, found) ↦
      let (v, tested, rest) =
        bind-ok (validate_capabilities role profile) (λ w. check_models role models names) u
          (rw (check_models, found) at h) in
      (
        record {
          profile = profile;
          found = found;
          capable = has_all-ok role profile.capabilities (required role) v tested;
        },
        check_models-ok role models names u rest,
      )
]

pub check_binding-ok :
    (role : Role) (b : RoleBinding) (models : List (String × ModelProfile)) (u : Unit {0})
    → b.inherit ≡ none
    → check_binding role b models ≡ ok u
    → IsSettled models (role, b)
unfolding check_binding model_names
check_binding-ok role b models u own h = record {
  own = own;
  optional = λ off. guard-ok (is_optional role) _ u (rw (check_binding, off) at h);
  usable = λ on. elim (Option-cases b.model) [
    | inl missing ↦ absurd (ground (arith, missing, on, h))
    | inr (name, found) ↦ (
      name,
      found,
      check_models-ok role models (name ∷ b.fallback) u (ground (arith, found, on, h)),
    )
  ];
}

pub All-put :
    (P : Role × RoleBinding → Type 0) (role : Role) (b : RoleBinding)
    (items : List (Role × RoleBinding))
    → All P items
    → P (role, b)
    → All P (put same_role role b items)
All-put P role b [] h p = (p, tt)
All-put P role b ((k, a) ∷ items) h p = elim (Bool-cases (same_role k role)) [
  | inl e ↦ rw e (p, h.1)
  | inr e ↦ rw e (h.0, All-put P role b items h.1 p)
]

pub same_role_refl : (r : Role) → same_role r r ≡ true
same_role_refl r = ground arith

pub get-put_self :
    (role : Role) (b : RoleBinding) (items : List (Role × RoleBinding))
    → is_some (get same_role role (put same_role role b items)) ≡ true
get-put_self role b [] = ground (arith, same_role_refl role)
get-put_self role b ((k, a) ∷ items) =
    ground (arith, same_role_refl role, get-put_self role b items)

pub apart : (a b c : ℕ) → (a == b) ≡ true → (b == c) ≡ false → (a == c) ≡ false
apart a b c e f = ground arith

pub get-put_kept :
    (r role : Role) (b : RoleBinding) (items : List (Role × RoleBinding))
    → is_some (get same_role r items) ≡ true
    → is_some (get same_role r (put same_role role b items)) ≡ true
get-put_kept r role b [] h = absurd (ground arith)
get-put_kept r role b ((k, a) ∷ items) h = elim (Bool-cases (same_role k role)) [
  | inl e ↦ elim (Bool-cases (same_role role r)) [
    | inl f ↦ rw (e, f) refl
    | inr f ↦ rw (e, f) (rw (apart (index k) (index role) (index r) e f) at h)
  ]
  | inr e ↦ elim (Bool-cases (same_role k r)) [
    | inl f ↦ rw (e, f) refl
    | inr f ↦ rw (e, f) (get-put_kept r role b items (rw f at h))
  ]
]

abbrev pub Models : Type 0
Models = List (String × ModelProfile)

abbrev pub Roles : Type 0
Roles = List (Role × RoleBinding)

-- A model that is there stays what it is.
abbrev pub Grows : Models → Models → Type 0
Grows m m' =
    (name : String) (p : ModelProfile) → get str_eq name m ≡ some p → get str_eq name m' ≡ some p

All-IsUsable :
    (role : Role) (m m' : Models) (names : List String)
    → Grows m m'
    → All (IsUsable role m) names
    → All (IsUsable role m') names
All-IsUsable role m m' [] g h = tt
All-IsUsable role m m' (n ∷ ns) g h = (
  record { profile = h.0.profile; found = g n h.0.profile h.0.found; capable = h.0.capable },
  All-IsUsable role m m' ns g h.1,
)

pub All-IsSettled :
    (m m' : Models) (roles : Roles)
    → Grows m m'
    → All (IsSettled m) roles
    → All (IsSettled m') roles
All-IsSettled m m' [] g h = tt
All-IsSettled m m' ((role, b) ∷ roles) g h = (
  record {
    own = h.0.own;
    optional = h.0.optional;
    usable = λ on.
        let (name, is, all) = h.0.usable on in
        (name, is, All-IsUsable role m m' (name ∷ b.fallback) g all);
  },
  All-IsSettled m m' roles g h.1,
)

pub get-put_new :
    (n : String) (v : ModelProfile) (m : Models)
    → get str_eq n m ≡ none
    → Grows m (put str_eq n v m)
get-put_new n v [] h = λ name p e. absurd (cc)
get-put_new n v ((k, a) ∷ m) h = λ name p e. elim (Bool-cases (str_eq k n)) [
  | inl own ↦ absurd (ground (arith, own, h))
  | inr new ↦
      let rest = get-put_new n v m (rw new at h) name p in
      elim (Bool-cases (str_eq k name)) [
        | inl here ↦ rw (new, here) (rw here at e)
        | inr there ↦ rw (new, there) (rest (rw there at e))
      ]
]

pub get-put_old :
    (n name : String) (v : ModelProfile) (m : Models)
    → is_some (get str_eq name (put str_eq n v m)) ≡ true
    → (str_eq n name ≡ true) ⊎ (is_some (get str_eq name m) ≡ true)
get-put_old n name v [] h = elim (Bool-cases (str_eq n name)) [
  | inl e ↦ inl e
  | inr e ↦ absurd (ground arith)
]
get-put_old n name v ((k, a) ∷ m) h = elim (Bool-cases (str_eq k name)) [
  | inl here ↦ inr (rw here refl)
  | inr there ↦ elim (Bool-cases (str_eq k n)) [
    | inl own ↦ elim (Bool-cases (str_eq n name)) [
      | inl e ↦ inl e
      | inr e ↦ inr (rw there (rw (own, e) at h))
    ]
    | inr new ↦ elim (get-put_old n name v m (rw (new, there) at h)) [
      | inl e ↦ inl e
      | inr e ↦ inr (rw there e)
    ]
  ]
]

pub get-put_other :
    (role q : Role) (b : RoleBinding) (items : Roles)
    → same_role role q ≡ false
    → get same_role q (put same_role role b items) ≡ get same_role q items
get-put_other role q b [] h = ground arith
get-put_other role q b ((k, a) ∷ items) h =
    ground (arith, get-put_other role q b items h, apart (index k) (index role) (index q))

pub same-any :
    (role q : Role) (trail : List Role)
    → same_role role q ≡ true
    → any (same_role q) trail ≡ any (same_role role) trail
same-any role q [] h = refl
same-any role q (t ∷ ts) h = ground (arith, same-any role q ts h)

pub same_get :
    (role q : Role) (items : Roles)
    → same_role role q ≡ true
    → get same_role q items ≡ get same_role role items
same_get role q [] h = refl
same_get role q ((k, a) ∷ items) h = ground (arith, same_get role q items h)

-- The role of a name that an adapted model takes, by its index.
abbrev index_of : String → ℕ
index_of name =
    if str_eq name "inherited-main"
    then 0
    else if str_eq name "inherited-structured"
    then 1
    else if str_eq name "inherited-structured_fast"
    then 2
    else if str_eq name "inherited-small"
    then 3
    else if str_eq name "inherited-memory"
    then 4
    else if str_eq name "inherited-compression"
    then 5
    else 6

index_of-inherited_name : (r : Role) → index_of (inherited_name r) ≡ index r
index_of-inherited_name main = refl
index_of-inherited_name structured = refl
index_of-inherited_name structured_fast = refl
index_of-inherited_name small = refl
index_of-inherited_name memory = refl
index_of-inherited_name compression = refl
index_of-inherited_name video_vision = refl

pub inherited_name_same :
    (q r : Role) → str_eq (inherited_name q) (inherited_name r) ≡ true → same_role q r ≡ true
inherited_name_same q r h =
    let same = (eq_iff (inherited_name q) (inherited_name r)).0 h in
    let at : index q ≡ index r =
      sym (index_of-inherited_name q) ∙ ap index_of same ∙ index_of-inherited_name r in
    ground (arith, at)
