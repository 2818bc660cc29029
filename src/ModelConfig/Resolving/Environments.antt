-- ===== src/ModelConfig/Resolving/Environments.antt =====
-- What a step of `visit` does to the roles and the models under an environment.
use mathlib.Core.Path.{sym, ap, subst, ◌∙◌}
use smart_class_agent.Common.{
  ◌≡◌, refl, String, Bool, true, false, Option, none, some, is_some, List, All, any, str_eq,
  if◌then◌else◌, ok, guard, bind-ok, err-ok, ok-injective, Bool-cases, Option-cases, ◌⊎◌, inl, inr,
}
use smart_class_agent.ModelConfig.{Role, Connection, ModelProfile, RoleBinding, same_role, get, put}
use smart_class_agent.ModelConfig.Resolving.{
  Environment, Resolution, inherited_name, adapt, adapt_if, inherit_binding, inherited_timeout,
  check_binding, settle,
}
use smart_class_agent.ModelConfig.Resolving.Bindings.{
  IsSettled, check_binding-ok, All-put, get-put_self, get-put_kept, Grows, All-IsSettled,
  get-put_new, get-put_old, get-put_other, same-any, same_get, inherited_name_same,
}

-- A state of `visit`: the roles are settled, and an adapted model is only that of a settled role.
pub record IsFine (s : Resolution) : Type 0 where
  pub settled : All (IsSettled s.models) s.roles
  pub owned :
      (q : Role)
      → is_some (get str_eq (inherited_name q) s.models) ≡ true
      → is_some (get same_role q s.roles) ≡ true

-- A visit below some roles: models and roles are added, and none of those roles is settled by it.
pub record Extends (trail : List Role) (s s' : Resolution) : Type 0 where
  pub fine : IsFine s'
  pub grows : Grows s.models s'.models
  pub kept :
      (r : Role)
      → is_some (get same_role r s.roles) ≡ true
      → is_some (get same_role r s'.roles) ≡ true
  pub locked :
      (q : Role)
      → any (same_role q) trail ≡ true
      → get same_role q s'.roles ≡ get same_role q s.roles

-- What the binding of a role that inherits does before it is settled.
pub record Adapts (role : Role) (s : Resolution) (r : RoleBinding × Resolution) : Type 0 where
  pub own : r.0.inherit ≡ none
  pub roles : r.1.roles ≡ s.roles
  pub grows : Grows s.models r.1.models
  pub owned :
      (q : Role)
      → is_some (get str_eq (inherited_name q) r.1.models) ≡ true
      → (same_role role q ≡ true) ⊎ (is_some (get str_eq (inherited_name q) s.models) ≡ true)

pub Adapts-same :
    (role : Role) (b : RoleBinding) (s : Resolution) → b.inherit ≡ none → Adapts role s (b, s)
Adapts-same role b s own = record {
  own = own;
  roles = refl;
  grows = λ n p e. e;
  owned = λ q h. inr h;
}

-- A name of an adapted model that is free is taken.
Adapts-put :
    (role : Role) (b : RoleBinding) (s : Resolution) (v : ModelProfile)
    → b.inherit ≡ none
    → get str_eq (inherited_name role) s.models ≡ none
    → Adapts role s (
      record b { model = some (inherited_name role) },
      record s { models = put str_eq (inherited_name role) v s.models },
    )
Adapts-put role b s v own free = record {
  own = own;
  roles = refl;
  grows = get-put_new (inherited_name role) v s.models free;
  owned = λ q h. elim (get-put_old (inherited_name role) (inherited_name q) v s.models h) [
    | inl e ↦ inl (inherited_name_same role q e)
    | inr e ↦ inr e
  ];
}

Adapts-if :
    (test : Bool) (role : Role) (b : RoleBinding) (s : Resolution) (v : ModelProfile)
    → b.inherit ≡ none
    → get str_eq (inherited_name role) s.models ≡ none
    → Adapts role s (
        if test
        then (
          record b { model = some (inherited_name role) },
          record s { models = put str_eq (inherited_name role) v s.models },
        )
        else (b, s))
Adapts-if true role b s v own free = Adapts-put role b s v own free
Adapts-if false role b s v own free = Adapts-same role b s own

module _ (cs : List (String × Connection)) where
  adapt-Adapts :
      (env : Environment) (role : Role) (b : RoleBinding) (s : Resolution)
      (r : RoleBinding × Resolution)
      → b.inherit ≡ none
      → get str_eq (inherited_name role) s.models ≡ none
      → adapt cs env role b s ≡ ok r
      → Adapts role s r
  unfolding adapt
  adapt-Adapts env role b s r own free h = elim (Option-cases b.model) [
    | inl missing ↦ absurd (err-ok (rw (adapt, missing) at h))
    | inr (name, is) ↦ elim (Option-cases (get str_eq name s.models)) [
      | inl unknown ↦ absurd (err-ok (rw (adapt, is, unknown) at h))
      | inr (profile, found) ↦
          let (timeout, asked, rest) =
            bind-ok (inherited_timeout env role) _ r (rw (adapt, is, found) at h) in
          subst (Adapts role s) (ok-injective rest) (Adapts-if _ role b s _ own free)
    ]
  ]

  pub inherit_binding-Adapts :
      (env : Option Environment) (role : Role) (b parent : RoleBinding) (s : Resolution)
      (r : RoleBinding × Resolution)
      → get str_eq (inherited_name role) s.models ≡ none
      → inherit_binding cs env role b parent s ≡ ok r
      → Adapts role s r
  unfolding inherit_binding adapt_if
  inherit_binding-Adapts none role b parent s r free h =
      let (u, enabled, h') = bind-ok (guard parent.enabled _) _ r h in
      let (v, there, rest) = bind-ok (guard (is_some parent.model) _) _ r h' in
      subst (Adapts role s) (ok-injective rest) (Adapts-same role _ s refl)
  inherit_binding-Adapts (some env) role b parent s r free h =
      let (u, enabled, h') = bind-ok (guard parent.enabled _) _ r h in
      let (v, there, rest) = bind-ok (guard (is_some parent.model) _) _ r h' in
      elim (Bool-cases (any (same_role role) env.file_roles)) [
        | inl explicit ↦
            subst (Adapts role s) (ok-injective (rw explicit at rest)) (Adapts-same role _ s refl)
        | inr taken ↦ adapt-Adapts env role _ s r refl free (rw taken at rest)
      ]

trail-apart :
    (role q : Role) (trail : List Role)
    → any (same_role role) trail ≡ false
    → any (same_role q) trail ≡ true
    → same_role role q ≡ false
trail-apart role q trail h k = elim (Bool-cases (same_role role q)) [
  | inl e ↦ absurd (cc (same-any role q trail e, h, k))
  | inr e ↦ e
]

-- The end of a visit for a role that is not settled, and that is none of those above it.
pub settle-Extends :
    (role : Role) (trail : List Role) (s : Resolution) (a : RoleBinding × Resolution)
    (r : RoleBinding × Resolution)
    → IsFine s
    → Adapts role s a
    → any (same_role role) trail ≡ false
    → settle role a.0 a.1 ≡ ok r
    → Extends trail s r.1 × (is_some (get same_role role r.1.roles) ≡ true)
unfolding settle
settle-Extends role trail s (b, s') r fine h apart' done =
    let (u, checked, rest) = bind-ok (check_binding role b s'.models) _ r done in
    let ended : Resolution = record s' { roles = put same_role role b s'.roles } in
    let same : Path (RoleBinding × Resolution) (b, ended) r = ok-injective rest in
    let fits = check_binding-ok role b s'.models u h.own checked in
    let there = get-put_self role b s'.roles in
    let before = All-IsSettled s.models s'.models s.roles h.grows fine.settled in
    subst
      (λ (x : RoleBinding × Resolution).
        Extends trail s x.1 × (is_some (get same_role role x.1.roles) ≡ true))
      same
      (
        record {
          fine = record {
            settled =
                All-put (IsSettled s'.models) role b s'.roles
                  (subst (All (IsSettled s'.models)) (sym h.roles) before) fits;
            owned = λ q k. elim (h.owned q k) [
              | inl own ↦ rw (same_get role q (put same_role role b s'.roles) own) there
              | inr old ↦ get-put_kept q role b s'.roles (rw h.roles (fine.owned q old))
            ];
          };
          grows = h.grows;
          kept = λ q k. get-put_kept q role b s'.roles (rw h.roles k);
          locked = λ q k.
              get-put_other role q b s'.roles (trail-apart role q trail apart' k)
              ∙ ap (get same_role q) h.roles;
        },
        there,
      )
