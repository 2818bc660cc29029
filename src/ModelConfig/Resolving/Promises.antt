-- ===== src/ModelConfig/Resolving/Promises.antt =====
-- What a resolved configuration promises, with an environment or without.
use mathlib.Core.Path.{ap, subst, ◌∙◌}
use smart_class_agent.Common.{
  ℕ, suc, zero, ◌≡◌, refl, String, true, Option, none, is_some, List, [], ◌∷◌, All, any, str_eq,
  arith, ok, bind-ok, err-ok, ok-injective, Bool-cases, Option-cases, inl, inr,
}
use smart_class_agent.ModelConfig.{Role, Connection, RoleBinding, Configuration, same_role, get}
use smart_class_agent.ModelConfig.Resolving.{
  Environment, Resolution, inherited_name, resolve_connections, validate_models, inherit_binding,
  visit, visit_all, resolve,
}
use smart_class_agent.ModelConfig.Resolving.Bindings.{Grows, IsSettled, same_role_refl}
use smart_class_agent.ModelConfig.Resolving.Environments.{
  IsFine, Extends, Adapts-same, inherit_binding-Adapts, settle-Extends,
}

Extends-refl : (trail : List Role) (s : Resolution) → IsFine s → Extends trail s s
Extends-refl trail s g = record {
  fine = g;
  grows = λ n p e. e;
  kept = λ q k. k;
  locked = λ q k. refl;
}

-- A visit below more roles and then one below fewer.
Extends-trans :
    (role : Role) (trail : List Role) (s s' s'' : Resolution)
    → Extends (role ∷ trail) s s'
    → Extends trail s' s''
    → Extends trail s s''
Extends-trans role trail s s' s'' g h = record {
  fine = h.fine;
  grows = λ n p e. h.grows n p (g.grows n p e);
  kept = λ q k. h.kept q (g.kept q k);
  locked = λ q k. h.locked q k ∙ g.locked q (ground (arith, k));
}

-- A role that is not settled has no adapted model.
name_free :
    (role : Role) (s : Resolution)
    → IsFine s
    → get same_role role s.roles ≡ none
    → get str_eq (inherited_name role) s.models ≡ none
name_free role s g open' = elim (Option-cases (get str_eq (inherited_name role) s.models)) [
  | inl free ↦ free
  | inr (v, taken) ↦ absurd (cc (g.owned role (rw taken refl), ap is_some open'))
]

module _ (config : Configuration) (cs : List (String × Connection)) (env : Option Environment) where
  visit-Extends :
      (fuel : ℕ) (role : Role) (trail : List Role) (s : Resolution) (r : RoleBinding × Resolution)
      → IsFine s
      → visit config cs env fuel role trail s ≡ ok r
      → Extends trail s r.1 × (is_some (get same_role role r.1.roles) ≡ true)
  unfolding visit
  visit-Extends zero role trail s r g h = absurd (cc)
  visit-Extends (suc fuel) role trail s r g h = elim (Bool-cases (any (same_role role) trail)) [
    | inl cycle ↦ absurd (err-ok (rw (visit, cycle) at h))
    | inr new ↦ elim (Option-cases (get same_role role s.roles)) [
      | inr (b, done') ↦
          subst
            (λ (x : RoleBinding × Resolution).
              Extends trail s x.1 × (is_some (get same_role role x.1.roles) ≡ true))
            (ok-injective (rw (visit, new, done') at h)) (Extends-refl trail s g, rw done' refl)
      | inl open' ↦ elim (Option-cases (get same_role role config.roles)) [
        | inl missing ↦ absurd (err-ok (rw (visit, new, open', missing) at h))
        | inr (b, found) ↦ elim (Option-cases b.inherit) [
          | inl own ↦
              settle-Extends role trail s (b, s) r g (Adapts-same role b s own) new
                (rw (visit, new, open', found, own) at h)
          | inr (parent, from) ↦
              let ((p, s'), went, h') =
                bind-ok (visit config cs env fuel parent (role ∷ trail) s) _ r
                  (rw (visit, new, open', found, from) at h) in
              let (first, _) = visit-Extends fuel parent (role ∷ trail) s (p, s') g went in
              let (taken, took, last) = bind-ok (inherit_binding cs env role b p s') _ r h' in
              let still = first.locked role (ground (arith, same_role_refl role)) ∙ open' in
              let adapts =
                inherit_binding-Adapts cs env role b p s' taken (name_free role s' first.fine still)
                  took in
              let (second, there) =
                settle-Extends role trail s' taken r first.fine adapts new last in
              (Extends-trans role trail s s' r.1 first second, there)
        ]
      ]
    ]
  ]

  visit_all-Extends :
      (items : List (Role × RoleBinding)) (s s' : Resolution)
      → IsFine s
      → visit_all config cs env items s ≡ ok s'
      → Extends [] s s'
        × All (λ (item : Role × RoleBinding). is_some (get same_role item.0 s'.roles) ≡ true) items
  unfolding visit_all
  visit_all-Extends [] s s' g h = (subst (Extends [] s) (ok-injective h) (Extends-refl [] s g), tt)
  visit_all-Extends ((role, b) ∷ items) s s' g h =
      let ((p, s₁), went, rest) = bind-ok (visit config cs env 8 role [] s) _ s' h in
      let (first, there) = visit-Extends 8 role [] s (p, s₁) g went in
      let (second, others) = visit_all-Extends items s₁ s' first.fine rest in
      (
        record {
          fine = second.fine;
          grows = λ n q e. second.grows n q (first.grows n q e);
          kept = λ q k. second.kept q (first.kept q k);
          locked = λ q k. absurd (cc);
        },
        (second.kept role there, others),
      )

-- A configuration is resolved, under the environment of the process or without one, and declares no
-- model with a name that an adapted model takes (`inherited-` and a role; with one, a settled role
-- can be given another model). Then each of its roles is there; no role of the result inherits any
-- more; only the compression of contexts and the vision of videos may be disabled; the model of
-- every enabled role, and each of its fallbacks, is a model of the result that has every
-- capability which the role requires; and every model of the configuration is in the result as it
-- was.
pub resolve-IsSettled :
    (config : Configuration) (env : Option Environment) (resolved : Configuration)
    → ((role : Role) → get str_eq (inherited_name role) config.models ≡ none)
    → resolve config env ≡ ok resolved
    → All (IsSettled resolved.models) resolved.roles
      × All
          (λ (item : Role × RoleBinding). is_some (get same_role item.0 resolved.roles) ≡ true)
          config.roles
      × Grows config.models resolved.models
unfolding resolve
resolve-IsSettled config env resolved undeclared h =
    let (cs, _, h₁) = bind-ok (resolve_connections config.connections) _ resolved h in
    let (u, _, h₂) = bind-ok (validate_models cs config.models) _ resolved h₁ in
    let (s, went, h₃) = bind-ok (visit_all config cs env config.roles _) _ resolved h₂ in
    let (all, there) =
      visit_all-Extends config cs env config.roles _ s
        (record { settled = tt; owned = λ q k. absurd (cc (ap is_some (undeclared q), k)) }) went in
    subst
      (λ (x : Configuration).
        All (IsSettled x.models) x.roles
        × All (λ (item : Role × RoleBinding). is_some (get same_role item.0 x.roles) ≡ true)
            config.roles
        × Grows config.models x.models)
      (ok-injective h₃) (all.fine.settled, there, all.grows)
