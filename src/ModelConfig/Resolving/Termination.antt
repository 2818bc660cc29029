-- ===== src/ModelConfig/Resolving/Termination.antt =====
-- The inheritance of the roles is followed to its end: no chain is deeper than there are roles.
use mathlib.Core.Bool.{true≢false}
use mathlib.Core.List.{Memᴰ}
use mathlib.Core.Path.{sym, ap, ◌∙◌}
use smart_class_agent.Common.{
  ℕ, zero, suc, ◌<◌, ◌≡◌, ◌≢◌, refl, String, Bool, true, false, not, Option, none, some, List, [],
  ◌∷◌, any, count, str_eq, arith, Result, ok, err, ◌>>=◌, guard, Bool-cases, Option-cases, inl, inr,
}
use smart_class_agent.Common.Rows.{count-lt}
use smart_class_agent.ModelConfig.{
  Role, main, structured, structured_fast, small, memory, compression, video_vision, Connection,
  Capabilities, ModelProfile, RoleBinding, Configuration, ConfigError, out_of_fuel, same_role, get,
}
use smart_class_agent.ModelConfig.Registry.{
  resolve_connection, validate_capabilities, validate_parameters, has_all, Capability,
}
use smart_class_agent.ModelConfig.Resolving.{
  Environment, Resolution, resolve_connections, validate_model, validate_models, timeout_of,
  or_timeout, inherited_timeout, check_models, check_binding, model_names, adapt, adapt_if,
  inherit_binding, settle, visit, visit_all, resolve,
}

abbrev is_out : ConfigError → Bool
is_out out_of_fuel = true
is_out _ = false

abbrev starves {ℓ} : {A : Type ℓ} → Result ConfigError A → Bool
starves (ok a) = false
starves (err e) = is_out e

starves-bind {ℓ κ} :
    {A : Type ℓ} {B : Type κ} (m : Result ConfigError A) (f : A → Result ConfigError B)
    → starves m ≡ false
    → ((a : A) → starves (f a) ≡ false)
    → starves (m >>= f) ≡ false
starves-bind (ok a) f h k = k a
starves-bind (err e) f h k = h

starves-guard : (b : Bool) (e : ConfigError) → is_out e ≡ false → starves (guard b e) ≡ false
starves-guard true e h = refl
starves-guard false e h = h

resolve_connection-fed : (c : Connection) → starves (resolve_connection c) ≡ false
unfolding resolve_connection
resolve_connection-fed c = ground arith

resolve_connections-fed :
    (cs : List (String × Connection)) → starves (resolve_connections cs) ≡ false
unfolding resolve_connections
resolve_connections-fed [] = refl
resolve_connections-fed ((name, c) ∷ cs) =
    ground (arith, resolve_connection-fed c, resolve_connections-fed cs)

validate_parameters-fed :
    (m : ModelProfile) (c : Connection) → starves (validate_parameters m c) ≡ false
unfolding validate_parameters
validate_parameters-fed m c = ground arith

validate_model-fed :
    (connections : List (String × Connection)) (m : ModelProfile)
    → starves (validate_model connections m) ≡ false
unfolding validate_model
validate_model-fed connections m = elim (Option-cases (get str_eq m.connection connections)) [
  | inl missing ↦ rw (validate_model, missing) refl
  | inr (c, found) ↦ rw (validate_model, found) (validate_parameters-fed m c)
]

validate_models-fed :
    (connections : List (String × Connection)) (models : List (String × ModelProfile))
    → starves (validate_models connections models) ≡ false
unfolding validate_models
validate_models-fed connections [] = refl
validate_models-fed connections ((name, m) ∷ items) =
    ground (arith, validate_model-fed connections m, validate_models-fed connections items)

inherited_timeout-fed :
    (env : Environment) (role : Role) → starves (inherited_timeout env role) ≡ false
unfolding inherited_timeout timeout_of or_timeout
inherited_timeout-fed env role = ground arith

inherit_binding-fed :
    (cs : List (String × Connection)) (env : Option Environment) (role : Role)
    (own parent : RoleBinding) (s : Resolution)
    → starves (inherit_binding cs env role own parent s) ≡ false
unfolding inherit_binding adapt_if adapt
inherit_binding-fed cs none role own parent s = ground arith
inherit_binding-fed cs (some env) role own parent s = ground (arith, inherited_timeout-fed env role)

has_all-fed :
    (role : Role) (c : Capabilities) (names : List Capability)
    → starves (has_all role c names) ≡ false
unfolding has_all
has_all-fed role c [] = refl
has_all-fed role c (name ∷ names) = ground (arith, has_all-fed role c names)

check_models-fed :
    (role : Role) (models : List (String × ModelProfile)) (names : List String)
    → starves (check_models role models names) ≡ false
unfolding check_models validate_capabilities
check_models-fed role models [] = refl
check_models-fed role models (name ∷ names) =
    ground (arith, has_all-fed role, check_models-fed role models names)

check_binding-fed :
    (role : Role) (b : RoleBinding) (models : List (String × ModelProfile))
    → starves (check_binding role b models) ≡ false
unfolding check_binding model_names
check_binding-fed role b models = elim (Option-cases b.model) [
  | inl missing ↦ ground (arith, missing)
  | inr (name, found) ↦ ground (arith, found, check_models-fed role models (name ∷ b.fallback))
]

settle-fed : (role : Role) (b : RoleBinding) (s : Resolution) → starves (settle role b s) ≡ false
unfolding settle
settle-fed role b s = ground (arith, check_binding-fed role b s.models)

all_roles : List Role
all_roles = main ∷ structured ∷ structured_fast ∷ small ∷ memory ∷ compression ∷ video_vision ∷ []

all_roles-all : (r : Role) → Memᴰ r all_roles
unfolding all_roles
all_roles-all main = Memᴰ.head refl
all_roles-all structured = Memᴰ.tail (Memᴰ.head refl)
all_roles-all structured_fast = Memᴰ.tail (Memᴰ.tail (Memᴰ.head refl))
all_roles-all small = Memᴰ.tail (Memᴰ.tail (Memᴰ.tail (Memᴰ.head refl)))
all_roles-all memory = Memᴰ.tail (Memᴰ.tail (Memᴰ.tail (Memᴰ.tail (Memᴰ.head refl))))
all_roles-all compression =
    Memᴰ.tail (Memᴰ.tail (Memᴰ.tail (Memᴰ.tail (Memᴰ.tail (Memᴰ.head refl)))))
all_roles-all video_vision =
    Memᴰ.tail (Memᴰ.tail (Memᴰ.tail (Memᴰ.tail (Memᴰ.tail (Memᴰ.tail (Memᴰ.head refl))))))

-- The roles that a trail has left.
abbrev free : List Role → ℕ
free trail = count (λ r. not (any (same_role r) trail)) all_roles

free-less :
    (role : Role) (trail : List Role)
    → any (same_role role) trail ≡ false
    → free (role ∷ trail) < free trail
free-less role trail h =
    count-lt (λ r. not (any (same_role r) trail)) (λ r. not (any (same_role r) (role ∷ trail))) role
      all_roles (λ x. ground arith) (ground arith) (ground arith) (all_roles-all role)

module _ (config : Configuration) (cs : List (String × Connection)) (env : Option Environment) where
  -- A visit with more fuel than there are roles outside the trail does not run out of it.
  visit-fed :
      (fuel : ℕ) (role : Role) (trail : List Role) (s : Resolution)
      → free trail < fuel
      → starves (visit config cs env fuel role trail s) ≡ false
  unfolding visit
  visit-fed zero role trail s h = absurd (omega arith)
  visit-fed (suc fuel) role trail s h = elim (Bool-cases (any (same_role role) trail)) [
    | inl cycle ↦ rw (visit, cycle) refl
    | inr new ↦
        let less = free-less role trail new in
        let deeper : (parent : Role)
            → starves (visit config cs env fuel parent (role ∷ trail) s) ≡ false =
          λ parent. visit-fed fuel parent (role ∷ trail) s (omega arith) in
        elim (Option-cases (get same_role role s.roles)) [
          | inr (b, done') ↦ rw (visit, new, done') refl
          | inl open' ↦ elim (Option-cases (get same_role role config.roles)) [
            | inl missing ↦ rw (visit, new, open', missing) refl
            | inr (b, found) ↦ elim (Option-cases b.inherit) [
              | inl own ↦ rw (visit, new, open', found, own) (settle-fed role b s)
              | inr (parent, from) ↦
                  rw (visit, new, open', found, from)
                    (starves-bind (visit config cs env fuel parent (role ∷ trail) s) _
                      (deeper parent)
                      (λ r.
                        starves-bind (inherit_binding cs env role b r.0 r.1) _
                          (inherit_binding-fed cs env role b r.0 r.1)
                          (λ q. settle-fed role q.0 q.1)))
            ]
          ]
        ]
  ]

  visit_all-fed :
      (items : List (Role × RoleBinding)) (s : Resolution)
      → starves (visit_all config cs env items s) ≡ false
  unfolding visit_all all_roles
  visit_all-fed [] s = refl
  visit_all-fed ((role, b) ∷ items) s =
      starves-bind (visit config cs env 8 role [] s) _ (visit-fed 8 role [] s (omega arith))
        (λ r. visit_all-fed items r.1)

-- The resolution of any configuration, in any environment, is never cut short by its fuel: it ends
-- with a resolved configuration or with an error of the code.
pub resolve-fed :
    (config : Configuration) (env : Option Environment) → resolve config env ≢ err out_of_fuel
unfolding resolve
resolve-fed config env e =
    let fed : starves (resolve config env) ≡ false =
      starves-bind (resolve_connections config.connections) _
        (resolve_connections-fed config.connections)
        (λ cs.
          starves-bind (validate_models cs config.models) _ (validate_models-fed cs config.models)
            (λ u.
              starves-bind
                (visit_all config cs env config.roles
                  (record { roles = []; models = config.models }))
                _ (visit_all-fed config cs env config.roles _) (λ s. refl))) in
    absurd (true≢false (sym (ap starves e) ∙ fed))
