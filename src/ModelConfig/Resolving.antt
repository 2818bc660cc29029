-- ===== src/ModelConfig/Resolving.antt =====
-- `resolve` of backend/app/core/model_access/config_repository.py: every role gets the model that it
-- names or inherits. The fingerprint of the result is not modelled.
pub mod Termination
pub mod Bindings
pub mod Environments
pub mod Promises
use smart_class_agent.Common.{
  ℕ, zero, suc, String, Bool, true, false, ◌&&◌, ◌||◌, not, Option, none, some, is_some, List, [],
  ◌∷◌, any, str_eq, ltb, if◌then◌else◌, Result, ok, err, ◌>>=◌, ◌>>◌, guard,
}
use smart_class_agent.ModelConfig.{
  Role, main, structured, structured_fast, small, memory, compression, video_vision, Preset, legacy,
  Thinking, off, Connection, ModelProfile, RoleBinding, Configuration, ConfigError,
  missing_connection, inheritance_cycle, not_configured, inherits_disabled, cannot_be_disabled,
  missing_model, no_model, not_an_integer, key_error, out_of_fuel, same_role, get, put,
}
use smart_class_agent.ModelConfig.Registry.{
  resolve_connection, validate_capabilities, validate_parameters,
}

-- `{name: resolve_connection(connection) …}`
unfoldable pub resolve_connections :
    List (String × Connection) → Result ConfigError (List (String × Connection))
resolve_connections [] = ok []
resolve_connections ((name, connection) ∷ items) = do
  resolved ← resolve_connection connection
  rest ← resolve_connections items
  ok ((name, resolved) ∷ rest)

validate_model : List (String × Connection) → ModelProfile → Result ConfigError (Unit {0})
validate_model connections model = elim (get str_eq model.connection connections) [
  | none ↦ err missing_connection
  | some connection ↦ validate_parameters model connection
]

validate_models :
    List (String × Connection) → List (String × ModelProfile) → Result ConfigError (Unit {0})
unfolding validate_model
validate_models connections [] = ok tt
validate_models connections ((name, model) ∷ items) = do
  validate_model connections model
  validate_models connections items

-- `"inherited-" + role`
abbrev pub inherited_name : Role → String
inherited_name main = "inherited-main"
inherited_name structured = "inherited-structured"
inherited_name structured_fast = "inherited-structured_fast"
inherited_name small = "inherited-small"
inherited_name memory = "inherited-memory"
inherited_name compression = "inherited-compression"
inherited_name video_vision = "inherited-video_vision"

-- The environment: `variable` is its dict, `parse_int` reads the integer of a text (0 for a
-- negative one), and `names_deepseek` tells whether a text or the other one mentions that provider.
-- `file_roles` are the roles of the configuration file, which take no options from it.
pub record Environment : Type 0 where
  pub variable : String → Option String
  pub parse_int : String → Option ℕ
  pub names_deepseek : String → Option String → Bool
  pub file_roles : List Role

-- `env.get(name, default) or default`
abbrev text_or : Option String → String → String
text_or none fallback = fallback
text_or (some value) fallback = if str_eq value "" then fallback else value

-- `_timeout`, in milliseconds.
timeout_of : Environment → String → String → Result ConfigError (Option ℕ)
timeout_of env name fallback = elim (env.parse_int (text_or (env.variable name) fallback)) [
  | none ↦ err (not_an_integer name)
  | some value ↦ ok (if ltb 0 value then some value else none)
]

-- `a or b`, where `b` is only evaluated if it is needed.
or_timeout :
    Result ConfigError (Option ℕ) → Result ConfigError (Option ℕ) → Result ConfigError (Option ℕ)
or_timeout (err e) second = err e
or_timeout (ok none) second = second
or_timeout (ok (some t)) second = ok (some t)

inherited_timeout : Environment → Role → Result ConfigError (Option ℕ)
unfolding timeout_of or_timeout
inherited_timeout env memory = timeout_of env "STRUCTURED_TIMEOUT_MS" "0"
inherited_timeout env structured_fast = timeout_of env "STRUCTURED_TIMEOUT_MS" "0"
inherited_timeout env compression =
    or_timeout (timeout_of env "CONTEXT_COMPRESSION_TIMEOUT_MS" "30000")
      (timeout_of env "STRUCTURED_TIMEOUT_MS" "0")
inherited_timeout env _ = ok none

abbrev is_structured_fast : Role → Bool
is_structured_fast structured_fast = true
is_structured_fast _ = false

abbrev is_legacy : Preset → Bool
is_legacy legacy = true
is_legacy _ = false

abbrev is_off : Thinking → Bool
is_off off = true
is_off _ = false

-- Whether the inherited model must not think.
abbrev stops_thinking : Environment → Role → ModelProfile → Option Connection → Bool
stops_thinking env role profile none = false
stops_thinking env role profile (some connection) =
    is_structured_fast role
    && (is_legacy connection.preset && env.names_deepseek profile.model_id connection.endpoint)

abbrev or_own : Option ℕ → Option ℕ → Option ℕ
or_own none own = own
or_own (some t) own = some t

-- What `visit` has settled: `roles` and `models`.
pub record Resolution : Type 0 where
  pub roles : List (Role × RoleBinding)
  pub models : List (String × ModelProfile)

module _ (connections : List (String × Connection)) where
  -- The options that an inherited model takes from the environment: if there are any, the role gets
  -- a copy of the model under a name of its own.
  adapt :
      Environment → Role → RoleBinding → Resolution → Result ConfigError (RoleBinding × Resolution)
  unfolding inherited_timeout
  adapt env role binding s = elim (binding.model) [
    | none ↦ err (key_error none)
    | some name ↦ elim (get str_eq name s.models) [
      | none ↦ err (key_error (some name))
      | some profile ↦ do
        timeout ← inherited_timeout env role
        let quiet = stops_thinking env role profile (get str_eq profile.connection connections)
        let thinking = if quiet then off else profile.parameters.thinking
        ok (
            if is_some timeout || quiet && not (is_off profile.parameters.thinking)
            then (
              record binding { model = some (inherited_name role) },
              record s {
                models =
                    put str_eq (inherited_name role)
                      (record profile {
                        parameters = record profile.parameters {
                          timeout = or_own timeout profile.parameters.timeout;
                          thinking = thinking;
                        };
                      })
                      s.models;
              },
            )
            else (binding, s))
    ]
  ]

  -- `env is not None and role not in (file_roles or set())`
  adapt_if :
      Option Environment
      → Role
      → RoleBinding
      → Resolution
      → Result ConfigError (RoleBinding × Resolution)
  unfolding adapt
  adapt_if none role binding s = ok (binding, s)
  adapt_if (some env) role binding s =
      if any (same_role role) env.file_roles then ok (binding, s) else adapt env role binding s

  abbrev or_fallback : List String → List String → List String
  or_fallback [] parents = parents
  or_fallback (f ∷ fs) parents = f ∷ fs

  -- The binding of a role that inherits, from that of its parent.
  unfoldable pub inherit_binding :
      Option Environment
      → Role
      → RoleBinding
      → RoleBinding
      → Resolution
      → Result ConfigError (RoleBinding × Resolution)
  unfolding adapt_if
  inherit_binding env role binding parent s = do
    guard parent.enabled (inherits_disabled role)
    guard (is_some parent.model) no_model
    adapt_if env role
        (record {
          model = parent.model;
          inherit = none;
          enabled = true;
          fallback = or_fallback binding.fallback parent.fallback;
        })
        s

-- The models of an enabled role exist and can do what it needs.
check_models : Role → List (String × ModelProfile) → List String → Result ConfigError (Unit {0})
check_models role models [] = ok tt
check_models role models (name ∷ names) = elim (get str_eq name models) [
  | none ↦ err (missing_model role)
  | some profile ↦ do validate_capabilities role profile; check_models role models names
]

abbrev is_optional : Role → Bool
is_optional compression = true
is_optional video_vision = true
is_optional _ = false

-- The name `None`, which no model has, of an enabled role without a model.
model_names : RoleBinding → Result ConfigError (List String)
model_names binding = elim (binding.model) [
  | none ↦ err no_model
  | some name ↦ ok (name ∷ binding.fallback)
]

pub check_binding :
    Role → RoleBinding → List (String × ModelProfile) → Result ConfigError (Unit {0})
unfolding check_models model_names
check_binding role binding models =
    if binding.enabled
    then (do names ← model_names binding; check_models role models names)
    else guard (is_optional role) (cannot_be_disabled role)

-- The end of `visit`.
unfoldable pub settle :
    Role → RoleBinding → Resolution → Result ConfigError (RoleBinding × Resolution)
unfolding check_binding
settle role binding s = do
  check_binding role binding s.models
  ok (binding, record s { roles = put same_role role binding s.roles })

module _ (config : Configuration) (connections : List (String × Connection))
    (env : Option Environment) where
  -- `visit`; the fuel bounds the depth of the inheritance.
  unfoldable pub visit :
      ℕ → Role → List Role → Resolution → Result ConfigError (RoleBinding × Resolution)
  unfolding settle inherit_binding
  visit zero role trail s = err out_of_fuel
  visit (suc fuel) role trail s = elim (any (same_role role) trail) [
    | true ↦ err inheritance_cycle
    | false ↦ elim (get same_role role s.roles) [
      | some binding ↦ ok (binding, s)
      | none ↦ elim (get same_role role config.roles) [
        | none ↦ err (not_configured role)
        | some binding ↦ elim (binding.inherit) [
          | none ↦ settle role binding s
          | some parent ↦ do
            (resolved, s') ← visit fuel parent (role ∷ trail) s
            (own, s'') ← inherit_binding connections env role binding resolved s'
            settle role own s''
        ]
      ]
    ]
  ]

  -- `for role in config.roles: visit(role)`. There are seven roles, so a chain of eight has a cycle.
  unfoldable pub visit_all : List (Role × RoleBinding) → Resolution → Result ConfigError Resolution
  unfolding visit
  visit_all [] s = ok s
  visit_all ((role, binding) ∷ items) s = do (resolved, s') ← visit 8 role [] s; visit_all items s'

unfoldable pub resolve : Configuration → Option Environment → Result ConfigError Configuration
unfolding validate_models visit_all
resolve config env = do
  connections ← resolve_connections config.connections
  validate_models connections config.models
  s ← visit_all config connections env config.roles (record { roles = []; models = config.models })
  ok (record { connections = connections; models = s.models; roles = s.roles })
