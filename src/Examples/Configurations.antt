-- ===== src/Examples/Configurations.antt =====
-- A configuration with one model, which the memory inherits.
use smart_class_agent.Common.{
  ◌≡◌, ◌≢◌, refl, true, false, none, some, is_some, [], ◌∷◌, All, ok, err, str_eq, if◌then◌else◌,
}
use smart_class_agent.ModelConfig.{
  Role, main, memory, compression, structured, structured_fast, small, video_vision, ModelProfile,
  legacy, openai_chat, default, tool_calling, Configuration, RoleBinding, out_of_fuel, same_role,
  get,
}
use smart_class_agent.ModelConfig.Registry.{
  resolve_connection, validate_parameters, validate_capabilities,
}
use smart_class_agent.ModelConfig.Resolving.{
  resolve, resolve_connections, Environment, inherited_name,
}
use smart_class_agent.ModelConfig.Resolving.Termination.{resolve-fed}
use smart_class_agent.ModelConfig.Resolving.Bindings.{Grows, IsSettled}
use smart_class_agent.ModelConfig.Resolving.Promises.{resolve-IsSettled}

abbrev chat : ModelProfile
chat = record {
  connection = "cloud";
  model_id = "chat-1";
  parameters = record {
    temperature = none;
    max_tokens = none;
    timeout = none;
    thinking = default;
    thinking_budget = none;
    reasoning_effort = none;
    provider_routing = none;
    structured_method = tool_calling;
  };
  capabilities = record {
    text = some true;
    images = none;
    streaming = some true;
    tools = some true;
    tool_choice = none;
    structured = none;
    reasoning_roundtrip = none;
  };
}

abbrev configuration : Configuration
configuration = record {
  connections =
      (
        "cloud",
        record {
          preset = legacy;
          protocol = openai_chat;
          endpoint = some "https://models";
          credential = "env:KEY";
        },
      )
      ∷ [];
  models = ("chat", chat) ∷ [];
  roles =
      (memory, record { model = none; inherit = some main; enabled = true; fallback = [] })
      ∷ (main, record { model = some "chat"; inherit = none; enabled = true; fallback = [] })
      ∷ (compression, record { model = none; inherit = none; enabled = false; fallback = [] })
      ∷ [];
}

abbrev own : RoleBinding
own = record { model = some "chat"; inherit = none; enabled = true; fallback = [] }

-- A process that sets the time limit of structured calls.
abbrev process : Environment
process = record {
  variable = λ name. if str_eq name "STRUCTURED_TIMEOUT_MS" then some "5000" else none;
  parse_int = λ text. if str_eq text "5000" then some 5000 else some 0;
  names_deepseek = λ model endpoint. false;
  file_roles = [];
}

-- The memory gets a copy of the model with that limit.
abbrev slow : ModelProfile
slow = record chat { parameters = record chat.parameters { timeout = some 5000 } }

abbrev resolved : Configuration
resolved = record configuration {
  models = ("chat", chat) ∷ ("inherited-memory", slow) ∷ [];
  roles =
      (main, own)
      ∷ (memory, record own { model = some "inherited-memory" })
      ∷ (compression, record { model = none; inherit = none; enabled = false; fallback = [] })
      ∷ [];
}

resolves : resolve configuration (some process) ≡ ok resolved
unfolding resolve resolve_connections resolve_connection validate_parameters validate_capabilities
resolves = refl

undeclared : (role : Role) → get str_eq (inherited_name role) configuration.models ≡ none
undeclared main = refl
undeclared structured = refl
undeclared structured_fast = refl
undeclared small = refl
undeclared memory = refl
undeclared compression = refl
undeclared video_vision = refl

resolve-IsSettled_example :
    All (IsSettled resolved.models) resolved.roles
    × All
        (λ (item : Role × RoleBinding). is_some (get same_role item.0 resolved.roles) ≡ true)
        configuration.roles
    × Grows configuration.models resolved.models
resolve-IsSettled_example =
    resolve-IsSettled configuration (some process) resolved undeclared resolves

-- The main role inherits from the memory, which inherits from it.
abbrev cycle : Configuration
cycle = record configuration {
  roles =
      (memory, record { model = none; inherit = some main; enabled = true; fallback = [] })
      ∷ (main, record { model = none; inherit = some memory; enabled = true; fallback = [] })
      ∷ [];
}

resolve-fed_example : resolve cycle none ≢ err out_of_fuel
resolve-fed_example = resolve-fed cycle none
