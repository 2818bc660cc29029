-- ===== src/ModelConfig.antt =====
-- The configuration of the models: backend/app/core/model_access/{schemas,registry,config_repository}.py.
-- A dict is the list of its items, in their order.
pub mod Registry
pub mod Resolving
use smart_class_agent.Common.{
  ℕ, String, Bool, true, false, Option, none, some, List, [], ◌∷◌, str_eq, ◌==◌, if◌then◌else◌, any,
}

pub data Role : Type 0 where
  main structured structured_fast small memory compression video_vision : Role

pub data Preset : Type 0 where
  openai custom legacy anthropic gemini openrouter deepseek zhipu : Preset

pub data Protocol : Type 0 where
  openai_chat anthropic_messages google_genai : Protocol

-- The declared capabilities; `none` is undeclared.
pub record Capabilities : Type 0 where
  pub text : Option Bool
  pub images : Option Bool
  pub streaming : Option Bool
  pub tools : Option Bool
  pub tool_choice : Option Bool
  pub structured : Option Bool
  pub reasoning_roundtrip : Option Bool

pub data Thinking : Type 0 where
  default off on adaptive : Thinking

pub data StructuredMethod : Type 0 where
  tool_calling json_schema : StructuredMethod

-- A temperature is in hundredths, and a timeout in milliseconds.
pub record Parameters : Type 0 where
  pub temperature : Option ℕ
  pub max_tokens : Option ℕ
  pub timeout : Option ℕ
  pub thinking : Thinking
  pub thinking_budget : Option ℕ
  pub reasoning_effort : Option String
  pub provider_routing : Option String
  pub structured_method : StructuredMethod

pub record Connection : Type 0 where
  pub preset : Preset
  pub protocol : Protocol
  pub endpoint : Option String
  pub credential : String

pub record ModelProfile : Type 0 where
  pub connection : String
  pub model_id : String
  pub parameters : Parameters
  pub capabilities : Capabilities

pub record RoleBinding : Type 0 where
  pub model : Option String
  pub inherit : Option Role
  pub enabled : Bool
  pub fallback : List String

pub record Configuration : Type 0 where
  pub connections : List (String × Connection)
  pub models : List (String × ModelProfile)
  pub roles : List (Role × RoleBinding)

-- The messages of `ConfigError`, and the `KeyError` of a model that is not there.
pub data ConfigError : Type 0 where
  unsupported_protocol missing_endpoint missing_connection : ConfigError
  undeclared_capability : Role → ConfigError
  unsupported_parameter : String → ConfigError
  inheritance_cycle : ConfigError
  not_configured inherits_disabled cannot_be_disabled missing_model : Role → ConfigError
  no_model : ConfigError
  not_an_integer : String → ConfigError
  key_error : Option String → ConfigError
  -- not of the code: the recursion was given too little fuel
  out_of_fuel : ConfigError

abbrev pub index : Role → ℕ
index main = 0
index structured = 1
index structured_fast = 2
index small = 3
index memory = 4
index compression = 5
index video_vision = 6

abbrev pub same_role : Role → Role → Bool
same_role a b = index a == index b

module _ {ℓ κ} {K : Type ℓ} {A : Type κ} (same : K → K → Bool) where
  -- `d.get(key)`
  abbrev pub get : K → List (K × A) → Option A
  get key [] = none
  get key ((k, a) ∷ items) = let rest = get key items in if same k key then some a else rest

  -- `d[key] = value`
  abbrev pub put : K → A → List (K × A) → List (K × A)
  put key value [] = (key, value) ∷ []
  put key value ((k, a) ∷ items) =
      let rest = put key value items in if same k key then (key, value) ∷ items else (k, a) ∷ rest
