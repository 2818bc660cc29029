-- ===== src/ModelConfig/Registry.antt =====
-- backend/app/core/model_access/registry.py: the presets of the providers and what a connection, a
-- model and a role may ask of them.
use smart_class_agent.Common.{
  ℕ, String, Bool, true, false, ◌&&◌, ◌||◌, not, Option, none, some, is_some, List, [], ◌∷◌, any,
  ltb, leb, ◌==◌, Result, ok, ◌>>◌, guard,
}
use smart_class_agent.ModelConfig.{
  Role, main, structured, structured_fast, small, memory, compression, video_vision, Preset, openai,
  custom, legacy, anthropic, gemini, openrouter, deepseek, zhipu, Protocol, openai_chat,
  anthropic_messages, google_genai, Capabilities, Thinking, default, on, adaptive, StructuredMethod,
  tool_calling, json_schema, Parameters, Connection, ModelProfile, ConfigError,
  unsupported_protocol, missing_endpoint, undeclared_capability, unsupported_parameter,
}

-- `PRESETS[preset].protocols`
abbrev protocols_of : Preset → List Protocol
protocols_of custom = openai_chat ∷ anthropic_messages ∷ google_genai ∷ []
protocols_of anthropic = anthropic_messages ∷ []
protocols_of gemini = google_genai ∷ []
protocols_of _ = openai_chat ∷ []

-- `PRESETS[preset].default_endpoint`
abbrev default_endpoint : Preset → Option String
default_endpoint openai = some "https://api.openai.com/v1"
default_endpoint custom = none
default_endpoint anthropic = some "https://api.anthropic.com"
default_endpoint gemini = some "https://generativelanguage.googleapis.com"
default_endpoint openrouter = some "https://openrouter.ai/api/v1"
default_endpoint deepseek = some "https://api.deepseek.com"
default_endpoint zhipu = some "https://open.bigmodel.cn/api/paas/v4/"
default_endpoint legacy = some "https://api.openai.com/v1"

abbrev same_protocol : Protocol → Protocol → Bool
same_protocol openai_chat openai_chat = true
same_protocol anthropic_messages anthropic_messages = true
same_protocol google_genai google_genai = true
same_protocol _ _ = false

abbrev endpoint_of : Connection → Option String
endpoint_of connection = elim (connection.endpoint) [
  | none ↦ default_endpoint connection.preset
  | some endpoint ↦ some endpoint
]

-- A connection keeps its endpoint, or takes that of its preset.
unfoldable pub resolve_connection : Connection → Result ConfigError Connection
resolve_connection connection = do
  guard (any (same_protocol connection.protocol) (protocols_of connection.preset))
      unsupported_protocol
  guard (is_some (endpoint_of connection)) missing_endpoint
  ok (record connection { endpoint = endpoint_of connection })

-- The names of capabilities in `REQUIRED`.
pub data Capability : Type 0 where
  text images streaming tools tool_choice : Capability

-- `REQUIRED`
abbrev pub required : Role → List Capability
required main = text ∷ tools ∷ streaming ∷ []
required small = text ∷ []
required structured = text ∷ tools ∷ tool_choice ∷ []
required structured_fast = text ∷ tools ∷ tool_choice ∷ []
required memory = text ∷ tools ∷ []
required compression = text ∷ []
required video_vision = text ∷ images ∷ []

-- `… is True`
abbrev is_true : Option Bool → Bool
is_true none = false
is_true (some b) = b

abbrev pub has_capability : Capabilities → Capability → Bool
has_capability c text = is_true c.text
has_capability c images = is_true c.images
has_capability c streaming = is_true c.streaming
has_capability c tools = is_true c.tools
has_capability c tool_choice = is_true c.tool_choice

unfoldable pub has_all : Role → Capabilities → List Capability → Result ConfigError (Unit {0})
has_all role c [] = ok tt
has_all role c (name ∷ names) = do
  guard (has_capability c name) (undeclared_capability role)
  has_all role c names

-- `validate_capabilities`, as `resolve` calls it.
unfoldable pub validate_capabilities : Role → ModelProfile → Result ConfigError (Unit {0})
unfolding has_all
validate_capabilities role profile = has_all role profile.capabilities (required role)

abbrev is_default : Thinking → Bool
is_default default = true
is_default _ = false

abbrev is_on : Thinking → Bool
is_on on = true
is_on _ = false

abbrev is_adaptive : Thinking → Bool
is_adaptive adaptive = true
is_adaptive _ = false

abbrev is_openrouter : Preset → Bool
is_openrouter openrouter = true
is_openrouter _ = false

abbrev is_deepseek : Preset → Bool
is_deepseek deepseek = true
is_deepseek _ = false

abbrev is_zhipu : Preset → Bool
is_zhipu zhipu = true
is_zhipu _ = false

abbrev is_legacy : Preset → Bool
is_legacy legacy = true
is_legacy _ = false

-- `if test: raise ConfigError(message)`
abbrev refuse : Bool → String → Result ConfigError (Unit {0})
refuse test message = guard (not test) (unsupported_parameter message)

openai_rules : Parameters → Capabilities → Preset → Result ConfigError (Unit {0})
openai_rules p c preset = do
  refuse (is_some p.provider_routing && not (is_openrouter preset)) "provider routing"
  refuse
      (not (is_default p.thinking)
        && not
            (is_legacy preset || (is_openrouter preset || (is_deepseek preset || is_zhipu preset))))
      "explicit thinking"
  refuse (is_some p.thinking_budget) "thinking budget"
  refuse (is_adaptive p.thinking) "adaptive thinking"
  refuse (is_some p.reasoning_effort && not (is_openrouter preset || is_deepseek preset))
      "reasoning effort"
  refuse (is_true c.reasoning_roundtrip && not (is_deepseek preset || is_zhipu preset))
      "reasoning roundtrip"
  refuse (is_deepseek preset && (is_on p.thinking && not (is_true c.reasoning_roundtrip)))
      "deepseek roundtrip"
  refuse (is_deepseek preset && (is_on p.thinking && is_some p.temperature)) "deepseek temperature"
  refuse (is_deepseek preset && (is_on p.thinking && is_true c.tool_choice)) "deepseek tool choice"
  refuse (is_zhipu preset && (is_on p.thinking && not (is_true c.reasoning_roundtrip)))
      "zhipu roundtrip"

-- `p.max_tokens or 4096`; a declared maximum is positive.
abbrev max_tokens_of : Parameters → ℕ
max_tokens_of p = elim (p.max_tokens) [ none ↦ 4096 | some n ↦ n ]

abbrev budget_fits : Parameters → Bool
budget_fits p = elim (p.thinking_budget) [
  | none ↦ false
  | some b ↦ leb 1024 b && ltb b (max_tokens_of p)
]

anthropic_rules : Parameters → Capabilities → Result ConfigError (Unit {0})
anthropic_rules p c = do
  refuse (is_on p.thinking && not (budget_fits p)) "anthropic budget"
  refuse (not (is_on p.thinking) && is_some p.thinking_budget) "anthropic budget without thinking"
  let thinks = is_on p.thinking || is_adaptive p.thinking
  refuse (thinks && is_some p.temperature) "anthropic temperature"
  refuse (thinks && is_true c.tool_choice) "anthropic tool choice"
  refuse (thinks && not (is_true c.reasoning_roundtrip)) "anthropic roundtrip"

-- `not p.thinking_budget`
abbrev no_budget : Parameters → Bool
no_budget p = elim (p.thinking_budget) [ none ↦ true | some b ↦ b == 0 ]

google_rules : Parameters → Capabilities → Result ConfigError (Unit {0})
google_rules p c = do
  refuse (is_adaptive p.thinking) "gemini adaptive thinking"
  refuse (is_on p.thinking && no_budget p) "gemini budget"
  refuse (not (is_on p.thinking) && is_some p.thinking_budget) "gemini budget without thinking"
  refuse (is_on p.thinking && not (is_true c.reasoning_roundtrip)) "gemini roundtrip"

protocol_rules : Protocol → Parameters → Capabilities → Preset → Result ConfigError (Unit {0})
unfolding openai_rules anthropic_rules google_rules
protocol_rules openai_chat p c preset = openai_rules p c preset
protocol_rules anthropic_messages p c preset = anthropic_rules p c
protocol_rules google_genai p c preset = google_rules p c

abbrev is_json_schema : StructuredMethod → Bool
is_json_schema json_schema = true
is_json_schema tool_calling = false

-- The message of an error is shortened to its subject.
unfoldable pub validate_parameters : ModelProfile → Connection → Result ConfigError (Unit {0})
unfolding protocol_rules
validate_parameters profile connection = do
  protocol_rules connection.protocol profile.parameters profile.capabilities connection.preset
  refuse
      (is_json_schema profile.parameters.structured_method
        && not (is_true profile.capabilities.structured))
      "native schema"
