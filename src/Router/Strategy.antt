-- ===== src/Router/Strategy.antt =====
-- What a deployment must have for a request: `effectiveCapabilities`, `Supports`, `strategyChain`,
-- `hasStrategy`, `stringOption` and `tagFilter`, of internal/router/router.go and
-- internal/providers/provider.go.
use Prim.Native.String.{String}
use text.Mathlib.Text.{◌==◌ as str_eq}
use gatemux.Common.{Bool, true, false, ◌&&◌, ◌||◌, Option, none, some, List, [], ◌∷◌, if◌then◌else◌}
use gatemux.Common.Maps.{find}
use gatemux.Router.Types.{
  string_eq, Capability, any_capability, chat, stream_chat, embeddings, responses, Capabilities,
  Deployment, Value, string, array, AliasMeta,
}

-- The row's own capabilities win over those that its provider declares.
unfoldable pub effective_capabilities : Deployment → Capabilities → Capabilities
effective_capabilities d p = elim d.capabilities [
  | none ↦ p
  | some o ↦ record {
    responses = elim o.responses [ none ↦ p.responses && o.chat | some r ↦ r ];
    chat = o.chat;
    stream_chat = o.stream_chat;
    embeddings = o.embeddings;
  }
]

unfoldable pub supports : Capabilities → Capability → Bool
supports c any_capability = true
supports c chat = c.chat
supports c stream_chat = c.chat && c.stream_chat
supports c embeddings = c.embeddings
supports c responses = c.responses

abbrev texts : List (Option String) → List String
texts [] = []
texts (none ∷ vs) = texts vs
texts (some s ∷ vs) = s ∷ texts vs

abbrev composed_of : Option Value → List String
composed_of none = []
composed_of (some (string s)) = []
composed_of (some (array vs)) = texts vs
composed_of (some Value.other) = []

abbrev composed : Option (List (String × Value)) → List String
composed none = []
composed (some opts) = composed_of (find "compose" opts)

-- The list under `compose`, or else the one strategy.
unfoldable pub strategy_chain : AliasMeta → List String
strategy_chain meta = elim (composed meta.strategy_options) [
  | s ∷ ss ↦ s ∷ ss
  | [] ↦
      if str_eq meta.strategy "" || str_eq meta.strategy "priority" then [] else meta.strategy ∷ []
]

unfoldable pub has_strategy : List String → String → Bool
has_strategy [] name = false
has_strategy (s ∷ ss) name = str_eq s name || has_strategy ss name

abbrev string_of : Option Value → String → String
string_of none fallback = fallback
string_of (some (string v)) fallback = if str_eq v "" then fallback else v
string_of (some (array vs)) fallback = fallback
string_of (some Value.other) fallback = fallback

unfoldable pub string_option : Option (List (String × Value)) → String → String → String
string_option none key fallback = fallback
string_option (some opts) key fallback = string_of (find key opts) fallback

unfoldable pub all_tags : List String → List String → Bool
all_tags tags [] = true
all_tags tags (t ∷ ts) = has_strategy tags t && all_tags tags ts

unfoldable pub any_tag : List String → List String → Bool
any_tag tags [] = false
any_tag tags (t ∷ ts) = has_strategy tags t || any_tag tags ts

-- No tags in the request let every deployment pass.
unfoldable pub tag_filter : List String → List String → String → Bool
tag_filter tags [] mode = true
tag_filter tags (t ∷ ts) mode =
    if str_eq mode "all" then all_tags tags (t ∷ ts) else any_tag tags (t ∷ ts)
