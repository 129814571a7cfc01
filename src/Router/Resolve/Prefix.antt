-- ===== src/Router/Resolve/Prefix.antt =====
-- Model names with a provider's prefix (`litellmPrefixes` and `splitLitellmPrefix` of
-- backend/internal/router/router.go).
use Prim.Native.Char.{code}
use gateway_llm.Prelude.{
  ◌≡◌, refl, String, Option, none, some, List, [], ◌∷◌, ◌==◌, str_eq, if◌then◌else◌,
}
use gateway_llm.Router.State.{lookup}

-- litellmPrefixes
abbrev pub litellm_prefixes : List (String × String)
litellm_prefixes =
    ("openai", "openai")
    ∷ ("azure", "openai")
    ∷ ("anthropic", "anthropic")
    ∷ ("claude", "anthropic")
    ∷ ("gemini", "gemini")
    ∷ ("vertex_ai", "gemini")
    ∷ ("vertex", "gemini")
    ∷ ("google", "gemini")
    ∷ ("bedrock", "bedrock")
    ∷ ("mistral", "mistral")
    ∷ ("cohere", "cohere")
    ∷ ("groq", "groq")
    ∷ ("together_ai", "together")
    ∷ ("together", "together")
    ∷ ("fireworks_ai", "fireworks")
    ∷ ("fireworks", "fireworks")
    ∷ ("deepseek", "deepseek")
    ∷ ("xai", "xai")
    ∷ ("ollama", "ollama")
    ∷ ("huggingface", "huggingface")
    ∷ []

-- The text before and after the first slash.
unfoldable pub cut_slash : String → Option (String × String)
cut_slash String.[] = none
cut_slash (String.◌∷◌ c s) =
    let rest = cut_slash s in
    if code c == b'/'
    then some ("", s)
    else (elim rest [ none ↦ none | some (before, after) ↦ some (String.◌∷◌ c before, after) ])

canonical : Option String → String → Option (String × String)
canonical none model = none
canonical (some provider) model = some (provider, model)

split_cut : Option (String × String) → Option (String × String)
unfolding canonical
split_cut none = none
split_cut (some (prefix, model)) =
    if str_eq prefix "" then none else canonical (lookup prefix litellm_prefixes) model

-- splitLitellmPrefix
unfoldable pub split_litellm_prefix : String → Option (String × String)
unfolding split_cut
split_litellm_prefix name = split_cut (cut_slash name)

bedrock_example :
    split_litellm_prefix "bedrock/anthropic.claude" ≡ some ("bedrock", "anthropic.claude")
unfolding split_litellm_prefix cut_slash lookup
bedrock_example = refl

plain_example : split_litellm_prefix "gpt-4o" ≡ none
unfolding split_litellm_prefix cut_slash lookup
plain_example = refl
