-- ===== src/Agent/Policies.antt =====
-- What the conversation agent consults: core/fsm/tool_policy.py, core/services/repetition_guard.py
-- and core/services/friction_detector.py.
use super_agent_platform.Base.{
  contains, strip, lookup, ℕ, ◌+◌, ◌-◌, ◌*◌, String, Bool, false, not, ◌&&◌, ◌||◌, List, [], ◌∷◌,
  ◌++◌, leb, ◌==◌, if◌then◌else◌, get_or, length, take_last, any, all, count_if, keep_if, chars,
  ℕ_eq, String_eq,
}

-- `FSM_TOOL_POLICY`
abbrev pub fsm_tool_policy : List (String × List String)
fsm_tool_policy =
    ("idle", [])
    ∷ (("greeting", [])
        ∷ (("discovery", "query_inventory" ∷ [])
            ∷ (("qualification", [])
                ∷ (("catalog_navigation", "query_inventory" ∷ ("send_inventory_photos" ∷ []))
                    ∷ (("document_delivery", [])
                        ∷ (("objection_handling", "query_inventory" ∷ [])
                            ∷ (("appointment_flow", [])
                                ∷ (("handoff_pending", [])
                                    ∷ (("handoff_active", [])
                                        ∷ (("cooldown", []) ∷ (("closed", []) ∷ [])))))))))))

-- `get_allowed_tools`
unfoldable pub get_allowed_tools : String → List String
unfolding lookup
get_allowed_tools fsm_state = get_or (lookup fsm_state fsm_tool_policy) []

-- The library functions of the agent on texts: `str.lower`, `str.casefold`, `str.split`, the words of
-- `_tokenize` before those of one character go, `re.sub(r"\s+", " ", s)`, `re.findall` of the words
-- of a request, `re.split` after the end of a sentence, and the key of `re.sub(r"\W+", "", s)`.
pub record TextTools : Type 0 where
  pub lower : String → String
  pub casefold : String → String
  pub split : String → List String
  pub tokens : String → List String
  pub collapse : String → String
  pub find_words : String → List String
  pub sentences : String → List String
  pub dedup_key : String → String

abbrev pub elem : String → List String → Bool
elem s xs = any (λ x. x == s) xs

-- The items of a `set`.
abbrev pub distinct : List String → List String
distinct [] = []
distinct (x ∷ xs) = let rest = distinct xs in if elem x rest then rest else x ∷ rest

abbrev pub lookback : ℕ
lookback = 3

abbrev pub friction_lookback : ℕ
friction_lookback = 3

abbrev pub stale_state_threshold : ℕ
stale_state_threshold = 3

abbrev pub friction_msg_threshold : ℕ
friction_msg_threshold = 2

-- `FRICTION_KEYWORDS`
abbrev pub friction_keywords : List String
friction_keywords =
    "no entiendo"
    ∷ ("no me entiendes"
        ∷ ("no entendiste"
            ∷ ("no es lo que busco"
                ∷ ("eso no"
                    ∷ ("no es eso"
                        ∷ ("otra vez"
                            ∷ ("ya te dije"
                                ∷ ("te lo repetí"
                                    ∷ ("sigues sin"
                                        ∷ ("insisto"
                                            ∷ ("qué no entiendes"
                                                ∷ ("no me ayudas"
                                                    ∷ ("no sirves" ∷ ("para qué" ∷ []))))))))))))))

module _ (tools : TextTools) where
  -- `_tokenize`
  unfoldable pub tokenize : String → List String
  tokenize reply = distinct (keep_if (λ t. leb 2 (chars t)) (tools.tokens reply))

  -- `jaccard_similarity` at least 0.75, as three quarters of the union.
  unfoldable pub is_similar : String → String → Bool
  unfolding tokenize
  is_similar a b =
      let tokens_a = tokenize a in
      let tokens_b = tokenize b in
      let intersection = count_if (λ t. elem t tokens_b) tokens_a in
      let union = (length tokens_a + length tokens_b) - intersection in
      if leb (length tokens_a) 0 || leb (length tokens_b) 0
      then false
      else leb (3 * union) (4 * intersection)

  -- `is_repetition`
  unfoldable pub is_repetition : String → List String → Bool
  unfolding is_similar
  is_repetition candidate previous_bot_messages =
      not (candidate == "") && any (is_similar candidate) (take_last lookback previous_bot_messages)

  -- `_has_friction_keyword`
  unfoldable pub has_friction_keyword : String → Bool
  unfolding contains strip
  has_friction_keyword reply =
      let text_lower = strip (tools.collapse (tools.lower reply)) in
      any (λ keyword. contains keyword text_lower) friction_keywords

  -- `detect_friction`
  unfoldable pub detect_friction : String → List String → String → List String → Bool
  unfolding has_friction_keyword
  detect_friction current_client_message recent_client_messages current_state recent_states =
      let window =
        take_last (friction_lookback - 1) recent_client_messages ++ current_client_message ∷ [] in
      (leb stale_state_threshold (length recent_states)
        && all (λ s. s == current_state) (take_last stale_state_threshold recent_states))
      || leb friction_msg_threshold (count_if has_friction_keyword window)
