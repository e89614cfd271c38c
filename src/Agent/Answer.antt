-- ===== src/Agent/Answer.antt =====
-- The texts of an answer in core/services/conversation_agent.py.
use package.text.Mathlib.Text.{starts_with}
use super_agent_platform.Base.{
  contains, strip, get, ℕ, ◌-◌, min, String, ◌+++◌, Bool, not, ◌&&◌, ◌||◌, Option, some, List, [],
  ◌∷◌, leb, ◌==◌, if◌then◌else◌, get_or, length, any, count_if, chars, take_chars, all_chars,
  last_chars, cut_last, Value, str, ℕ_eq, String_eq,
}
use super_agent_platform.Inbound.Types.{ConversationEvent}
use super_agent_platform.Agent.Policies.{TextTools, elem}
use super_agent_platform.Agent.Messages.{is_empty}

-- `s.startswith(prefix)`
abbrev pub has_prefix : String → String → Bool
has_prefix prefix s = starts_with s prefix

-- `" ".join(parts)`
abbrev pub spaced : List String → String
spaced [] = ""
spaced (s ∷ []) = s
spaced (s ∷ (t ∷ rest)) = s +++ (" " +++ spaced (t ∷ rest))

-- `s.rsplit(" ", maxsplit=1)[0]`
abbrev pub before_last_space : String → String
before_last_space s = cut_last 32 s

-- `s[-1] in ".!?"`
abbrev pub ends_sentence : String → Bool
ends_sentence s = all_chars (λ c. c == 46 || c == 33 || c == 63) (last_chars 1 s)

-- `_resolve_llm_failure_message`
unfoldable pub resolve_llm_failure_message : List String → String
resolve_llm_failure_message [] = "Disculpa, tengo un problema tecnico. Te escribo en breve."
resolve_llm_failure_message (configured ∷ _) = configured

-- `_history_has_technical_specs` of one text.
abbrev pub has_specs : String → Bool
has_specs lowered = contains "motor:" lowered || contains "trans:" lowered || contains "km:" lowered

-- `payload_text` of an event that the agent sent.
abbrev pub text_or_blank : Option Value → String
text_or_blank (some (str s)) = s
text_or_blank _ = ""

module _ (tools : TextTools) where
  -- `_build_photo_ack_text`
  unfoldable pub build_photo_ack_text : String → String
  unfolding strip
  build_photo_ack_text photos_result =
      let normalized = strip photos_result in
      if has_prefix "listo, te envie" (tools.lower normalized)
      then "Listo, ya te mande las fotos."
      else normalized

  -- `_is_photo_request`
  unfoldable pub is_photo_request : Option String → Bool
  unfolding contains strip
  is_photo_request body =
      let normalized = tools.lower (strip (get_or body "")) in
      not (normalized == "") && (contains "foto" normalized || contains "imagen" normalized)

  -- `_is_photo_only_request`
  unfoldable pub is_photo_only_request : Option String → Bool
  unfolding strip
  is_photo_only_request body =
      let normalized = tools.lower (strip (get_or body "")) in
      let words = tools.find_words normalized in
      not (normalized == "")
      && any (λ t. elem t ("foto" ∷ ("fotos" ∷ ("imagen" ∷ ("imagenes" ∷ ("imágenes" ∷ []))))))
          words
      && leb (length words) 5

  -- `_history_has_technical_specs`
  unfoldable pub history_has_technical_specs : List ConversationEvent → Bool
  unfolding contains get
  history_has_technical_specs history =
      any
        (λ (e : ConversationEvent).
          e.event_type == "outbound_message"
          && has_specs (tools.casefold (text_or_blank (get "text" e.payload))))
        history

  -- `_looks_like_spec_sentence`
  unfoldable pub looks_like_spec_sentence : String → Bool
  unfolding contains
  looks_like_spec_sentence reply = leb 2 (
      count_if (λ token. contains token (tools.casefold reply))
        ("motor" ∷ ("transmision" ∷ ("transmisión" ∷ ("km" ∷ ("kilomet" ∷ []))))))

  -- The loop of `_compress_response_text` over the sentences, with the number of those that may
  -- still be taken.
  unfoldable pub select_sentences : Bool → List String → List String → ℕ → List String
  unfolding strip looks_like_spec_sentence
  select_sentences history_has_specs [] seen_keys left = []
  select_sentences history_has_specs (sentence ∷ rest) seen_keys left =
      let cleaned = strip sentence in
      let key = tools.dedup_key cleaned in
      let others = select_sentences history_has_specs rest seen_keys left in
      let keys = if key == "" then seen_keys else key ∷ seen_keys in
      let later = select_sentences history_has_specs rest keys (left - 1) in
      if cleaned == ""
      then others
      else if history_has_specs && looks_like_spec_sentence cleaned
      then others
      else if not (key == "") && elem key seen_keys
      then others
      else cleaned ∷ (if leb left 1 then [] else later)

  -- The end of `_compress_response_text`.
  unfoldable pub clip : ℕ → String → String
  unfolding strip
  clip max_chars result =
      let clipped = strip (before_last_space (take_chars max_chars result)) in
      if leb (chars result) max_chars
      then result
      else if clipped == ""
      then take_chars max_chars result
      else if ends_sentence clipped
      then clipped
      else clipped +++ "."

  -- `_compress_response_text`
  unfoldable pub compress_response_text :
      String → Option String → List ConversationEvent → ℕ → ℕ → String
  unfolding strip is_photo_only_request is_photo_request history_has_technical_specs
      select_sentences clip
  compress_response_text reply inbound_text history max_sentences max_chars =
      let normalized = spaced (tools.split (strip reply)) in
      let only = is_photo_only_request inbound_text in
      let photo = is_photo_request inbound_text in
      let most = if only then 1 else if photo then min max_sentences 2 else max_sentences in
      let size = if only then 220 else if photo then min max_chars 320 else max_chars in
      let selected =
        select_sentences (history_has_technical_specs history) (tools.sentences normalized) []
          most in
      if normalized == ""
      then normalized
      else clip size (if is_empty selected then normalized else spaced selected)

-- `_build_system_prompt`
unfoldable pub build_system_prompt : String → String → String
build_system_prompt prompt current_state =
    prompt
    +++ ("\n\nESTADO ACTUAL: "
        +++ (current_state
            +++ ". Sigue estrictamente el objetivo de este estado segun tus instrucciones.\nEstilo obligatorio de respuesta: maximo 3 a 4 oraciones cortas, directas y conversacionales. No repitas especificaciones tecnicas que ya compartiste en mensajes previos; si ya las mencionaste, da solo un resumen breve y el siguiente paso."))

-- The text of `_build_catalog_inventory_prompt_context` around the units of the inventory.
unfoldable pub inventory_prompt_context : String → String
inventory_prompt_context inventory_snapshot =
    "CONTEXTO DE INVENTARIO REAL (OBLIGATORIO):\n"
    +++ (inventory_snapshot
        +++ "\n\nRegla estricta: solo puedes mencionar unidades que aparezcan en ese bloque. Si no hay resultados, responde que no hay disponibilidad en este momento y ofrece validar con el equipo humano. Si el cliente pide fotos o imagenes de una unidad, usa la herramienta send_inventory_photos con el nombre o SKU de esa unidad. Nunca digas que no puedes mandar fotos: si hay URLs en inventario, debes enviarlas.")
