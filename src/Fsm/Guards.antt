-- ===== src/Fsm/Guards.antt =====
-- The guards of the state machine: core/fsm/guards.py. Python's tables of characters and its
-- formatting of numbers and objects are parameters.
use super_agent_platform.Base.{
  contains, strip, get, String, Bool, true, false, not, ◌&&◌, Option, none, some, List, [], ◌∷◌,
  ◌==◌, if◌then◌else◌, get_or, any, Value, Fields, null, bool, num, str, uuid, dict, other, end,
  field, ℕ_eq, String_eq,
}
use super_agent_platform.Fsm.Engine.{GuardRegistry}

-- `str.lower`, `str.casefold`, the removal of combining characters after NFKD, `str` of an object
-- that is neither a text, a `bool` nor `None`, and whether `float` of a text is positive, with
-- `none` where it raises.
pub record PythonText : Type 0 where
  pub lower : String → String
  pub casefold : String → String
  pub without_accents : String → String
  pub object_text : Value → String
  pub float_positive : String → Option Bool

-- `context.get(k) is not None`
abbrev pub is_given : Option Value → Bool
is_given none = false
is_given (some null) = false
is_given (some _) = true

-- `bool(value)`
abbrev pub truthy : Option Value → Bool
truthy none = false
truthy (some null) = false
truthy (some (bool b)) = b
truthy (some (num n)) = not (n == 0)
truthy (some (str s)) = not (s == "")
truthy (some (uuid u)) = true
truthy (some (dict end)) = false
truthy (some (dict (field k v d))) = true
truthy (some (other o)) = true

-- `a or b`
abbrev pub value_or : Option Value → Option Value → Option Value
value_or a b = if truthy a then a else b

abbrev pub always_guard : Fields → Bool
always_guard context = true

abbrev pub has_phone_number_guard : Fields → Bool
has_phone_number_guard context = is_given (get "phone" context)

abbrev pub is_not_silenced_guard : Fields → Bool
is_not_silenced_guard context = not (truthy (get "is_silenced" context))

abbrev pub opt_out_detected_guard : Fields → Bool
opt_out_detected_guard context = truthy (get "opt_out_detected" context)

abbrev pub has_name_guard : Fields → Bool
has_name_guard context = is_given (get "name" context)

abbrev pub document_keywords : List String
document_keywords =
    "ficha" ∷ "pdf" ∷ "documento" ∷ "técnica" ∷ "tecnica" ∷ "catálogo" ∷ "catalogo"
    ∷ "especificaciones" ∷ "specs" ∷ "mándame" ∷ "mandame" ∷ "envíame" ∷ "enviame" ∷ "enviar"
    ∷ "corrida" ∷ "información de la unidad" ∷ "informacion de la unidad" ∷ []

abbrev pub handoff_keywords : List String
handoff_keywords =
    "asesor" ∷ "humano" ∷ "persona real" ∷ "agente" ∷ "vendedor" ∷ "ejecutivo" ∷ "quiero hablar"
    ∷ "hablar con alguien" ∷ "me comunicas" ∷ "comunica me" ∷ "comunicame" ∷ "transfiere"
    ∷ "transferir" ∷ "con alguien" ∷ []

module _ (python : PythonText) where
  open python use {lower, casefold, without_accents, object_text, float_positive}

  -- `str(value)`
  unfoldable pub text_of_value : Value → String
  text_of_value null = "None"
  text_of_value (bool b) = if b then "True" else "False"
  text_of_value (str s) = s
  text_of_value v = object_text v

  -- `str(value or "")`
  unfoldable pub text_or_empty : Option Value → String
  unfolding text_of_value
  text_or_empty v = if truthy v then (elim v [ none ↦ "" | some x ↦ text_of_value x ]) else ""

  unfoldable pub user_requested_document_guard : Fields → Bool
  unfolding text_or_empty
  user_requested_document_guard context =
      let text = lower (text_or_empty (get "inbound_text" context)) in
      any (λ kw. contains kw text) document_keywords

  -- `_normalize_text`
  unfoldable pub normalize_text : Option Value → String
  unfolding text_or_empty
  normalize_text value = casefold (without_accents (text_or_empty value))

  unfoldable pub user_requested_handoff_guard : Fields → Bool
  unfolding normalize_text
  user_requested_handoff_guard context =
      let text = normalize_text (get "inbound_text" context) in
      any (λ keyword. contains keyword text) handoff_keywords

  unfoldable pub has_vehicle_interest_guard : Fields → Bool
  unfolding text_or_empty
  has_vehicle_interest_guard context =
      let val = value_or (get "vehicle_interest" context) (get "vehiculo_interes" context) in
      truthy val && not (strip (text_or_empty val) == "")

  unfoldable pub has_budget_guard : Fields → Bool
  unfolding text_of_value
  has_budget_guard context =
      elim (float_positive (text_of_value (get_or (get "budget" context) null))) [
        | none ↦ false
        | some positive ↦ positive
      ]

  unfoldable pub build_default_guard_registry : GuardRegistry
  unfolding user_requested_document_guard user_requested_handoff_guard has_vehicle_interest_guard
      has_budget_guard
  build_default_guard_registry =
      ("always", always_guard)
      ∷ ("has_phone_number", has_phone_number_guard)
      ∷ ("is_not_silenced", is_not_silenced_guard)
      ∷ ("opt_out_detected", opt_out_detected_guard)
      ∷ ("has_name", has_name_guard)
      ∷ ("user_requested_document", user_requested_document_guard)
      ∷ ("user_requested_handoff", user_requested_handoff_guard)
      ∷ ("has_vehicle_interest", has_vehicle_interest_guard)
      ∷ ("has_budget", has_budget_guard)
      ∷ []
