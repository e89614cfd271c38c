-- ===== src/Inbound/Handler/OptOut.antt =====
-- Opt-outs in core/services/inbound_handler.py and core/services/orchestrator.py.
use super_agent_platform.Base.{
  strip, ℕ, String, ◌≡◌, refl, inl, inr, Bool, true, false, none, some, List, [], ◌∷◌, eq_refl,
  ◌==◌, get_or, Bool-cases, any-append, Fields, ok, ℕ_eq, String_eq,
}
use super_agent_platform.Inbound.Types.{InboundEvent, Session, LeadProfile, MessageClassification}
use super_agent_platform.Inbound.World.{Services, World}
use super_agent_platform.Inbound.Orchestrator.{classify, match_keyword, is_unsupported, Policies}
use super_agent_platform.Outbound.Queue.{is_silenced, silence}
use super_agent_platform.Inbound.Handler.{handle, act_on_intent, ignored}

silence-is_silenced :
    (phone : String) (phones : List String) → is_silenced phone (silence phone phones) ≡ true
unfolding is_silenced silence
silence-is_silenced phone phones = elim (Bool-cases (is_silenced phone phones)) [
  | inl there_before ↦ rw (there_before, silence) there_before
  | inr new ↦
      rw (new, silence)
        (rw (any-append {0} (λ p. p == phone) phones (phone ∷ []))
          (rw new (rw (eq_refl phone) refl)))
]

-- A message of a supported kind in which an opt-out keyword is found is classified as an opt-out,
-- whatever the session and whatever else the text holds.
classify-opt_out :
    (lower : String → String) (word_search : String → String → Bool) (policies : Policies)
    (e : InboundEvent) (session : Session) (keyword : String)
    → is_unsupported e.kind ≡ false
    → match_keyword lower word_search (strip (lower (get_or e.body ""))) policies.opt_out_keywords
      ≡ some keyword
    → (classify lower word_search policies e session).intent ≡ "opt_out"
unfolding classify
classify-opt_out lower word_search policies e session keyword supported found =
    rw (supported, classify) (rw found refl)

opt_out_action :
    (s : Services) (e : InboundEvent) (lead : LeadProfile) (session : Session) (cid : ℕ)
    (c : MessageClassification) (w : World)
    → c.intent ≡ "opt_out"
    → act_on_intent s e lead session cid c w
      ≡ (ok session, record w { silenced = silence e.from_phone w.silenced })
unfolding act_on_intent
opt_out_action s e lead session cid c w h = rw (h, act_on_intent) refl

-- The handler's action on a message of a supported kind with an opt-out keyword makes no request
-- and keeps the session; after it, every message from the phone is left alone: the handler changes
-- nothing at all and answers `silenced`.
pub act_on_intent-opt_out :
    (s : Services) (e again : InboundEvent) (lead : LeadProfile) (session updated : Session)
    (cid : ℕ) (keyword : String) (raw : Fields) (w : World)
    → is_unsupported e.kind ≡ false
    → match_keyword s.python.lower s.word_search
        (strip (s.python.lower (get_or e.body "")))
        s.policies.opt_out_keywords
      ≡ some keyword
    → s.parse_inbound_event raw ≡ some again
    → again.from_phone ≡ e.from_phone
    → let c = classify s.python.lower s.word_search s.policies e session in
      let (r, w') = act_on_intent s e lead updated cid c w in
      (r ≡ ok updated)
      × (w'.mail ≡ w.mail)
      × (w'.media ≡ w.media)
      × (handle s raw w' ≡ (ok (ignored "silenced" none again), w'))
unfolding handle
act_on_intent-opt_out s e again lead session updated cid keyword raw w supported found parsed same =
    let c = classify s.python.lower s.word_search s.policies e session in
    let intent =
      classify-opt_out s.python.lower s.word_search s.policies e session keyword supported found in
    let silent : is_silenced again.from_phone (silence e.from_phone w.silenced) ≡ true =
      rw same (silence-is_silenced e.from_phone w.silenced) in
    rw (opt_out_action s e lead updated cid c w intent)
      (refl, refl, refl, rw (parsed, handle) (rw silent refl))
