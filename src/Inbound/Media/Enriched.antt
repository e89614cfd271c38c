-- ===== src/Inbound/Media/Enriched.antt =====
-- What `_enrich_event_for_processing` of core/services/inbound_handler.py leaves as it was.
use super_agent_platform.Inbound.World.{
  MediaRequest, Services, get_media_base64, World, fetch, transcribe, analyze,
}
use super_agent_platform.Inbound.Types.{MessageKind, InboundEvent}
use super_agent_platform.Inbound.Media.{
  image_failure, transcribed_event, described_event, transcribe_audio, enrich_audio_event,
  enrich_image_event, enrich_kind, enrich_event,
}
use super_agent_platform.Base.{
  String, ◌≡◌, refl, ap, ◌∙◌, inl, inr, Option, none, some, [], ◌∷◌, ◌++◌, ◌==◌, Bool-cases, str_or,
  Result, Exec, pure, bind_result, ◌>>=◌, ok, err, ℕ_eq, String_eq,
}

-- The media of an event change none of these.
pub record SameMessage (e e' : InboundEvent) : Type 0 where
  pub message_id : e'.message_id ≡ e.message_id
  pub from_phone : e'.from_phone ≡ e.from_phone
  pub event_type : e'.event_type ≡ e.event_type

abbrev pub same_message : (e : InboundEvent) → SameMessage e e
same_message e = record { message_id = refl; from_phone = refl; event_type = refl }

-- Nothing but the requests for media differs.
abbrev pub OnlyMedia : World → World → Type 0
OnlyMedia w w' = w' ≡ record w { media = w'.media }

-- A run that changes nothing but the requests for media, also where it raises, and that returns an
-- event of the same message.
abbrev pub Enriches : InboundEvent → World → Result (InboundEvent × Option String) × World → Type 0
Enriches e w (ok (e', failure), w') = SameMessage e e' × OnlyMedia w w'
Enriches e w (err x, w') = OnlyMedia w w'

OnlyMedia-trans : (w w' w'' : World) → OnlyMedia w w' → OnlyMedia w' w'' → OnlyMedia w w''
OnlyMedia-trans w w' w'' a b = b ∙ ap (λ (v : World). record v { media = w''.media }) a

later-Enriches :
    (e : InboundEvent) (w w' : World) (x : Result (InboundEvent × Option String) × World)
    → OnlyMedia w w'
    → Enriches e w' x
    → Enriches e w x
later-Enriches e w w' (ok (e', failure), w'') a (same, b) = (same, OnlyMedia-trans w w' w'' a b)
later-Enriches e w w' (err x, w'') a b = OnlyMedia-trans w w' w'' a b

pub Enriches-OnlyMedia :
    (e : InboundEvent) (w : World) (x : Result (InboundEvent × Option String) × World)
    → Enriches e w x
    → OnlyMedia w x.1
Enriches-OnlyMedia e w (ok (e', failure), w') (same, only) = only
Enriches-OnlyMedia e w (err x, w') only = only

transcribed-SameMessage :
    (e : InboundEvent) (transcription : String)
    → SameMessage e (transcribed_event e transcription).0
unfolding transcribed_event
transcribed-SameMessage e transcription = elim (Bool-cases (transcription == "")) [
  | inl empty ↦ rw empty (same_message e)
  | inr full ↦ rw full (record { message_id = refl; from_phone = refl; event_type = refl })
]

described-SameMessage :
    (e : InboundEvent) (description : Option String)
    → SameMessage e (described_event e description).0
unfolding described_event
described-SameMessage e none = record { message_id = refl; from_phone = refl; event_type = refl }
described-SameMessage e (some description) = record {
  message_id = refl;
  from_phone = refl;
  event_type = refl;
}

module _ (s : Services) where
  -- A request for media and what follows it.
  fetch-Enriches :
      (e : InboundEvent) (request : MediaRequest)
      (k : Option String → Exec World (InboundEvent × Option String)) (w : World)
      → ((a : Option String) (w' : World) → Enriches e w' (k a w'))
      → Enriches e w ((fetch s request >>= k) w)
  fetch-Enriches e request k w next = go (s.answer_media w.media request)
    where
      go :
          (r : Result (Option String))
          → Enriches e w
              (bind_result {A = Option String} (r, record w { media = w.media ++ request ∷ [] }) k)
      go (ok a) =
          let w' : World = record w { media = w.media ++ request ∷ [] } in
          later-Enriches e w w' (k a w') refl (next a w')
      go (err x) = refl

  transcribe_audio-Enriches :
      (e : InboundEvent) (audio_base64 : String) (w : World)
      → Enriches e w (transcribe_audio s e audio_base64 w)
  unfolding transcribe_audio
  transcribe_audio-Enriches e audio_base64 w = elim (Bool-cases (audio_base64 == "")) [
    | inl empty ↦ rw empty (same_message e, refl)
    | inr full ↦ rw full (
        fetch-Enriches e (transcribe audio_base64 "audio/ogg")
          (λ t. pure (transcribed_event e (str_or t ""))) w
          (λ t w'. (transcribed-SameMessage e (str_or t ""), refl)))
  ]

  image-Enriches : (e : InboundEvent) (w : World) → Enriches e w (enrich_image_event s e w)
  unfolding enrich_image_event
  image-Enriches e w = go e.media_url
    where
      go :
          (url : Option String)
          → Enriches e w (
              (elim url as (λ (_ : Option String). Exec World (InboundEvent × Option String)) [
                | none ↦ pure (e, some image_failure)
                | some u ↦ fetch s (analyze u) >>= λ d. pure (described_event e d)
              ])
                w)
      go none = (same_message e, refl)
      go (some u) =
          fetch-Enriches e (analyze u) (λ d. pure (described_event e d)) w
            (λ d w'. (described-SameMessage e d, refl))

  kind-Enriches :
      (k : MessageKind) (e : InboundEvent) (w : World) → Enriches e w (enrich_kind s k e w)
  unfolding enrich_kind enrich_audio_event
  kind-Enriches MessageKind.text e w = (same_message e, refl)
  kind-Enriches MessageKind.image e w = image-Enriches e w
  kind-Enriches MessageKind.audio e w =
      fetch-Enriches e (get_media_base64 e.message_id e.sender_id)
        (λ a. transcribe_audio s e (str_or a "")) w
        (λ a w'. transcribe_audio-Enriches e (str_or a "") w')
  kind-Enriches MessageKind.document e w = (same_message e, refl)
  kind-Enriches MessageKind.video e w = (same_message e, refl)
  kind-Enriches MessageKind.sticker e w = (same_message e, refl)
  kind-Enriches MessageKind.location e w = (same_message e, refl)
  kind-Enriches MessageKind.contact e w = (same_message e, refl)
  kind-Enriches MessageKind.reaction e w = (same_message e, refl)
  kind-Enriches MessageKind.unsupported e w = (same_message e, refl)

  pub enrich_event-Enriches : (e : InboundEvent) (w : World) → Enriches e w (enrich_event s e w)
  unfolding enrich_event
  enrich_event-Enriches e w = kind-Enriches e.kind e w
