-- ===== src/Inbound/Media.antt =====
-- Voice notes and images: `_enrich_event_for_processing` of core/services/inbound_handler.py. The
-- services are asked before the event is appended, and what they raise goes through the handler.
pub mod Enriched
use super_agent_platform.Inbound.World.{
  Services, get_media_base64, World, fetch, transcribe, analyze,
}
use super_agent_platform.Inbound.Types.{MessageKind, InboundEvent, text, image, audio}
use super_agent_platform.Base.{
  put, String, ◌+++◌, true, Option, none, some, ◌==◌, if◌then◌else◌, str_or, bool, str, Exec, pure,
  ◌>>=◌, ℕ_eq, String_eq,
}

abbrev pub image_failure : String
image_failure =
    "Vi que me mandaste una imagen, pero no pude verla bien. Puedes decirme que me quieres mostrar?"

-- What `_enrich_audio_event` returns for a transcription; an empty one counts as none.
unfoldable pub transcribed_event : InboundEvent → String → InboundEvent × Option String
transcribed_event e transcription =
    if transcription == "" then (e, some "No entendí bien el audio. ¿Me puedes escribir?") else (
      record e {
        kind = text;
        body = some ("[Mensaje de voz transcrito: \"" +++ transcription +++ "\"]");
      },
      none,
    )

-- What `_enrich_image_event` returns for a description.
unfoldable pub described_event : InboundEvent → Option String → InboundEvent × Option String
described_event e none =
    (record e { metadata = put "image_analysis_failed" (bool true) e.metadata }, some image_failure)
described_event e (some description) =
    let image_context = "[El cliente envio una imagen: " +++ description +++ "]" in
    let said = str_or e.body "" in
    (
      record e {
        body = some (if said == "" then image_context else said +++ "\n" +++ image_context);
        metadata = put "image_description" (str description) e.metadata;
      },
      none,
    )

module _ (s : Services) where
  -- `_enrich_audio_event` after the media were fetched; an empty answer counts as none.
  unfoldable pub transcribe_audio :
      InboundEvent → String → Exec World (InboundEvent × Option String)
  unfolding transcribed_event
  transcribe_audio e audio_base64 =
      if audio_base64 == ""
      then pure (e, some "No pude escuchar el audio. ¿Me puedes escribir lo que necesitas?")
      else (fetch s (transcribe audio_base64 "audio/ogg") >>= λ transcription.
          pure (transcribed_event e (str_or transcription "")))

  -- `_enrich_audio_event`
  unfoldable pub enrich_audio_event : InboundEvent → Exec World (InboundEvent × Option String)
  unfolding transcribe_audio
  enrich_audio_event e = fetch s (get_media_base64 e.message_id e.sender_id) >>= λ audio_base64.
      transcribe_audio e (str_or audio_base64 "")

  -- `_enrich_image_event`
  unfoldable pub enrich_image_event : InboundEvent → Exec World (InboundEvent × Option String)
  unfolding described_event
  enrich_image_event e = elim e.media_url [
    | none ↦ pure (e, some image_failure)
    | some url ↦ fetch s (analyze url) >>= λ description. pure (described_event e description)
  ]

  unfoldable pub enrich_kind :
      MessageKind → InboundEvent → Exec World (InboundEvent × Option String)
  unfolding enrich_audio_event enrich_image_event
  enrich_kind audio e = enrich_audio_event e
  enrich_kind image e = enrich_image_event e
  enrich_kind _ e = pure (e, none)

  -- `_enrich_event_for_processing`: the event, and the reply where its media failed.
  unfoldable pub enrich_event : InboundEvent → Exec World (InboundEvent × Option String)
  unfolding enrich_kind
  enrich_event e = enrich_kind e.kind e
