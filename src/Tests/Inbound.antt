-- ===== src/Tests/Inbound.antt =====
-- The handler of inbound messages and the debounce at concrete messages.
use super_agent_platform.Inbound.Media.Enriched.{OnlyMedia}
use super_agent_platform.Inbound.Store.{append, get_by_phone, get_by_lead_id}
use super_agent_platform.Inbound.HandoffService.{take_control, release_control}
use super_agent_platform.Inbound.HandoffService.Control.{
  Controls, moved_session, take_control-IsCalm, take_control-release_control,
}
use super_agent_platform.Base.{
  strip, ◌+◌, String, ◌≡◌, refl, ap, true, false, Option, none, some, [], ◌∷◌, ◌++◌, ◌==◌, length,
  all, Fields, str, end, field, Result, ◌>>◌, skip, runtime_error, ok, err, ℕ_eq, String_eq,
}
use super_agent_platform.Inbound.Types.{InboundEvent, MessageKind, Session, LeadProfile, audio}
use super_agent_platform.Inbound.World.{
  Services, World, MediaRequest, get_media_base64, transcribe, analyze,
}
use super_agent_platform.Inbound.World
use super_agent_platform.Inbound.Orchestrator.{match_keyword, classify}
use super_agent_platform.Inbound.Handler.{handle, ignored, append_event, act_on_intent}
use super_agent_platform.Inbound.Handler.Ignored.{Untouched, handle_ignored-Untouched}
use super_agent_platform.Inbound.Handler.Handoff.{IsCalm, handle-IsCalm}
use super_agent_platform.Inbound.Handler.Redelivery.{handle_redelivered, delivered_again}
use super_agent_platform.Inbound.Handler.OptOut.{act_on_intent-opt_out}
use super_agent_platform.Inbound.Media.{enrich_event}
use super_agent_platform.Inbound.Debounce.{run, idle, returned, arrive, wake, throw}
use super_agent_platform.Inbound.Debounce.Tidy.{outcome}
use super_agent_platform.Inbound.Debounce.Latest.{quiet, run_latest}
use super_agent_platform.Outbound.Queue.{is_silenced}
use super_agent_platform.Fsm.Guards.{PythonText}

abbrev message : String → InboundEvent
message body = record {
  message_id = "m1";
  from_phone = "5551";
  kind = MessageKind.text;
  body = some body;
  media_url = none;
  raw_metadata = end;
  received_at = 100;
  sender_id = "5551";
  channel = "whatsapp";
  event_type = "inbound_message";
  occurred_at = none;
  metadata = end;
}

abbrev parse : Fields → Option InboundEvent
parse end = none
parse (field key (str body) rest) = some (message body)
parse (field key _ rest) = none

abbrev python : PythonText
python = record {
  lower = λ t. t;
  casefold = λ t. t;
  without_accents = λ t. t;
  object_text = λ v. "";
  float_positive = λ t. none;
}

-- A voice note is found, the transcription is out of service, and nothing is seen in an image.
abbrev media_answer : MediaRequest → Result (Option String)
media_answer (get_media_base64 m p) = ok (some "T2dn")
media_answer (transcribe a mime_type) = err (runtime_error "timeout")
media_answer (analyze u) = ok none

abbrev services : Services
services = record {
  parse_inbound_event = parse;
  answer_media = λ made request. media_answer request;
  answer = λ sent r. ok tt;
  log_turn = none;
  respond = λ e session history. skip;
  extract = λ t slots. slots;
  hints = λ t. end;
  parse_float = λ t. none;
  settles = λ e. true;
  accumulates = false;
  conversation_id_of = λ p. 9;
  uuid_text = λ n. "id";
  parse_uuid = λ t. none;
  parse_aggregate_id = λ t. 0;
  file_name_of = λ u. u;
  isoformat = λ t. "";
  words = λ t. t ∷ [];
  python = python;
  word_search = λ keyword t. keyword == t;
  policies = record {
    opt_out_keywords = "baja" ∷ "stop" ∷ [];
    handoff_keywords = "asesor" ∷ [];
    handoff_response_text = "";
  };
  fsm_config = record { initial_state = "idle"; states = [] };
  branch_provider = record {
    get_branch_by_key = λ k. none;
    get_branch_by_centro = λ c. none;
    list_branches = [];
  };
  brand = none;
  now = 100;
}

abbrev lead : LeadProfile
lead = record {
  id = 1;
  external_crm_id = none;
  phone = "5551";
  name = none;
  source = "whatsapp_inbound";
  attributes = end;
  created_at = 0;
  updated_at = 0;
}

abbrev session : Session
session = record {
  id = 2;
  lead_id = 1;
  current_state = "handoff_active";
  context = end;
  created_at = 0;
  updated_at = 0;
  last_event_at = none;
}

abbrev world : World.World
world = record {
  events = [];
  leads = lead ∷ [];
  sessions = session ∷ [];
  outbox = record { rows = []; dlq_rows = []; indexed = true };
  silenced = [];
  mail = [];
  media = [];
  turns = [];
  next_id = 10;
}

abbrev raw : Fields
raw = field "body" (str "stop") end

lead_found : get_by_phone "5551" world.leads ≡ some lead
unfolding get_by_phone
lead_found = refl

session_found : get_by_lead_id 1 world.sessions ≡ some session
unfolding get_by_lead_id
session_found = refl

handle-IsCalm_example : IsCalm world (handle services raw world).1
handle-IsCalm_example =
    handle-IsCalm services raw (message "stop") lead session world refl lead_found session_found
      refl

-- An adviser takes the conversation and releases it.
abbrev open_session : Session
open_session = record session { current_state = "greeting" }

abbrev open_world : World.World
open_world = record world { sessions = open_session ∷ [] }

open_session_found : get_by_lead_id 1 open_world.sessions ≡ some open_session
unfolding get_by_lead_id
open_session_found = refl

take_control-IsCalm_example :
    let (r, w') = take_control services 1 open_world in
    (r ≡ ok (moved_session "handoff_active" 100 open_session))
    × IsCalm w' (handle services raw w').1
take_control-IsCalm_example =
    take_control-IsCalm services raw (message "stop") lead open_session open_world refl lead_found
      open_session_found

take_control-release_control_example :
    Controls services 1
      (moved_session "idle" 100 open_session)
      open_world
      ((take_control services 1 >> release_control services 1) open_world)
take_control-release_control_example =
    take_control-release_control services 1 open_session open_world open_session_found

-- A payload from a silenced phone.
abbrev silent_world : World.World
silent_world = record world { silenced = "5551" ∷ [] }

answers_silenced :
    handle services raw silent_world ≡ (ok (ignored "silenced" none (message "stop")), silent_world)
unfolding handle is_silenced
answers_silenced = refl

handle_ignored-Untouched_example : Untouched silent_world (handle services raw silent_world).1
handle_ignored-Untouched_example =
    handle_ignored-Untouched services raw silent_world (ignored "silenced" none (message "stop"))
      (ap (λ x. x.0) answers_silenced) refl

-- The same message again, after its event was appended.
abbrev later : World.World
later = (append_event services 9 (message "stop") world).1

heard : is_silenced "5551" later.silenced ≡ false
unfolding is_silenced append_event
heard = refl

nothing_more : later.events ≡ later.events ++ []
unfolding append_event append
nothing_more = refl

handle_redelivered_example :
    (handle services raw later
      ≡ delivered_again services (message "stop") (enrich_event services (message "stop") later))
    × OnlyMedia later (enrich_event services (message "stop") later).1
handle_redelivered_example =
    handle_redelivered services 9 (message "stop") (message "stop") world [] refl refl refl raw
      later refl heard nothing_more

told_duplicate :
    delivered_again services (message "stop") (enrich_event services (message "stop") later) ≡ (
      ok (ignored "duplicate" (some 9) (message "stop")),
      record later { next_id = later.next_id + 1 },
    )
unfolding delivered_again enrich_event
told_duplicate = refl

-- A voice note whose transcription raises: the exception goes through, and both requests were made.
abbrev voice_note : InboundEvent
voice_note = record (message "") { kind = audio }

voice_note_raises : enrich_event services voice_note world ≡ (
  err (runtime_error "timeout"),
  record world {
    media =
        get_media_base64 voice_note.message_id voice_note.sender_id
        ∷ transcribe "T2dn" "audio/ogg"
        ∷ [];
  },
)
unfolding enrich_event
voice_note_raises = refl

stop_found :
    match_keyword python.lower services.word_search
      (strip "stop")
      services.policies.opt_out_keywords
    ≡ some "stop"
unfolding match_keyword strip
stop_found = refl

act_on_intent-opt_out_example :
    let c = classify python.lower services.word_search services.policies (message "stop") session in
    let (r, w') = act_on_intent services (message "stop") lead session 9 c world in
    (r ≡ ok session)
    × (w'.mail ≡ world.mail)
    × (w'.media ≡ world.media)
    × (handle services raw w' ≡ (ok (ignored "silenced" none (message "stop")), w'))
act_on_intent-opt_out_example =
    act_on_intent-opt_out services (message "stop") (message "stop") lead session session 9 "stop"
      raw world refl stop_found refl refl

one_quiet : all (quiet (length (run (arrive "a" ∷ []) idle).tasks)) (throw 0 ∷ wake 0 ∷ []) ≡ true
unfolding run
one_quiet = refl

-- The task of the last one answers, and that of the first was cancelled.
run_latest_example :
    let k = length (run (arrive "a" ∷ []) idle).tasks in
    outcome k
      (run ((arrive "a" ∷ []) ++ arrive "b" ∷ ((throw 0 ∷ wake 0 ∷ []) ++ wake k ∷ [])) idle)
    ≡ some (returned true)
run_latest_example = run_latest (arrive "a" ∷ []) (throw 0 ∷ wake 0 ∷ []) "b" one_quiet
