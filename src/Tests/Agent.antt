-- ===== src/Tests/Agent.antt =====
-- The agent of core/services/conversation_agent.py with a model that is always busy.
use super_agent_platform.Base.{
  ℕ, ◌+◌, ◌≤◌, ◌≡◌, refl, false, none, some, [], ◌∷◌, end, value_error, ok, err,
}
use super_agent_platform.Inbound.Types.{MessageKind, InboundEvent, Session}
use super_agent_platform.Agent.Policies.{TextTools}
use super_agent_platform.Agent.Ports.{Ports, execute_all, tool_rounds, run_tool_calling_loop}
use super_agent_platform.Agent.Respond.{respond}
use super_agent_platform.Agent.Bounded.{Metered, respond_bounded}

abbrev tools : TextTools
tools = record {
  lower = λ s. s;
  casefold = λ s. s;
  split = λ s. s ∷ [];
  tokens = λ s. s ∷ [];
  collapse = λ s. s;
  find_words = λ s. s ∷ [];
  sentences = λ s. s ∷ [];
  dedup_key = λ s. s;
}

-- The model asks for the inventory each time; the state counts the requests to it.
abbrev busy : Ports ℕ
busy = record {
  tools = tools;
  complete = λ messages system schemas n. (
    ok (record {
      content = "Hola";
      finish_reason = "tool_calls";
      tool_calls = record { id = "1"; name = "query_inventory"; arguments = end } ∷ [];
      metadata = end;
    }),
    n + 1,
  );
  send_text = λ to reply correlation_id n. (ok "wamid", n);
  list_by_conversation = λ id limit n. (ok [], n);
  append = λ e n. (ok tt, n);
  tool_schemas = record { name = "query_inventory"; description = ""; input_schema = end } ∷ [];
  execute_tool = λ call phone correlation_id n. (
    ok (record {
      tool_call_id = call.id;
      name = call.name;
      content = "[]";
      is_error = false;
      metadata = end;
    }),
    n,
  );
  query_inventory = λ product most n. (ok "", n);
  send_inventory_photos = λ product phone correlation_id n. (err (value_error "sin fotos"), n);
  uuid5 = λ s. 7;
  uuid4 = λ n. (ok 8, n);
  now = λ n. (ok 9, n);
  prompt = "";
  handoff_waiting = "Un asesor te atiende";
  friction_escalation = "Te paso con un asesor";
  both_llms_failed = [];
}

abbrev meter : Metered busy
meter = record {
  asked = λ n. n;
  complete_law = λ messages system schemas n. refl;
  send_law = λ to content trace n. refl;
  list_law = λ id limit n. refl;
  append_law = λ e n. refl;
  tool_law = λ call phone trace n. refl;
  inventory_law = λ hint most n. refl;
  photos_law = λ product phone trace n. refl;
  uuid4_law = λ n. refl;
  now_law = λ n. refl;
}

abbrev question : InboundEvent
question = record {
  message_id = "m1";
  from_phone = "5215550001";
  kind = MessageKind.text;
  body = some "Que unidades tienes?";
  media_url = none;
  raw_metadata = end;
  received_at = 0;
  sender_id = "";
  channel = "whatsapp";
  event_type = "inbound_message";
  occurred_at = none;
  metadata = end;
}

abbrev browsing : Session
browsing = record {
  id = 1;
  lead_id = 2;
  current_state = "catalog_navigation";
  context = end;
  created_at = 0;
  updated_at = 0;
  last_event_at = none;
}

-- A run of three rounds.
three_rounds : (run_tool_calling_loop busy [] "" "5215550001" "m1" ("query_inventory" ∷ []) 0).1 ≡ 3
unfolding run_tool_calling_loop tool_rounds execute_all
three_rounds = refl

respond_bounded_example :
    ((respond busy question browsing none 0).0 ≡ ok tt)
    × ((respond busy question browsing none 0).1 ≤ 0 + 9)
respond_bounded_example = respond_bounded busy meter question browsing none 0
