-- ===== src/Messaging.antt =====
-- The messaging port: core/ports/messaging_provider.py. The provider, which talks to WhatsApp, is a
-- parameter; `M` is its state. Properties take `recorder`, the provider that answers as it likes
-- and keeps every request.
use super_agent_platform.Base.{ℕ, String, List, [], ◌∷◌, ◌++◌, Result, Exec}

-- A `correlation_id`: the text of an item's identifier, or a text.
pub data Correlation : Type 0 where
  item : ℕ → Correlation
  trace : String → Correlation

pub record MessagingProvider (M : Type 0) : Type 0 where
  pub send_text : String → String → Correlation → Exec M (Unit {0})
  pub send_document : String → String → String → Correlation → Exec M (Unit {0})

-- A request to the provider, with the number asked to be messaged.
pub record Request : Type 0 where
  pub to : String
  pub content : String
  pub correlation : Correlation

-- The provider that keeps the requests, and answers by what was asked before.
abbrev pub recorder :
    (List Request → Request → Result (Unit {0})) → MessagingProvider (List Request)
recorder answer = record {
  send_text = λ to text correlation requests.
      let r : Request = record { to = to; content = text; correlation = correlation } in
      (answer requests r, requests ++ r ∷ []);
  send_document = λ to url filename correlation requests.
      let r : Request = record { to = to; content = url; correlation = correlation } in
      (answer requests r, requests ++ r ∷ []);
}
