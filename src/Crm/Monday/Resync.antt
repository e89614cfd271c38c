-- ===== src/Crm/Monday/Resync.antt =====
-- `upsert_lead` of adapters/crm/monday_adapter.py for an item that is known.
use super_agent_platform.Crm.Monday.Api.{non_empty, Client, change_columns}
use super_agent_platform.Crm.Monday.Upsert.{
  stripped_id, attribute_id, known_id, find_unless_known, with_fallback, send_columns, update_item,
  write_lead, upsert_lead,
}
use super_agent_platform.Base.{
  strip, get, put, String, ◌≡◌, refl, sym, ap, ◌∙◌, subst, inl, inr, true, Option, none, some,
  arith, ◌==◌, if◌then◌else◌, or_else, Bool-cases, some_injective, strip_idem, Value, Fields,
  get-put, null, bool, num, str, uuid, dict, other, end, field, Result, pure, ◌>>=◌, >>=-eq-ok, ok,
  err, ℕ_eq, String_eq,
}
use super_agent_platform.Crm.Worker.{Lead}
use super_agent_platform.Crm.Monday.Columns.{
  is_end, synced, previous_snapshot, snapshot_lead_columns, diff_columns, resolve_lead_name,
  base_columns, optional_columns, request_columns,
}
use super_agent_platform.Crm.Monday.Sync.{diff_columns-snapshot}
use super_agent_platform.Crm.Monday.Payload.{
  with_attribute, payload-Distinct, request_columns-with_attribute,
}

non_empty-strip : (s id : String) → non_empty (strip s) ≡ some id → non_empty (strip id) ≡ some id
non_empty-strip s id h = elim (Bool-cases (strip s == "")) [
  | inl empty ↦ absurd (ground arith)
  | inr full ↦
      let e : strip s ≡ id =
        some_injective (sym (ap (λ b. if b then none else some (strip s)) full) ∙ h) in
      subst (λ t. non_empty (strip t) ≡ some id) e (ap non_empty (strip_idem s) ∙ h)
]

known_later :
    (id : String) (o p q : Option String)
    → or_else o p ≡ some id
    → (p ≡ some id → q ≡ some id)
    → or_else o q ≡ some id
known_later id none p q h k = k h
known_later id (some x) p q h k = h

module _ {S : Type 0} (client : Client S) where
  -- An identifier that was found is found again where it is the attribute.
  attribute_id-again :
      (v : Option Value) (id : String)
      → attribute_id client v ≡ some id
      → non_empty (strip id) ≡ some id
  attribute_id-again none id h = absurd (ground arith)
  attribute_id-again (some null) id h = absurd (ground arith)
  attribute_id-again (some (str s)) id h = non_empty-strip s id h
  attribute_id-again (some (bool b)) id h = non_empty-strip (client.host.to_text (bool b)) id h
  attribute_id-again (some (num n)) id h = non_empty-strip (client.host.to_text (num n)) id h
  attribute_id-again (some (uuid n)) id h = non_empty-strip (client.host.to_text (uuid n)) id h
  attribute_id-again (some (dict d)) id h = non_empty-strip (client.host.to_text (dict d)) id h
  attribute_id-again (some (other n)) id h = non_empty-strip (client.host.to_text (other n)) id h

  known_id-again :
      (lead : Lead) (id : String) (attributes : Fields)
      → known_id client lead ≡ some id
      → get "monday_id" attributes ≡ some (str id)
      → known_id client (record lead { attributes = attributes }) ≡ some id
  unfolding known_id
  known_id-again lead id attributes known stored =
      known_later id (stripped_id client lead.external_id)
        (attribute_id client (get "monday_id" lead.attributes))
        (attribute_id client (get "monday_id" attributes)) known
        (λ h.
          ap (attribute_id client) stored
          ∙ attribute_id-again (get "monday_id" lead.attributes) id h)

  pub upsert_lead-known :
      (lead : Lead) (id : String) (w : S)
      → known_id client lead ≡ some id
      → upsert_lead client lead w ≡ update_item client lead id w
  unfolding upsert_lead find_unless_known write_lead
  upsert_lead-known lead id w h =
      ap (λ o. (find_unless_known client lead o >>= write_lead client lead) w) h

  -- An update of an item for which nothing has changed.
  update_item-unchanged :
      (lead : Lead) (id : String) (w : S)
      → diff_columns client.host
          (previous_snapshot lead)
          (synced (request_columns client.host lead))
        ≡ end
      → update_item client lead id w ≡ (ok (id, put "monday_id" (str id) lead.attributes), w)
  unfolding update_item
  update_item-unchanged lead id w h = rw h refl

  -- What a run that did not raise returned.
  returned :
      {a b : String × Fields} {v w : S}
      → ◌≡◌ {A = Result (String × Fields) × S} (ok a, v) (ok b, w)
      → a ≡ b
  returned {a = a} h =
      ap (λ (r : Result (String × Fields) × S). elim r.0 [ ok x ↦ x | err e ↦ a ]) h

  send_columns_lem :
      (lead : Lead) (id : String) (full payload : Fields) (w : S) {r : String × Fields} {w' : S}
      → send_columns client lead id full payload w ≡ (ok r, w')
      → (
        id,
        put "monday_col_snapshot"
            (dict (snapshot_lead_columns client.host full))
            (put "monday_id" (str id) lead.attributes),
      )
        ≡ r
  unfolding send_columns
  send_columns_lem lead id full payload w {r} {w'} h =
      let name = resolve_lead_name client.host lead in
      let (_, _, _, end_of) =
        >>=-eq-ok
          (with_fallback client (optional_columns client.host lead name) (change_columns id payload)
            (change_columns id (synced (base_columns client.host lead name))))
          (λ _. pure (
            id,
            put "monday_col_snapshot" (dict (snapshot_lead_columns client.host full))
                (put "monday_id" (str id) lead.attributes),
          ))
          w h in
      returned end_of

  -- The attributes of a lead whose columns were sent.
  abbrev Settled : Lead → String → String → Fields → Type 0
  Settled lead id found attributes =
      let lead' = record lead { attributes = attributes } in
      (id ≡ found)
      × (get "monday_id" attributes ≡ some (str id))
      × (diff_columns client.host (previous_snapshot lead')
            (synced (request_columns client.host lead'))
          ≡ end)

  is_end_lem : (d : Fields) → is_end d ≡ true → d ≡ end
  is_end_lem end h = refl
  is_end_lem (field k v d) h = absurd (ground arith)

  unsent-Settled :
      (lead : Lead) (id : String)
      → diff_columns client.host
          (previous_snapshot lead)
          (synced (request_columns client.host lead))
        ≡ end
      → Settled lead id id (put "monday_id" (str id) lead.attributes)
  unsent-Settled lead id h = (
    refl,
    get-put "monday_id" "monday_id" (str id) lead.attributes,
    rw
        (
          get-put "monday_id" "monday_col_snapshot" (str id) lead.attributes,
          request_columns-with_attribute client.host "monday_id" (str id) lead
              (refl, refl, refl, refl, refl),
        )
        h,
  )

  sent-Settled :
      (lead : Lead) (id : String)
      → Settled lead id id (
          put "monday_col_snapshot"
            (dict (snapshot_lead_columns client.host (synced (request_columns client.host lead))))
            (put "monday_id" (str id) lead.attributes))
  sent-Settled lead id =
      let full = synced (request_columns client.host lead) in
      let snapshot = dict (snapshot_lead_columns client.host full) in
      let stored = put "monday_id" (str id) lead.attributes in
      (
        refl,
        get-put "monday_col_snapshot" "monday_id" snapshot stored
            ∙ get-put "monday_id" "monday_id" (str id) lead.attributes,
        rw
            (
              get-put "monday_col_snapshot" "monday_col_snapshot" snapshot stored,
              request_columns-with_attribute client.host "monday_col_snapshot" snapshot
                  (with_attribute "monday_id" (str id) lead) (refl, refl, refl, refl, refl),
              request_columns-with_attribute client.host "monday_id" (str id) lead
                  (refl, refl, refl, refl, refl),
            )
            (diff_columns-snapshot client.host full (payload-Distinct client.host lead)),
      )

  update_item-Settled :
      (lead : Lead) (id found : String) (attributes : Fields) (w w' : S)
      → update_item client lead id w ≡ (ok (found, attributes), w')
      → Settled lead id found attributes
  unfolding update_item
  update_item-Settled lead id found attributes w w' h =
      let full = synced (request_columns client.host lead) in
      let payload = diff_columns client.host (previous_snapshot lead) full in
      elim (Bool-cases (is_end payload)) [
        | inl none_changed ↦
            let nothing = is_end_lem payload none_changed in
            subst (λ (x : String × Fields). Settled lead id x.0 x.1)
              (returned (sym (update_item-unchanged lead id w nothing) ∙ h))
              (unsent-Settled lead id nothing)
        | inr changed ↦
            subst (λ (x : String × Fields). Settled lead id x.0 x.1)
              (send_columns_lem lead id full payload w (
                subst
                  (λ b.
                    (if b
                        then pure (id, put "monday_id" (str id) lead.attributes)
                        else send_columns client lead id full payload)
                      w
                    ≡ (ok (found, attributes), w'))
                  changed h))
              (sent-Settled lead id)
      ]

module _ {S : Type 0} (client later : Client S) where
  known_id-host :
      (lead : Lead) → later.host ≡ client.host → known_id later lead ≡ known_id client lead
  unfolding known_id
  known_id-host lead same = ap (λ h. known_id (record later { host = h }) lead) same

  -- Once a lead whose item is known was sent to the board, sending the lead again on the same day
  -- and with the same settings, with the attributes that the call left in it, sends nothing,
  -- whatever the board would answer by then: no request is made and the same identifier is
  -- returned.
  pub upsert_lead-again :
      (lead : Lead) (id found : String) (attributes : Fields) (w w' w'' : S)
      → later.host ≡ client.host
      → known_id client lead ≡ some id
      → upsert_lead client lead w ≡ (ok (found, attributes), w')
      → upsert_lead later (record lead { attributes = attributes }) w''
        ≡ (ok (found, put "monday_id" (str found) attributes), w'')
  upsert_lead-again lead id found attributes w w' w'' same_host known h =
      let lead' = record lead { attributes = attributes } in
      let (same, stored, unchanged) =
        update_item-Settled client lead id found attributes w w'
          (sym (upsert_lead-known client lead id w known) ∙ h) in
      upsert_lead-known later lead' id w''
        (known_id-host lead' same_host ∙ known_id-again client lead id attributes known stored)
      ∙ update_item-unchanged later lead' id w'' (
          ap
            (λ host.
              diff_columns host (previous_snapshot lead') (synced (request_columns host lead')))
            same_host
          ∙ unchanged)
      ∙ ap (λ s. (ok (s, put "monday_id" (str s) attributes), w'')) same
