-- ===== src/Inbound/HandoffService/Control.antt =====
-- What core/services/handoff_service.py does to the inbound path.
use super_agent_platform.Inbound.Handler.Handoff.{IsCalm, handle-IsCalm}
use super_agent_platform.Inbound.World.{Services, move_session, World}
use super_agent_platform.Inbound.HandoffService.{
  get_session_by_lead_id, append_system_event, change_control, take_control, release_control,
}
use super_agent_platform.Inbound.Handler.{handle}
use super_agent_platform.Base.{
  ℕ, String, ◌≡◌, refl, ap, ◌∙◌, inl, inr, Bool, true, some, List, map, arith, ◌==◌, if◌then◌else◌,
  Bool-cases, nat_eq_refl, any, Occurs, find_first-some, find_first-map, here, there, Fields,
  Result, Exec, bind_result, ◌>>◌, ok, err, ℕ_eq, String_eq,
}
use super_agent_platform.Inbound.Types.{Session, InboundEvent, LeadProfile}
use super_agent_platform.Inbound.Store.{get_by_lead_id, update_state, get_by_phone}

any-Occurs :
    (p : Session → Bool) {a : Session} {rows : List Session}
    → Occurs a rows
    → p a ≡ true
    → any p rows ≡ true
any-Occurs p here h = rw h refl
any-Occurs p (there {x = x} {xs = xs} o) h = ground (arith, any-Occurs p o h)

-- The session after the change of its state.
abbrev pub moved_session : String → ℕ → Session → Session
moved_session new_state now session = record session { current_state = new_state; updated_at = now }

abbrev write : ℕ → String → Fields → ℕ → Session → Session
write id new_state context now r =
    if r.id == id
    then record r { current_state = new_state; context = context; updated_at = now }
    else r

same_lead :
    (id lead_id : ℕ) (new_state : String) (context : Fields) (now : ℕ) (r : Session)
    → ((write id new_state context now r).lead_id == lead_id) ≡ (r.lead_id == lead_id)
same_lead id lead_id new_state context now r = elim (Bool-cases (r.id == id)) [
  | inl a ↦ rw a refl
  | inr b ↦ rw b refl
]

update_state-get_by_lead_id :
    (lead_id : ℕ) (new_state : String) (now : ℕ) (session : Session) (rows : List Session)
    → get_by_lead_id lead_id rows ≡ some session
    → let rows' = map (write session.id new_state session.context now) rows in
      (update_state session.id new_state session.context now rows ≡ ok rows')
      × (get_by_lead_id lead_id rows' ≡ some (moved_session new_state now session))
unfolding update_state get_by_lead_id
update_state-get_by_lead_id lead_id new_state now session rows found =
    let (same, inside) = find_first-some {0} (λ (r : Session). r.lead_id == lead_id) rows found in
    (
      rw (any-Occurs (λ r. r.id == session.id) inside (nat_eq_refl session.id), update_state) refl,
      find_first-map {0} (λ (r : Session). r.lead_id == lead_id)
            (write session.id new_state session.context now) rows session
            (same_lead session.id lead_id new_state session.context now) found
          ∙ rw (nat_eq_refl session.id) refl,
    )

bind_result-ok :
    {A B : Type 0} (x : Result A × World) (a : A) (k : A → Exec World B)
    → x.0 ≡ ok a
    → bind_result x k ≡ k a x.1
bind_result-ok (ok b, w) a k h = let same : b ≡ a = ground arith in rw same refl
bind_result-ok (err e, w) a k h = absurd (ground arith)

module _ (s : Services) where
  get_session_found :
      (lead_id : ℕ) (session : Session) (w : World)
      → get_by_lead_id lead_id w.sessions ≡ some session
      → get_session_by_lead_id s lead_id w ≡ (ok session, w)
  unfolding get_session_by_lead_id
  get_session_found lead_id session w found = rw (found, get_session_by_lead_id) refl

  move_session_found :
      (lead_id : ℕ) (new_state : String) (session : Session) (w : World)
      → get_by_lead_id lead_id w.sessions ≡ some session
      → move_session s session.id new_state session.context w ≡ (
        ok tt,
        record w { sessions = map (write session.id new_state session.context s.now) w.sessions },
      )
  unfolding move_session
  move_session_found lead_id new_state session w found =
      rw
        (
          (update_state-get_by_lead_id lead_id new_state s.now session w.sessions found).0,
          move_session,
        )
        refl

  -- A lead's session after a change of control, and what stays.
  pub record Controls (lead_id : ℕ) (moved : Session) (w : World) (x : Result Session × World)
      : Type 0 where
    pub result : x.0 ≡ ok moved
    pub session : get_by_lead_id lead_id x.1.sessions ≡ some moved
    pub leads : x.1.leads ≡ w.leads
    pub mail : x.1.mail ≡ w.mail
    pub media : x.1.media ≡ w.media

  change_control-Controls :
      (new_state event_type : String) (lead_id : ℕ) (session : Session) (w : World)
      → get_by_lead_id lead_id w.sessions ≡ some session
      → Controls lead_id
          (moved_session new_state s.now session)
          w
          (change_control s new_state event_type lead_id w)
  unfolding change_control append_system_event
  change_control-Controls new_state event_type lead_id session w found =
      let w' = record w {
        sessions = map (write session.id new_state session.context s.now) w.sessions;
      } in
      let moved = moved_session new_state s.now session in
      let found' =
        (update_state-get_by_lead_id lead_id new_state s.now session w.sessions found).1 in
      rw (get_session_found lead_id session w found, change_control)
        (rw (move_session_found lead_id new_state session w found) (
          rw (get_session_found lead_id moved w' found')
            (record { result = refl; session = found'; leads = refl; mail = refl; media = refl })))

  -- An adviser who takes control of a lead with a session gets it in the state `handoff_active`,
  -- and for the next message from the lead's phone then no message is sent, no session moved, no
  -- phone silenced and no turn logged; the requests for its media are not ruled out.
  pub take_control-IsCalm :
      (raw : Fields) (e : InboundEvent) (lead : LeadProfile) (session : Session) (w : World)
      → s.parse_inbound_event raw ≡ some e
      → get_by_phone e.from_phone w.leads ≡ some lead
      → get_by_lead_id lead.id w.sessions ≡ some session
      → let (r, w') = take_control s lead.id w in
        (r ≡ ok (moved_session "handoff_active" s.now session)) × IsCalm w' (handle s raw w').1
  unfolding take_control
  take_control-IsCalm raw e lead session w parsed known found =
      let c =
        change_control-Controls "handoff_active" "system_agent_took_control" lead.id session w
          found in
      let w' = (change_control s "handoff_active" "system_agent_took_control" lead.id w).1 in
      (
        c.result,
        handle-IsCalm s raw e lead (moved_session "handoff_active" s.now session) w' parsed
            (ap (get_by_phone e.from_phone) c.leads ∙ known) c.session refl,
      )

  -- Taking control and releasing it leaves the lead's session in the state `idle`, with its
  -- context, and makes no request.
  pub take_control-release_control :
      (lead_id : ℕ) (session : Session) (w : World)
      → get_by_lead_id lead_id w.sessions ≡ some session
      → Controls lead_id
          (moved_session "idle" s.now session)
          w
          ((take_control s lead_id >> release_control s lead_id) w)
  unfolding take_control release_control
  take_control-release_control lead_id session w found =
      let c =
        change_control-Controls "handoff_active" "system_agent_took_control" lead_id session w
          found in
      let taken = change_control s "handoff_active" "system_agent_took_control" lead_id w in
      let d =
        change_control-Controls "idle" "system_agent_released_control" lead_id
          (moved_session "handoff_active" s.now session) taken.1 c.session in
      rw
        (bind_result-ok taken (moved_session "handoff_active" s.now session)
          (λ u. release_control s lead_id) c.result)
        (record {
          result = d.result;
          session = d.session;
          leads = d.leads ∙ c.leads;
          mail = d.mail ∙ c.mail;
          media = d.media ∙ c.media;
        })
