-- ===== src/Proto/Exact.antt =====
-- What the conversions of crates/proto/src/conversions.rs accept, and with which error they refuse.
use lumen.Base.{
  bytes, Option, none, some, ok, err, transpose, ◌≡◌, ◌⊎◌, inl, inr, refl, ap, sym, ◌∙◌, arith,
  Option-cases,
}
use lumen.Proto.Wire
use lumen.Proto.Openraft.{LogId, Vote, MembershipApi, EntryPayload, Entry, VoteRequest}
use lumen.Proto.Conversions.{
  missing_field, option_map, leader_id_from, vote_into, vote_try_from, log_id_into, log_id_try_from,
  payload_try_from, membership_try_from, entry_try_from, vote_request_into, vote_request_try_from,
}

-- An accepted vote is the message itself.
vote_exact : (w : Wire.Vote) (v : Vote) → vote_try_from w ≡ ok v → vote_into v ≡ w
unfolding vote_try_from vote_into
vote_exact w v h = ground arith

log_id_exact : (w : Wire.LogId) (v : LogId) → log_id_try_from w ≡ ok v → log_id_into v ≡ w
unfolding log_id_try_from log_id_into
log_id_exact w v h = ground arith

optional_exact :
    (w : Option Wire.LogId) (v : Option LogId)
    → transpose log_id_try_from w ≡ ok v
    → option_map log_id_into v ≡ w
optional_exact none v h = ground arith
optional_exact (some w) none h = ground arith
optional_exact (some w) (some v) h = ground (arith, log_id_exact w v)

-- An accepted vote request is the message itself: nothing of it is lost or made up.
vote_request_exact :
    (w : Wire.VoteRequest) (r : VoteRequest)
    → vote_request_try_from w ≡ ok r
    → vote_request_into r ≡ w
unfolding vote_request_try_from vote_request_into
vote_request_exact w r h = elim (Option-cases w.vote) [
  | inl absent ↦ ground arith
  | inr (wv, present) ↦
      ground (arith, vote_exact wv r.vote, optional_exact w.last_log_id r.last_log_id)
]

log_id_accepted :
    (id : Wire.LogId) (leader : Wire.LeaderId)
    → id.leader_id ≡ some leader
    → (v : LogId) × (log_id_try_from id ≡ ok v)
unfolding log_id_try_from
log_id_accepted id leader e = (record { leader_id = leader_id_from leader; index = id.index }, rw e)

module _ (api : MembershipApi) where
  payload_total :
      (p : Wire.Payload) → (q : EntryPayload api.Membership) × (payload_try_from api p ≡ ok q)
  unfolding payload_try_from membership_try_from
  payload_total Wire.Payload.blank = (_, refl)
  payload_total (Wire.Payload.normal cmd) = (_, refl)
  payload_total (Wire.Payload.membership m) = (_, refl)

  -- How an entry is received: without a log id, with one that has no leader, without a payload,
  -- or whole.
  abbrev pub Received : Wire.Entry → Type 0
  Received w =
      ((w.log_id ≡ none) × (entry_try_from api w ≡ err (missing_field (bytes "Entry.log_id"))))
      ⊎ ((id : Wire.LogId) × (w.log_id ≡ some id)
          × (id.leader_id ≡ none)
          × (entry_try_from api w ≡ err (missing_field (bytes "LogId.leader_id"))))
      ⊎ ((id : Wire.LogId) × (leader : Wire.LeaderId) × (w.log_id ≡ some id)
          × (id.leader_id ≡ some leader)
          × (w.payload ≡ none)
          × (entry_try_from api w ≡ err (missing_field (bytes "Entry.payload"))))
      ⊎ ((e : Entry api.Membership) × (entry_try_from api w ≡ ok e)
          × (w.log_id ≡ some (log_id_into e.log_id)))

  -- An entry is refused if its log id, the leader in that, or its payload is absent, with an error
  -- that names the first of these that is; else it is accepted, with the log id of the message.
  pub entry_checked : (w : Wire.Entry) → Received w
  unfolding entry_try_from
  entry_checked w = elim (Option-cases w.log_id) [
    | inl no_id ↦ inl (no_id, rw no_id)
    | inr (id, is_id) ↦ elim (Option-cases id.leader_id) [
      | inl no_leader ↦
          inr (inl (id, is_id, no_leader, rw is_id (unfold log_id_try_from in rw no_leader)))
      | inr (leader, is_leader) ↦ elim (Option-cases w.payload) [
        | inl no_payload ↦ inr (
            inr (
              inl (
                id,
                leader,
                is_id,
                is_leader,
                no_payload,
                rw (is_id, no_payload) (unfold log_id_try_from in rw is_leader),
              )))
        | inr (p, is_payload) ↦
            let (q, is_q) = payload_total p in
            let (v, is_v) = log_id_accepted id leader is_leader in
            inr (
              inr (
                inr (
                  record { log_id = v; payload = q },
                  rw (is_id, is_payload, is_v, is_q),
                  is_id ∙ ap some (sym (log_id_exact id v is_v)),
                )))
      ]
    ]
  ]
