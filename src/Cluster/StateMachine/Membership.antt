-- ===== src/Cluster/StateMachine/Membership.antt =====
-- The membership that a restarted node rejoins with (crates/cluster/src/state_machine.rs).
use lumen.Base.{none, some, List, [], ◌∷◌, ok, err, ◌≡◌, refl, ap, sym, subst, ◌∙◌}
use lumen.Core.Json.{JsonApi}
use lumen.Core.Tantivy.{TantivyApi}
use lumen.Core.Wal.{Externals}
use lumen.Core.Catalog.State.{Catalog}
use lumen.Proto.Openraft.{
  MembershipApi, LogId, StoredMembership, EntryPayload, Entry, blank, normal, membership,
}
use lumen.Proto.Conversions.{stored_membership_into}
use lumen.Proto.RoundTrip.{stored_membership_round_trip}
use lumen.Cluster.Storage.{Stored}
use lumen.Cluster.StateMachine.Batches.{and_then_ok}
use lumen.Cluster.StateMachine.{
  MachineCodec, StateMachine, Response, load_membership, persist_membership, open_machine, and_then,
  apply_payload, apply_entry, apply,
}

-- The membership of an entry takes the place of the one before.
abbrev pub newer : {M : Type 0} → LogId → EntryPayload M → StoredMembership M → StoredMembership M
newer id (membership m) before = record { log_id = some id; membership = m }
newer id _ before = before

-- The last membership among the entries, or the one from before.
unfoldable pub newest : {M : Type 0} → List (Entry M) → StoredMembership M → StoredMembership M
newest [] before = before
newest (e ∷ es) before = newest es (newer e.log_id e.payload before)

module _ (api : MembershipApi) (codec : MachineCodec api) where
  open api use {Membership}

  -- prost decodes the memberships that it encoded.
  abbrev pub DecodesMembership : Type 0
  DecodesMembership =
      (m : StoredMembership Membership)
      → codec.decode_membership (codec.encode_membership (stored_membership_into api m))
        ≡ some (stored_membership_into api m)

  -- The file has the last membership.
  abbrev pub IsRemembered : {Index : Type 0} → StateMachine Membership Index → Type 0
  IsRemembered s = load_membership api codec s.membership_file ≡ ok s.last_membership

  module _ {json : JsonApi} (tantivy : TantivyApi json) (ext : Externals)
      (d : DecodesMembership) where
    open tantivy use {Index}

    apply_payload-IsRemembered :
        (id : LogId) (p : EntryPayload Membership) (s : StateMachine Membership Index)
        → IsRemembered s
        → IsRemembered (apply_payload api codec tantivy ext id p s).1
    unfolding apply_payload load_membership persist_membership
    apply_payload-IsRemembered id blank s h = h
    apply_payload-IsRemembered id (membership m) s h =
        let stored : StoredMembership Membership = record { log_id = some id; membership = m } in
        rw (d stored, load_membership, stored_membership_round_trip api stored) refl
    apply_payload-IsRemembered id (normal command) s h = h

    and_then-IsRemembered :
        (k : StateMachine Membership Index → Stored (List Response) × StateMachine Membership Index)
        (r : Stored Response × StateMachine Membership Index)
        → ((t : StateMachine Membership Index) → IsRemembered t → IsRemembered (k t).1)
        → IsRemembered r.1
        → IsRemembered (and_then api codec tantivy ext k r).1
    and_then-IsRemembered k (err e, s) f h = h
    and_then-IsRemembered k (ok q, s) f h = f s h

    apply-IsRemembered :
        (es : List (Entry Membership)) (s : StateMachine Membership Index)
        → IsRemembered s
        → IsRemembered (apply api codec tantivy ext es s).1
    unfolding apply apply_entry
    apply-IsRemembered [] s h = h
    apply-IsRemembered (e ∷ es) s h =
        and_then-IsRemembered (apply api codec tantivy ext es)
          (apply_entry api codec tantivy ext e s) (apply-IsRemembered es)
          (apply_payload-IsRemembered e.log_id e.payload (record s { last_applied = some e.log_id })
            h)

    newest_payload :
        (id : LogId) (p : EntryPayload Membership) (s s' : StateMachine Membership Index)
        (r : Response)
        → apply_payload api codec tantivy ext id p s ≡ (ok r, s')
        → s'.last_membership ≡ newer id p s.last_membership
    unfolding apply_payload
    newest_payload id blank s s' r h = ap (λ x. x.1.last_membership) (sym h)
    newest_payload id (membership m) s s' r h = ap (λ x. x.1.last_membership) (sym h)
    newest_payload id (normal command) s s' r h = ap (λ x. x.1.last_membership) (sym h)

    apply-newest :
        (es : List (Entry Membership)) (s s' : StateMachine Membership Index) (rs : List Response)
        → apply api codec tantivy ext es s ≡ (ok rs, s')
        → s'.last_membership ≡ newest es s.last_membership
    unfolding apply apply_entry newest
    apply-newest [] s s' rs h = ap (λ x. x.1.last_membership) (sym h)
    apply-newest (e ∷ es) s s' rs h =
        let (q, qs, first, rest, same) =
          and_then_ok api codec tantivy ext (apply api codec tantivy ext es)
            (apply_entry api codec tantivy ext e s) rs s' h in
        apply-newest es (apply_entry api codec tantivy ext e s).1 s' qs rest
        ∙ ap (newest es) (
            newest_payload e.log_id e.payload (record s { last_applied = some e.log_id }) _ q first)

    -- After entries were applied without an error, a machine that is opened on the directory has
    -- the membership of the last entry with one, at that entry's log id, or the one from before if
    -- no entry has one, and nothing else of the memory, if the file had the membership from before
    -- and prost decodes what it encoded.
    pub open_machine-apply :
        (es : List (Entry Membership)) (s s' : StateMachine Membership Index) (rs : List Response)
        (c : Catalog Index)
        → IsRemembered s
        → apply api codec tantivy ext es s ≡ (ok rs, s')
        → open_machine api codec c s'.membership_file
          ≡ ok (record {
            catalog = c;
            membership_file = s'.membership_file;
            last_applied = none;
            last_membership = newest es s.last_membership;
            current_snapshot = none;
          })
    unfolding open_machine
    open_machine-apply es s s' rs c h ran =
        let kept : IsRemembered s' =
          subst (λ x. IsRemembered x.1) ran (apply-IsRemembered es s h) in
        rw (kept, open_machine, apply-newest es s s' rs ran) refl
