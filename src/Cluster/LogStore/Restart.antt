-- ===== src/Cluster/LogStore/Restart.antt =====
-- What a restart finds of the vote, the committed and the purged log id
-- (crates/cluster/src/log_store.rs).
use lumen.Base.{
  subst, Result, err, err_ok, map_err, ◌⊎◌, ℕ, Option, none, some, List, [], ◌∷◌, Result-cases, inl,
  inr, ok, transpose, ◌≡◌, refl, sym, ap, ◌∙◌,
}
use lumen.Core.Error.{Fallible}
use lumen.Core.Log.{SegmentedLog}
use lumen.Core.Log as Log
use lumen.Core.Log.Removal.{truncate_from, purge_through}
use lumen.Core.Log.Segments.{Segment, Holds}
use lumen.Core.Log.Durability.{open-Holds}
use lumen.Core.Wal.{default_segment_max}
use lumen.Proto.Openraft.{MembershipApi, LogId, Vote, Entry}
use lumen.Proto.Conversions.{option_map, vote_into, vote_try_from, entry_into}
use lumen.Proto.RoundTrip.{optional_round_trip}
use lumen.Cluster.Storage.{Cause, file_failed, write_vote, write_logs}
use lumen.Cluster.LogStore.{
  Writing, written, unsynced, unwritten, then_purge, RaftCodec, Meta, LogStore, meta_proto,
  load_meta, persist_meta, purge_to, open_store, save_vote, save_committed, with_log, truncate,
  purge, append,
}

optional_vote_round_trip :
    (v : Option Vote) → transpose vote_try_from (option_map vote_into v) ≡ ok v
optional_vote_round_trip none = refl
optional_vote_round_trip (some v) = unfold vote_try_from vote_into in refl

module _ (codec : RaftCodec) where
  -- The meta file has what the store has in memory.
  abbrev pub IsPersisted : LogStore → Type 0
  IsPersisted s = load_meta codec s.meta_file ≡ ok s.meta

  -- prost decodes the messages of the meta file that it encoded.
  abbrev pub DecodesMeta : Type 0
  DecodesMeta =
      (m : Meta) → codec.decode_meta (codec.encode_meta (meta_proto m)) ≡ some (meta_proto m)

  encoded_meta :
      (m : Meta) → DecodesMeta → load_meta codec (some (codec.encode_meta (meta_proto m))) ≡ ok m
  unfolding load_meta meta_proto
  encoded_meta m d =
      rw
        (
          d m,
          load_meta,
          optional_vote_round_trip m.vote,
          optional_round_trip m.committed,
          optional_round_trip m.last_purged,
        )
        refl

  -- The meta file has what the store has in memory, or the operation failed and the file is the one
  -- that was there before it.
  abbrev pub IsDurable : {E A : Type 0} → LogStore → Result E A × LogStore → Type 0
  IsDurable {E} s (r, s') = IsPersisted s' ⊎ ((e : E) × (r ≡ err e) × (s'.meta_file ≡ s.meta_file))

  map_err-IsDurable :
      {E F A : Type 0} (f : E → F) (s : LogStore) (r : Result E A × LogStore)
      → IsDurable s r
      → IsDurable s (map_err f r.0, r.1)
  map_err-IsDurable f s r (inl p) = inl p
  map_err-IsDurable f s r (inr (e, q, same)) = inr (f e, ap (map_err f) q, same)

  persist_meta-IsDurable :
      (w : Writing) (m : Meta) (s : LogStore)
      → DecodesMeta
      → IsDurable s (persist_meta codec w (record s { meta = m }))
  unfolding persist_meta
  persist_meta-IsDurable written m s d = inl (encoded_meta m d)
  persist_meta-IsDurable unsynced m s d = inl (encoded_meta m d)
  persist_meta-IsDurable unwritten m s d = inr (file_failed, refl, refl)

  with_log-IsPersisted :
      (f : SegmentedLog → Fallible SegmentedLog) (s : LogStore)
      → IsPersisted s
      → IsPersisted (with_log codec f s).1
  unfolding with_log
  with_log-IsPersisted f s p = elim (Result-cases (f s.log)) [
    | inl (e, q) ↦ rw (q, with_log) p
    | inr (log, q) ↦ rw (q, with_log) p
  ]

  append-IsPersisted :
      (api : MembershipApi) (es : List (Entry api.Membership)) (s : LogStore)
      → IsPersisted s
      → IsPersisted (append codec api es s).1
  unfolding append
  append-IsPersisted api [] s p = p
  append-IsPersisted api (e ∷ es) s p =
      elim (Result-cases
        (Log.append codec.crc32c e.log_id.index (codec.encode_entry (entry_into api e)) s.log)) [
          | inl (x, q) ↦ rw (q, append) p
          | inr (log, q) ↦ rw (q, append) (append-IsPersisted api es (record s { log = log }) p)
        ]

  then_purge-IsDurable :
      (i : LogId) (s : LogStore) (r : Result Cause (Unit {0}) × LogStore)
      → IsDurable s r
      → IsDurable s (then_purge codec i r)
  then_purge-IsDurable i s (err e, s') (inl p) = inl p
  then_purge-IsDurable i s (err e, s') (inr (x, q, same)) = inr (write_logs e, refl, same)
  then_purge-IsDurable i s (ok u, s') (inl p) =
      inl (with_log-IsPersisted (purge_through i.index) s' p)
  then_purge-IsDurable i s (ok u, s') (inr (x, q, same)) = absurd (err_ok x u (sym q))

  -- Every operation of the Raft log store leaves a meta file that is read back as the vote, the
  -- committed and the purged log id that the store has in memory, if it was so before and prost
  -- decodes what it encoded; only a write of one of them that fails may leave the file as it was
  -- before.
  pub operations-IsPersisted :
      (api : MembershipApi) (s : LogStore)
      → DecodesMeta
      → IsPersisted s
      → ((w : Writing) (v : Vote) → IsDurable s (save_vote codec w v s))
        × ((w : Writing) (c : Option LogId) → IsDurable s (save_committed codec w c s))
        × ((w : Writing) (i : LogId) → IsDurable s (purge codec w i s))
        × ((i : LogId) → IsPersisted (truncate codec i s).1)
        × ((es : List (Entry api.Membership)) → IsPersisted (append codec api es s).1)
  unfolding save_vote save_committed purge truncate
  operations-IsPersisted api s d p = (
    λ w v.
        map_err-IsDurable write_vote s
          (persist_meta codec w (record s { meta = record s.meta { vote = some v } }))
          (persist_meta-IsDurable w (record s.meta { vote = some v }) s d),
    λ w c.
        map_err-IsDurable write_logs s
          (persist_meta codec w (record s { meta = record s.meta { committed = c } }))
          (persist_meta-IsDurable w (record s.meta { committed = c }) s d),
    λ w i.
        then_purge-IsDurable i s _
          (persist_meta-IsDurable w (record s.meta { last_purged = some i }) s d),
    λ i. with_log-IsPersisted (truncate_from i.index) s p,
    λ es. append-IsPersisted api es s p,
  )

  -- After a vote and a committed log id were saved without an error, a restart on the directory of
  -- a well-formed log with segments of the default size, of which nothing was purged yet, gives the
  -- same log, the vote and the committed log id, whatever the meta file had before, if prost
  -- decodes what it encoded.
  pub open_store-save_vote :
      (s : LogStore) (n : ℕ) (closed : List Segment) (last : Segment) (v : Vote) (c : Option LogId)
      (s1 s2 : LogStore)
      → DecodesMeta
      → Holds codec.crc32c s.log n closed last
      → s.log.segment_max_bytes ≡ default_segment_max
      → s.meta.last_purged ≡ none
      → save_vote codec written v s ≡ (ok tt, s1)
      → save_committed codec written c s1 ≡ (ok tt, s2)
      → open_store codec s2.log.disk s2.meta_file
        ≡ ok (record {
          log = s.log;
          meta = record { vote = some v; committed = c; last_purged = none };
          meta_file = s2.meta_file;
        })
  unfolding open_store save_vote save_committed persist_meta purge_to
  open_store-save_vote s n closed last v c s1 s2 d h max unpurged e1 e2 =
      let m : Meta = record { vote = some v; committed = c; last_purged = s.meta.last_purged } in
      subst
        (λ (x : LogStore).
          open_store codec x.log.disk x.meta_file
          ≡ ok (record {
            log = s.log;
            meta = record { vote = some v; committed = c; last_purged = none };
            meta_file = x.meta_file;
          }))
        (ap (λ r. (save_committed codec written c r.1).1) e1 ∙ ap (λ r. r.1) e2)
        (rw
          (
            ap (Log.open_with_segment_max codec.crc32c s.log.disk) (sym max)
                ∙ open-Holds codec.crc32c codec.crc_u32 s.log n closed last h,
            open_store,
            encoded_meta m d,
          )
          (rw unpurged refl))
