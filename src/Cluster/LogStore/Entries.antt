-- ===== src/Cluster/LogStore/Entries.antt =====
-- The entries that the store of the Raft log holds (crates/cluster/src/log_store.rs).
use lumen.Base.{
  ℕ, ◌+◌, ◌≤◌, ◌<◌, u64_mod, some, List, [], ◌∷◌, ◌++◌, map, map-append, length, All, retain,
  Result-cases, ok, err_ok, ok_inj, try_map, ◌≡◌, refl, sym, ap, ◌∙◌, Bool, Bool-cases, inl, inr,
}
use lumen.Core.Log.{SegmentedLog}
use lumen.Core.Log as Log
use lumen.Core.Log.Frame.{Bytes}
use lumen.Core.Log.Frame.Scan.{Fits}
use lumen.Core.Log.Segments.{Segment, Holds, contents, numbered}
use lumen.Core.Log.Appending.{next_index}
use lumen.Core.Log.Durability.{append_each, append_each-Holds}
use lumen.Core.Log.Ranges.{read_range-Holds}
use lumen.Core.Log.{last_index}
use lumen.Cluster.Storage.{Stored}
use lumen.Cluster.LogStore.{Bound, concrete_range}
use lumen.Cluster.LogStore.Bounds.{within, in_range-within}
use lumen.Base.{◌>>=◌, if◌then◌else◌}
use lumen.Proto.Openraft.{MembershipApi, Entry}
use lumen.Proto.Conversions.{entry_into}
use lumen.Proto.RoundTrip.{entry_round_trip}
use lumen.Cluster.LogStore.{
  RaftCodec, LogStore, append, decode_entry, read_entries, try_get_log_entries,
}

module _ (codec : RaftCodec) (api : MembershipApi) where
  open api use {Membership}

  abbrev pub encoded : Entry Membership → Bytes
  encoded e = codec.encode_entry (entry_into api e)

  abbrev pub indexed : Entry Membership → ℕ × Bytes
  indexed e = (e.log_id.index, encoded e)

  -- prost decodes the entry that it encoded.
  abbrev pub DecodesEntry : Entry Membership → Type 0
  DecodesEntry e = codec.decode_entry (encoded e) ≡ some (entry_into api e)

  -- The entries have the indexes from `index` on.
  unfoldable pub AreConsecutive : ℕ → List (Entry Membership) → Type 0
  AreConsecutive index [] = Unit
  AreConsecutive index (e ∷ es) = (e.log_id.index ≡ index) × AreConsecutive (index + 1) es

  -- What the store decodes from a record, and what it is for an entry.
  abbrev pub decoded : ℕ × Bytes → ℕ × Stored (Entry Membership)
  decoded r = (r.0, decode_entry codec api r.1)

  abbrev pub whole : Entry Membership → ℕ × Stored (Entry Membership)
  whole e = (e.log_id.index, ok e)

  -- The log of the store is well formed, and its records are decoded as the entries.
  pub record HasEntries (s : LogStore) (n : ℕ) (closed : List Segment) (last : Segment)
      (es : List (Entry Membership)) : Type 0 where
    pub holds : Holds codec.crc32c s.log n closed last
    pub entries : map decoded (contents closed last) ≡ map whole es

  decode_entry-encoded :
      (e : Entry Membership) → DecodesEntry e → decode_entry codec api (encoded e) ≡ ok e
  unfolding decode_entry
  decode_entry-encoded e d = rw (d, decode_entry, entry_round_trip api e) refl

  decoded-indexed :
      (es : List (Entry Membership))
      → All DecodesEntry es
      → map decoded (map indexed es) ≡ map whole es
  decoded-indexed [] d = refl
  decoded-indexed (e ∷ es) d = rw (decode_entry-encoded e d.0, decoded-indexed es d.1) refl

  -- The results of those whose index a test keeps, up to the first error.
  collected : (ℕ → Bool) → List (ℕ × Stored (Entry Membership)) → Stored (List (Entry Membership))
  collected p [] = ok []
  collected p ((index, r) ∷ rs) =
      let rest = collected p rs in if p index then (do e ← r; es ← rest; ok (e ∷ es)) else rest

  try_map-collected :
      (p : ℕ → Bool) (rs : List (ℕ × Bytes))
      → try_map (λ (r : ℕ × Bytes). decode_entry codec api r.1) (retain (λ r. p r.0) rs)
        ≡ collected p (map decoded rs)
  unfolding try_map retain collected
  try_map-collected p [] = refl
  try_map-collected p (r ∷ rs) = elim (Bool-cases (p r.0)) [
    | inl b ↦ rw (b, retain, try_map, try_map-collected p rs) refl
    | inr b ↦ rw (b, retain) (try_map-collected p rs)
  ]

  collected-whole :
      (p : ℕ → Bool) (es : List (Entry Membership))
      → collected p (map whole es) ≡ ok (retain (λ e. p e.log_id.index) es)
  unfolding collected retain
  collected-whole p [] = refl
  collected-whole p (e ∷ es) = elim (Bool-cases (p e.log_id.index)) [
    | inl b ↦ rw (b, collected, retain, collected-whole p es) refl
    | inr b ↦ rw (b, collected, retain) (collected-whole p es)
  ]

  -- A read of the Raft log between any two bounds, each included, excluded or absent, gives the
  -- entries whose index is within them, in order, if the range does not end before it starts.
  pub try_get_log_entries-HasEntries :
      (s : LogStore) (n : ℕ) (closed : List Segment) (last : Segment) (es : List (Entry Membership))
      (bounds : Bound × Bound) (from to : ℕ)
      → HasEntries s n closed last es
      → concrete_range bounds (last_index s.log.records) ≡ (from, to)
      → from ≤ to
      → try_get_log_entries codec api bounds s
        ≡ some (ok (retain (λ e. within bounds e.log_id.index) es))
  unfolding try_get_log_entries read_entries
  try_get_log_entries-HasEntries s n closed last es bounds from to h range le =
      ap (λ r. read_entries codec api r s) range
      ∙ rw
          (
            read_range-Holds codec.crc32c s.log n closed last from to h.holds le,
            read_entries,
            in_range-within codec.crc32c s.log n closed last bounds from to h.holds range,
            try_map-collected (within bounds) (contents closed last),
            h.entries,
          )
          (ap some (collected-whole (within bounds) es))

  append-append_each :
      (index : ℕ) (es : List (Entry Membership)) (s : LogStore) (log : SegmentedLog)
      → AreConsecutive index es
      → append_each codec.crc32c index (map encoded es) s.log ≡ ok log
      → append codec api es s ≡ (ok tt, record s { log = log })
  unfolding append append_each AreConsecutive
  append-append_each index [] s log c h =
      ap (λ l. (ok tt, record s { log = l })) (ok_inj s.log log h)
  append-append_each index (e ∷ es) s log c h =
      elim (Result-cases (Log.append codec.crc32c index (encoded e) s.log)) [
        | inl (x, q) ↦ absurd (err_ok x log (rw (q, append_each) at h))
        | inr (l, q) ↦
            rw (ap (λ i. Log.append codec.crc32c i (encoded e) s.log) c.0 ∙ q, append)
              (append-append_each (index + 1) es (record s { log = l }) log c.1
                (rw (q, append_each) at h))
      ]

  numbered-indexed :
      (index : ℕ) (es : List (Entry Membership))
      → AreConsecutive index es
      → numbered index (map encoded es) ≡ map indexed es
  unfolding AreConsecutive
  numbered-indexed index [] c = refl
  numbered-indexed index (e ∷ es) c = rw (numbered-indexed (index + 1) es c.1, c.0) refl

  -- Entries that are appended to the Raft log with the indexes after its last one, all below 2^64,
  -- are the last entries that the store decodes, if each is encoded in less than 2^32 bytes, prost
  -- decodes what it encoded, and the size at which segments are rotated is positive.
  pub append-HasEntries :
      (s : LogStore) (n : ℕ) (closed : List Segment) (last : Segment)
      (old es : List (Entry Membership))
      → HasEntries s n closed last old
      → AreConsecutive (next_index last) es
      → All Fits (map encoded es)
      → All DecodesEntry es
      → next_index last + length (map encoded es) < u64_mod
      → 0 < s.log.segment_max_bytes
      → (s' : LogStore) × (closed' : List Segment) × (last' : Segment) × (append codec api es s
          ≡ (ok tt, s'))
        × HasEntries s' n closed' last' (old ++ es)
  append-HasEntries s n closed last old es h c fits decodes bound pos =
      let (log, closed', last', e, holds, q, max) =
        append_each-Holds codec.crc32c (map encoded es) s.log n closed last h.holds fits bound
          pos in
      (
        record s { log = log },
        closed',
        last',
        append-append_each (next_index last) es s log c e,
        record {
          holds = holds;
          entries =
              ap (map decoded)
                (q ∙ ap (λ l. contents closed last ++ l) (numbered-indexed (next_index last) es c))
              ∙ map-append decoded (contents closed last) (map indexed es)
              ∙ ap (λ l. l ++ map decoded (map indexed es)) h.entries
              ∙ ap (λ l. map whole old ++ l) (decoded-indexed es decodes)
              ∙ sym (map-append whole old es);
        },
      )
