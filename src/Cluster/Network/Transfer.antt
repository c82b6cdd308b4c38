-- ===== src/Cluster/Network/Transfer.antt =====
-- A snapshot that is sent is the snapshot that is received (crates/cluster/src/network.rs).
use lumen.Base.{
  ℕ, zero, suc, ◌<◌, some, List, [], ◌∷◌, ◌++◌, length, take, drop, length-drop, append_assoc,
  append-nil, ok, ◌≡◌, refl, ap, ◌∙◌, arith,
}
use lumen.Core.Log.Frame.{Bytes}
use lumen.Proto.Openraft.{MembershipApi, Vote, SnapshotMeta}
use lumen.Proto.Conversions.{vote_into, snapshot_meta_into}
use lumen.Proto.RoundTrip.{vote_round_trip, snapshot_meta_round_trip}
use lumen.Proto.Wire as Wire
use lumen.Cluster.Network.{Reads, chunk_stream, first_chunk, receive, received_snapshot}

take-drop : (n : ℕ) (l : Bytes) → take n l ++ drop n l ≡ l
take-drop zero l = refl
take-drop (suc n) [] = refl
take-drop (suc n) (x ∷ l) = ap (λ r. x ∷ r) (take-drop n l)

module _ (api : MembershipApi) (reads : Reads) (vote : Vote) (meta : SnapshotMeta api.Membership)
    (size : ℕ) (positive : 0 < size) where
  open api use {Membership}

  abbrev chunks : ℕ → Bytes → List Wire.SnapshotRequest
  chunks fuel file =
      chunk_stream reads fuel file (vote_into vote) (snapshot_meta_into api meta) size

  abbrev chunk : Bytes → Wire.SnapshotRequest
  chunk sent = record {
    vote = some (vote_into vote);
    meta = some (snapshot_meta_into api meta);
    bytes = sent;
  }

  stream_end : (fuel : ℕ) → chunks (suc fuel) [] ≡ []
  unfolding chunk_stream
  stream_end fuel =
      let z : reads.read_len size [] ≡ 0 = omega (arith, reads.read_left size []) in
      rw (z, chunk_stream) refl

  -- A file with bytes left gives a chunk of some of them, and then the chunks of the others.
  stream_step :
      (fuel : ℕ) (b : ℕ) (file : Bytes)
      → (m : ℕ) × (chunks (suc fuel) (b ∷ file)
          ≡ chunk (take (suc m) (b ∷ file)) ∷ chunks fuel (drop (suc m) (b ∷ file)))
  unfolding chunk_stream
  stream_step fuel b file = step (reads.read_len size (b ∷ file)) refl
    where
      step :
          (n : ℕ)
          → reads.read_len size (b ∷ file) ≡ n
          → (m : ℕ) × (chunks (suc fuel) (b ∷ file)
              ≡ chunk (take (suc m) (b ∷ file)) ∷ chunks fuel (drop (suc m) (b ∷ file)))
      step zero e =
          absurd (omega (arith, e, reads.read_some size (b ∷ file) positive (omega arith)))
      step (suc m) e = (
        m,
        rw (e, chunk_stream)
            (ap (λ k. chunk (take (suc m) (b ∷ file)) ∷ chunks fuel (drop k (b ∷ file))) e),
      )

  -- Once the first chunk is there, the rest of the file is added to what was received.
  receive_rest :
      (fuel : ℕ) (file got : Bytes)
      → length file < fuel
      → receive api
          (chunks fuel file)
          (record { received = got; vote = some vote; meta = some meta })
        ≡ ok (record { received = got ++ file; vote = some vote; meta = some meta })
  unfolding receive first_chunk
  receive_rest zero file got h = absurd (omega arith)
  receive_rest (suc fuel) [] got h = rw (stream_end fuel, receive, append-nil got) refl
  receive_rest (suc fuel) (b ∷ file) got h =
      let (m, e) = stream_step fuel b file in
      rw (e, receive)
        (receive_rest fuel (drop (suc m) (b ∷ file)) (got ++ take (suc m) (b ∷ file))
            (omega (arith, length-drop (suc m) (b ∷ file)))
          ∙ ap (λ l. ok (record { received = l; vote = some vote; meta = some meta }))
              (append_assoc got (take (suc m) (b ∷ file)) (drop (suc m) (b ∷ file))
                ∙ ap (λ l. got ++ l) (take-drop (suc m) (b ∷ file))))

  -- The chunks of a file that is not empty are received as the vote, the metadata and the bytes
  -- that were sent, whatever the sizes of the reads; more fuel than bytes is enough.
  pub received_snapshot-chunk_stream :
      (fuel b : ℕ) (file : Bytes)
      → length (b ∷ file) < fuel
      → received_snapshot api
          (chunk_stream reads fuel (b ∷ file) (vote_into vote) (snapshot_meta_into api meta) size)
        ≡ ok (vote, meta, b ∷ file)
  unfolding received_snapshot receive first_chunk
  received_snapshot-chunk_stream zero b file h = absurd (omega arith)
  received_snapshot-chunk_stream (suc fuel) b file h =
      let (m, e) = stream_step fuel b file in
      rw
        (
          e,
          received_snapshot,
          receive,
          first_chunk,
          vote_round_trip vote,
          snapshot_meta_round_trip api meta,
          receive_rest fuel (drop (suc m) (b ∷ file)) (take (suc m) (b ∷ file))
              (omega (arith, length-drop (suc m) (b ∷ file))),
          take-drop (suc m) (b ∷ file),
        )
        refl
