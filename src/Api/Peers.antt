-- ===== src/Api/Peers.antt =====
-- The addresses of a cluster's nodes in arguments, files and requests, crates/api/src/cluster.rs.
-- serde_json's reading of a body is a parameter, and so is the reading of a file.
pub mod Parsed
use lumen.Base.{
  ℕ, ◌+◌, ◌-◌, ◌*◌, u64_mod, ltb, leb, ◌==◌, ◌&&◌, if◌then◌else◌, Text, Option, none, some, List,
  [], ◌∷◌, Result, ok, err, ok_or, map_err, ◌>>=◌, map, trim, lines, split_once, BTreeMap, insert,
  insert_all, nat_ord,
}
use lumen.Proto.Wire.{Node}
use lumen.Api.Errors.{ApiError, mapping}

pub data PeerError : Type 0 where
  expected_id_addr : PeerError
  invalid_peer_id : Text → PeerError

-- `u64::from_str`: digits, with a plus sign before them or not, of a number below 2^64.
unfoldable pub parse_digits : ℕ → Text → Option ℕ
parse_digits n [] = some n
parse_digits n (c ∷ cs) =
    let n' = n * 10 + (c - 48) in
    let rest = parse_digits n' cs in if leb 48 c && leb c 57 && ltb n' u64_mod then rest else none

unfoldable pub parse_u64 : Text → Option ℕ
unfolding parse_digits
parse_u64 [] = none
parse_u64 (c ∷ []) = parse_digits 0 (c ∷ [])
parse_u64 (c ∷ d ∷ cs) = if c == 43 then parse_digits 0 (d ∷ cs) else parse_digits 0 (c ∷ d ∷ cs)

unfoldable pub parse_peer : Text → Result PeerError (ℕ × Text)
unfolding split_once parse_u64
parse_peer value = do
  halves ← ok_or (split_once 61 value) expected_id_addr
  id ← ok_or (parse_u64 halves.0) (invalid_peer_id halves.0)
  ok (id, halves.1)

-- The loop of `read_peers_file` over the lines of the file.
unfoldable pub read_peers : List Text → Result PeerError (List (ℕ × Text))
unfolding trim parse_peer
read_peers [] = ok []
read_peers (line ∷ rest) =
    let peers = read_peers rest in
    elim (trim line) [
      | [] ↦ peers
      | c ∷ cs ↦
          if c == 35
          then peers
          else (do peer ← parse_peer (c ∷ cs); others ← peers; ok (peer ∷ others))
    ]

unfoldable pub read_peers_file : Text → Result PeerError (List (ℕ × Text))
unfolding lines read_peers
read_peers_file contents = read_peers (lines contents)

unfoldable pub node : ℕ → Text → Node
node id rpc_addr = record { node_id = id; rpc_addr = rpc_addr }

abbrev pub with_nodes : List (ℕ × Text) → List (ℕ × Node)
unfolding node
with_nodes peers = map (λ (p : ℕ × Text). (p.0, node p.0 p.1)) peers

-- The seed peers of `serve_cluster`: those of the arguments, then those of the file.
unfoldable pub seed : List (ℕ × Text) → Option Text → Result PeerError (BTreeMap ℕ Node)
unfolding insert_all read_peers_file node
seed peers none = ok (insert_all (with_nodes peers) [])
seed peers (some contents) = do
  more ← read_peers_file contents
  ok (insert_all (with_nodes more) (insert_all (with_nodes peers) []))

-- `parse_init_members`, with serde_json's reading of the members of an `InitBody`.
unfoldable pub parse_init_members :
    (List ℕ → Result Text (List (ℕ × Text))) → List ℕ → Result ApiError (Option (BTreeMap ℕ Node))
unfolding insert_all node
parse_init_members from_slice [] = ok none
parse_init_members from_slice (b ∷ body) = do
  members ← map_err mapping (from_slice (b ∷ body))
  elim members [ [] ↦ ok none | m ∷ ms ↦ ok (some (insert_all (with_nodes (m ∷ ms)) [])) ]
