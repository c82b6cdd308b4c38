-- ===== src/Cluster/Client/Reported.antt =====
-- The metrics that a node reports, `to_cluster_metrics` of crates/cluster/src/cluster.rs.
use lumen.Base.{ℕ, Text, bytes, Option, none, some, List, map}
use lumen.Proto.Openraft.{LogId}
use lumen.Proto.Wire.{Node}
use lumen.Cluster.Client.{Metrics, ServerState, learner, follower, candidate, leader, shutdown}

pub record ClusterMetrics : Type 0 where
  pub id : ℕ
  pub current_term : ℕ
  pub state : Text
  pub current_leader : Option ℕ
  pub last_log_index : Option ℕ
  pub last_applied_index : Option ℕ
  pub voters : List ℕ
  pub members : List ℕ

unfoldable pub server_state : ServerState → Text
server_state learner = bytes "learner"
server_state follower = bytes "follower"
server_state candidate = bytes "candidate"
server_state leader = bytes "leader"
server_state shutdown = bytes "shutdown"

abbrev index_of : Option LogId → Option ℕ
index_of none = none
index_of (some id) = some id.index

unfoldable pub to_cluster_metrics : Metrics → ClusterMetrics
unfolding server_state
to_cluster_metrics m = record {
  id = m.id;
  current_term = m.current_term;
  state = server_state m.state;
  current_leader = m.current_leader;
  last_log_index = m.last_log_index;
  last_applied_index = index_of m.last_applied;
  voters = m.voter_ids;
  members = map (λ (n : ℕ × Node). n.0) m.nodes;
}
