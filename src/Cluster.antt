-- ===== src/Cluster.antt =====
-- src/cluster and include/roole/cluster: what a node knows of the other nodes.
pub mod View
