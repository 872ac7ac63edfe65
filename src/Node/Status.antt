-- ===== src/Node/Status.antt =====
-- mcnode/node.go and mcnode/net.go: the status of a node.
pub data Status : Type 0 where
  offline online public_status : Status
