-- ===== src/Simulator/Workload/Accepted.antt =====
-- cmd/simulator/main.go: buildBatch, against the server that receives the batch.
use khaos.Hazard.Spec.{Hazard}
