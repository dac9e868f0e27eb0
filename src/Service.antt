-- ===== src/Service.antt =====
-- cmd/provisioner/main.go and pkg/controller/v1/cntrl.go: the service, from its start to its end.
pub mod Life
pub mod Start
pub mod Listen
pub mod Session
pub mod Server
