-- ===== src/Agent.antt =====
-- pkg/nats/client.go and capabilities.go, and the part of cmd/ucentral-client/main.go that takes the results of the agent.
pub mod Commands
pub mod Results
pub mod Replies
pub mod Capabilities
mod Tests
