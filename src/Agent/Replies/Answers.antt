-- ===== src/Agent/Replies/Answers.antt =====
-- What the result of a command other than an upgrade makes of its request: `processNATSResult` of
-- cmd/ucentral-client/main.go.
use tip_olg_ucentral_client.Reqmgr.Transaction.{Transaction}
