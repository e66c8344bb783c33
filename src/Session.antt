-- ===== src/Session.antt =====
-- pkg/websocket/client.go: the decisions of `WSClient`: how long `ReconnectLoop` waits, when the reader
-- loop gives a connection up, and what the writer loop sends, keeps and discards. Sockets, timers and
-- contexts are given as what they yield. A duration is in nanoseconds.
pub mod Retry
pub mod Reader
pub mod Writer
mod Tests
