-- ===== src/Channel.antt =====
-- app/channel/: the messages that come in and the ones that go out.
pub mod Inbox
pub mod Outbox
