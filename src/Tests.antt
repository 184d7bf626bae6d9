-- ===== src/Tests.antt =====
-- Test data, tests by evaluation, and each theorem applied at a concrete input.
mod Scenario
mod PresenceTests
mod ChannelTests
mod ModerationTests
mod ConversationTests
mod MessageTests
mod NotificationTests
mod VisibilityTests
mod RateLimitTests
mod HistoryTests
mod ReactionTests
mod Platforms
mod UserTests
mod AttachmentTests
mod SendingTests
mod ConfigTests
mod SocketTests
mod SchemaTests
mod PagingTests
