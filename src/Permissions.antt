-- ===== src/Permissions.antt =====
-- app/permissions: the authorization rules, one module for each file that services use.
pub mod ChannelRules
pub mod ConversationRules
pub mod ModerationRules
pub mod MessageRules
