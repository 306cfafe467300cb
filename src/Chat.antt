-- ===== src/Chat.antt =====
-- The assistant's rules of packages/domain/src/chat-*.ts.
pub mod Context
