-- ===== src/History.antt =====
-- backend/app/core/model_access/messages.py and backend/app/core/context_compression.py: a
-- conversation is cut only where no tool call is parted from its result, both for the recent
-- history that a prompt takes and for the compression of a long thread.
-- A message's content is the text that `display_text` reads from it.
pub mod Exchanges
pub mod Compression
pub mod Cuts
pub mod Plans
