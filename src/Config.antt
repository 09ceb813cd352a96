-- ===== src/Config.antt =====
-- src/trace_config.h: the configuration that the control thread writes and every thread reads.
-- Flags of type `int` are Booleans, C strings are their bytes up to the terminating 0, and the
-- arrays over the domains are lists with one element for each of the MAX_NUM_DOMAINS slots.
pub mod Mode
pub mod Window
pub mod Domain
pub mod Rules
pub mod Punits
