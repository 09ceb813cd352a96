-- ===== src/Parse.antt =====
-- src/trace_config_parse.c: the parser of the configuration file, from its lines to the rules
-- that the control thread and the threads of the program read.
pub mod Text
pub mod State
pub mod Window
pub mod Entries
pub mod Punits
pub mod Header
pub mod Lexgions
pub mod Domains
pub mod PunitSections
pub mod Sections
pub mod LexgionKeys
pub mod DomainKeys
pub mod Keys
pub mod File
pub mod Sizes
