-- ===== src/Config.antt =====
-- src/config and src/commands: the configurations of input devices and what the commands of a
-- configuration file do to them.
pub mod Input
pub mod Store
