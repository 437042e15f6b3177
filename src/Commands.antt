-- ===== src/Commands.antt =====
-- src/commands.c and the input commands of src/commands/input.c and src/commands/input/.
pub mod Args
pub mod Library
pub mod Numbers
pub mod Amounts
pub mod Pointer
pub mod Keyboard
pub mod Mapping
pub mod Events
pub mod SwitchLayout
pub mod Input
pub mod Run
pub mod Valid
pub mod Reading
pub mod Layouts
