-- ===== src/Lib.antt =====
-- A verification of the core of hayward, a tiling window manager for Wayland.
--
-- The window manager keeps a tree of windows, columns, workspaces and outputs (src/tree), all of
-- whose lists are arrays of pointers (src/list.c). An operation on the tree changes the objects at
-- once and marks them; the transaction manager (src/tree/transaction.c) then commits all the
-- marked objects together, waits until the clients have drawn what was asked of them, and applies
-- the new layout.
--
-- Devices are set up by commands: src/commands/input.c collects one setting in a new configuration,
-- by the handlers of src/commands/input, and src/config/input.c stores it, merged on what is there.
--
-- Common: the names, Boolean tests, lists and integers that the other modules use.
--
-- ListT: src/list.c, with include/hayward/list.h. `ListT` is `list_t`, a buffer with a capacity
-- and a length; each operation has its C name. ListT/Seq is what the array promises, operations on
-- plain lists, ListT/Refine and ListT/Search relate the two, and ListT/Sort is the in-place merge
-- sort of the same file. Its merge loop runs on fuel, one round per item of the
-- range, as each round moves `left` on by one; its recursion has as many levels as there are
-- items, as each call halves the range.
--
-- Transaction: src/tree/transaction.c, with include/hayward/tree/transaction.h. `Manager` is
-- `struct hwd_transaction_manager`; the handlers are functions from its states, which fail where
-- an assertion does. What the listeners of a signal ask of the manager, the debug flags and
-- whether a timer could be made are their arguments. Transaction/Events is the event loop: the
-- states that any order of callbacks reaches.
--
-- Tree: src/tree. Tree/State holds the objects of include/hayward/tree, in stores indexed by
-- pointers; Tree/Window the back links of src/tree/window.c, Tree/Column the children of
-- src/tree/column.c, Tree/Workspace the columns and the active window of src/tree/workspace.c,
-- Tree/Floating its floating windows, Tree/Focus its workspace_set_active_window, Tree/Lifecycle
-- the ends of columns and workspaces and window_detach, Tree/Root the focus of src/tree/root.c, and
-- Tree/Naming the order of the workspaces by name.
-- Tree/Inv says when the tree is well formed; Tree/Links and Tree/Floats have the changes to the
-- links that the operations are made of. The lists of the tree are plain lists, as ListT
-- justifies. The tree's marks queue transactions by way of Transaction.
--
-- Text: C strings as lists of bytes, and the functions of the C library on them.
--
-- Strings: src/stringop.c. A pointer into a text is the text behind it, and each loop over a text is
-- recursion on it. Strings/Words is about splitting what was joined, Strings/Quotes about quoted
-- texts, Strings/Separate about argsep and Strings/Unescape about escapes.
--
-- Execute: how src/commands.c runs lines of commands. `Variable` is `struct hwd_variable`, which
-- src/commands/set.c sets and do_var_replacement of src/config.c replaces; Execute/Table and
-- Execute/Setting are about the list of variables, Execute/Variables about replacement.
-- Execute/Command has execute_command, whose handlers, tables and bsearch are parameters;
-- Execute/Line and Execute/Runs are about lines of several commands. Execute/Reading has
-- config_command, and Execute/File the loop of read_config, with the file as a list of lines;
-- Execute/Blocks is about lines within blocks. Execute/Nested has what a whole file is to its author,
-- items within items, the lines they are written as (with a brace on the line of the name or below)
-- and what they do without a stack of blocks; its children compare read_config with that, Layout and
-- Braces for the lines, Words and Plain for the commands, Steps for the rounds, Refine for the file.
-- The handlers are taken to open and close no block, as none of src/commands/ does. Both loops run
-- on fuel, a round for each character or each line; Execute/Fuel and Execute/Rounds show that they
-- never run out.
-- Execute/Deferred has the commands and bindings that wait until `config` is active, the loop over
-- the bindings on fuel, a round for each; Execute/Waiting is about their order.
--
-- Bind: src/commands/bind.c. `HwdBinding` is `struct hwd_binding`, with its flags as Booleans.
-- Bind/Keys reads the options and the keys of a binding, Bind/Command has the commands;
-- Bind/Distinct, Bind/Modes and Bind/Typed are about the lists of a mode, Bind/Undone about
-- unbinding. Bind/Translate has translate_keysyms of src/config.c, which makes the lists anew when the
-- keymap changes; Bind/Retranslated and Bind/Keymap are about that. The keyboard library and qsort are
-- parameters.
--
-- Scheduler: src/scheduler.c, with the clock as an argument; a timer is what it is set to.
-- Scheduler/Deadline is about painting in time.
--
-- Config: src/config/input.c. Config/Input has `struct input_config` and its merging, Config/Store
-- the two lists of configurations and store_input_config, whose result NULL is `none`. Floating
-- numbers, the keyboard library and the devices that are plugged in are parameters. Config/Input/Merge
-- and the modules below Config/Store are about what merging and storing keep.
--
-- Commands: src/commands.c, src/commands/input.c and src/commands/input. A handler, such as
-- input_cmd_tap, is a function from the state of `config` and its arguments to a status and a
-- state, with the checks that all share in Commands/Library; Commands/Input has the tables and
-- cmd_input. The numbers that the C library reads, libinput's constants and the names of its event
-- codes are parameters. Commands/Valid is about the bounds of the settings, Commands/Reading about
-- commands that fail, and Commands/Layouts about the layouts of keyboards.
--
-- Keyboard: src/input/keyboard.c. `ShortcutState` is `struct hwd_shortcut_state`, whose two arrays
-- are one array of pairs; its loops run once per slot. Keyboard/Held says what list of keys the
-- array stands for, Keyboard/Erase and Keyboard/Add are about its changes, Keyboard/Order about any
-- sequence of them. Keyboard/Bindings has get_active_binding; Keyboard/Match, Keyboard/Rank and
-- Keyboard/Active are about it.
--
-- Seat: src/config/seat.c, and the command `seat` of src/commands/seat.c with its handlers in
-- Seat/Commands. Seat/Stored, Seat/Handled and Seat/Command are about the bounds of timeouts and
-- about commands that fail.
--
-- Tests: small concrete arrays, transactions, trees, configurations, seats, keys, bindings, lines of
-- commands, files and frames.
--
-- Not modelled: drawing, the compositor library's protocols and the events of input devices, whose
-- functions mostly pass the objects of libraries on to libraries; the other commands, which set a
-- field or call an operation; the search for the configuration file and its defaults, which are file
-- names and constants; the geometry of the layout, which is arithmetic of doubles; and the release of
-- memory.
-- A number that is read into an `int` is taken modulo 2^32; no sum of `int`s overflows, and
-- allocation succeeds.
pub mod Common
pub mod Text
pub mod Strings
pub mod ListT
pub mod Config
pub mod Commands
pub mod Execute
pub mod Bind
pub mod Scheduler
pub mod Keyboard
pub mod Seat
pub mod Transaction
pub mod Tree
pub mod Tests
