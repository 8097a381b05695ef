-- ===== src/Tests.antt =====
-- Runs of the modelled code on concrete input, and each theorem at an input that meets its
-- hypotheses.
mod Heap
mod Buffers
mod Maps
mod Configs
mod Names
mod Tags
mod MapFiles
mod Sockets
mod Logins
mod Edits
mod Protocols
mod Floods
mod Trees
