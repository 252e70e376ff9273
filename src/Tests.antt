-- ===== src/Tests.antt =====
-- Tests of the definitions, and each theorem at a concrete input.
mod Samples
mod Receive
mod Queue
mod Send
mod Links
mod Writes
mod Pipes
mod Flows
mod Names
mod Drain
mod Echoes
mod Options
mod Delivery
mod Udps
mod Tcps
mod Arps
mod Inits
mod Interfaces
