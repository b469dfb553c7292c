-- ===== src/Ps2.antt =====
-- lib/ps2: the driver of a PS/2 device (a trackpad): one interrupt for each clock edge, commands with
-- their acknowledgement, and movement packets of three bytes.
-- GPIO, queues, semaphores and delays belong to the SDK: what the driver asks of them is a list of
-- `Call`s in order, and what they answer is an argument.
pub mod Types
pub mod Isr
pub mod Command
pub mod Mvmt
pub mod Init
