-- ===== src/Bms.antt =====
-- lib/bms: reading the registers of the battery management systems over the UART.
-- The UART driver of the SDK is the record `UartDriver`, a parameter; what it documents of a read is a
-- hypothesis where a theorem needs it.
pub mod Driver
pub mod Query
pub mod Status
pub mod Setup
