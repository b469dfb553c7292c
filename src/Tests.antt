-- ===== src/Tests.antt =====
-- The theorems at concrete inputs.
mod Uart
mod Ps2
mod Bms
mod Btn
mod Remote
mod Ble
mod Board
mod Nvs
mod Onboard
mod Main
mod Task
mod Batteries
