-- ===== src/Ble.antt =====
-- lib/ble: the Bluetooth applications, their connections, and the services of the board.
pub mod Types
pub mod Attr
pub mod Table
pub mod Apps
pub mod Handler
pub mod Util
pub mod Status
