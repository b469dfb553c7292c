-- ===== src/Ble/Attr.antt =====
-- lib/ble/ble_apps: the tables of attributes that the three services hand to the Bluetooth stack.
pub mod Updates
pub mod Fits
use esk.Common.{ℕ, zero, suc, Bool, true, false, List, [], ◌∷◌, replicate}

-- A UUID of 16 bits: one of the SDK's three constants, or a number of the program's.
pub data Uuid : Type 0 where
  primary_service char_declare char_client_config : Uuid
  own : ℕ → Uuid

-- ESP_GATT_PERM_READ and ESP_GATT_PERM_WRITE
pub record Perm : Type 0 where
  pub read : Bool
  pub write : Bool

-- The bits of a characteristic's properties.
pub record Props : Type 0 where
  pub read : Bool
  pub write : Bool
  pub notify : Bool

-- What an attribute's memory holds at first.
pub data Content : Type 0 where
  uuid16 : Uuid → Content
  properties : Props → Content
  memory : List ℕ → Content

-- `esp_gatts_attr_db_t`, whose response is automatic and whose UUID has 16 bits throughout.
pub record Attr : Type 0 where
  pub uuid : Uuid
  pub perm : Perm
  pub max_length : ℕ
  pub length : ℕ
  pub value : Content

abbrev pub perm_read : Perm
perm_read = record { read = true; write = false }

abbrev pub perm_read_write : Perm
perm_read_write = record { read = true; write = true }

-- CHAR_PROP_READ_WRITE and CHAR_PROP_READ_NOTIFY
abbrev pub prop_read_write : Props
prop_read_write = record { read = true; write = true; notify = false }

abbrev pub prop_read_notify : Props
prop_read_notify = record { read = true; write = false; notify = true }

abbrev pub service : ℕ → Attr
service u = record {
  uuid = primary_service;
  perm = perm_read;
  max_length = 2;
  length = 2;
  value = uuid16 (own u);
}

abbrev pub declaration : Props → Attr
declaration props = record {
  uuid = char_declare;
  perm = perm_read;
  max_length = 1;
  length = 1;
  value = properties props;
}

-- An array of `n` bytes, `{0}`.
abbrev pub char_val : ℕ → Perm → ℕ → Attr
char_val u perm n = record {
  uuid = own u;
  perm = perm;
  max_length = n;
  length = n;
  value = memory (replicate n 0);
}

abbrev pub descriptor : Attr
descriptor = record {
  uuid = char_client_config;
  perm = perm_read_write;
  max_length = 2;
  length = 2;
  value = memory (0 ∷ 0 ∷ []);
}

abbrev pub srvc_auth_attr_list : List Attr
srvc_auth_attr_list =
    service 0xE8A0
    ∷ declaration prop_read_write
    ∷ char_val 0xE8A1 perm_read_write 32
    ∷ descriptor
    ∷ declaration prop_read_write
    ∷ char_val 0xE8A2 perm_read_write 32
    ∷ descriptor
    ∷ []

abbrev pub srvc_ctrl_attr_list : List Attr
srvc_ctrl_attr_list =
    service 0xE8C0
    ∷ declaration prop_read_write
    ∷ char_val 0xE8C1 perm_read_write 1
    ∷ descriptor
    ∷ declaration prop_read_write
    ∷ char_val 0xE8C2 perm_read_write 1
    ∷ descriptor
    ∷ []

-- The last two values are arrays of `esk8_bms_status_t`, of 8 bytes each, and of `esk8_bms_deep_status_t`, of
-- 55.
abbrev pub srvc_status_attr_list : List Attr
srvc_status_attr_list =
    service 0xE8E0
    ∷ declaration prop_read_notify
    ∷ char_val 0xE8E1 perm_read 1
    ∷ descriptor
    ∷ declaration prop_read_notify
    ∷ char_val 0xE8E2 perm_read 32
    ∷ descriptor
    ∷ declaration prop_read_notify
    ∷ char_val 0xE8E3 perm_read 220
    ∷ descriptor
    ∷ []

-- The tables by the numbers of the applications in app_main: the authentication, the control and the status.
abbrev pub attr_db : ℕ → List Attr
attr_db zero = srvc_auth_attr_list
attr_db (suc zero) = srvc_ctrl_attr_list
attr_db (suc (suc n)) = srvc_status_attr_list
