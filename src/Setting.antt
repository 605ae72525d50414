-- ===== src/Setting.antt =====
-- setting/: the settings of an application, their values, and the in-memory implementation.
pub mod Strconv
pub mod Value
pub mod Convert
pub mod RoundTrip
pub mod Memory
pub mod Texts
