-- ===== src/Pairing.antt =====
-- Transient pair-setup of src/airplay_pairing.cpp, SRP messages in TLV8 frames (Tlv, Transient), and the
-- HomeKit pairing of src/airplay_hkp_pairing.cpp (Hkp).
pub mod Hkp
pub mod Tlv
pub mod Transient
