-- ===== src/Utils.antt =====
-- src/common/utils.cpp: the conversions and searches that both programs share.
pub mod Netascii
pub mod CStrings
pub mod Subpath
pub mod FileSize
