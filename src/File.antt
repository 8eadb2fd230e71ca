-- ===== src/File.antt =====
-- src/common/tftp_read_file.cpp and src/common/tftp_write_file.cpp, over the streams of <cstdio>.
pub mod Stream
pub mod ReadFile
pub mod WriteFile
