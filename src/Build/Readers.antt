-- ===== src/Build/Readers.antt =====
-- What is read out of files by regular expressions (deploypro/domain/detect.py). Each expression is
-- a scan over the text's positions.
pub mod Ports
pub mod Comments
pub mod Apps
pub mod Uncommented
