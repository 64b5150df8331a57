-- ===== src/Modbus.antt =====
-- components/modbus_analyzer: the parser's frame check, the slicer that cuts the byte stream into
-- frames, and the analyzer's callbacks.
pub mod Parser
pub mod Slicer
pub mod Analyzer
