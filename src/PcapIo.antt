-- ===== src/PcapIo.antt =====
-- src/pcap_io.rs: the capture file reader and writer. A file is its bytes; a reader is what is
-- left of them and how the stream ends.
pub mod Base
pub mod Header
pub mod Batch
pub mod Slim
pub mod Count
pub mod Format
pub mod Packets
pub mod Refine
pub mod Counted
pub mod Whole
pub mod Steps
pub mod Analyzed
pub mod Ends
pub mod Charged
