-- ===== src/UnixIo.antt =====
-- src/libe_kermit/unixio_rpi.c: the input and output of E-Kermit on the Raspberry Pi.
pub mod Packet
pub mod File
pub mod Dir
