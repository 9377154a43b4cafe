-- ===== src/BitPack.antt =====
-- yojimbo_bitpack.h: `BitWriter` and `BitReader`, on a buffer of 32-bit words.
-- A failed assertion is `none`, and so is an access outside the buffer. Words are in the byte order of
-- the wire, which is little endian, as on the machines where `host_to_network` is the identity.
pub mod Digits
pub mod Writer
pub mod Reader
pub mod Fields
