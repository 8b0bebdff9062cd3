-- ===== src/Wire.antt =====
-- wire/: CRCs, the GDP header and packet, the routing messages of GCTL.
pub mod Crc
pub mod Gdp
mod Tests
