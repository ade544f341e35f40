-- ===== src/Tests/Crates.antt =====
-- The crates of the tests.
use tonlib_rs.Libs.{Libs}
use tonlib_rs.Tests.Streams.{bit_writer, bit_reader}
use tonlib_rs.Tests.Numbers.{byte_reader, big_uint, digests}

abbrev pub crates : Libs
crates = record {
  bit_writer = bit_writer;
  bit_reader = bit_reader;
  byte_reader = byte_reader;
  big_uint = big_uint;
  digests = digests;
}
