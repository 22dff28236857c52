-- ===== src/Tests/Events/Handover.antt =====
-- A block on its way from a source to the driver.
use levbdim.Base.{◌+◌, ◌≤◌, [], length, arith}
use levbdim.Buffer.{Buffer}
use levbdim.Source.Datasource.{Datasource, new_datasource}
use levbdim.Source.Datasocket.{Datasocket}
use levbdim.Source.Handover.{got}
use levbdim.Tests.Systems.{fs, fs_laws, disk, zeros, length-zeros}
use levbdim.Tests.Events.{block, large_block, dir}

-- A source with a block of 22 bytes.
abbrev source : Datasource
source = new_datasource 1 2 (block 0 0).mem

source_room : 22 ≤ length source.buffer.mem
unfolding new_datasource
source_room = omega arith

-- The socket of the source, and the way of its block through the files.
abbrev socket : Datasocket
socket = record {
  detid = 1;
  sourceid = 2;
  buffer = record { mem = zeros 32; psize = 0 };
  service_name = [];
  memdir = dir;
  count = 0;
}

socket_room : 20 + 2 ≤ length socket.buffer.mem
socket_room = omega (arith, length-zeros 32)

abbrev arrived : Buffer
arrived = got fs fs_laws 5 7 2 source socket large_block disk source_room (omega arith) socket_room
