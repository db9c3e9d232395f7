-- ===== src/Master/Identity.antt =====
-- src/meter_master.cpp, `updateDeviceAndJson`: the device data of a telegram. The version of the
-- project and its commit come from a generated file and are parameters.
pub mod Print
mod Tests
use smartmeter_gateway.Prelude.{
  Bool, true, false, List, [], ◌∷◌, ◌++◌, Option, some, ◌>>=◌, ◌==◌, if◌then◌else◌, Bytes, bytes_eq,
  codes,
}
use smartmeter_gateway.MeterTypes.{Device}
use smartmeter_gateway.Lines.{lines_from, without_cr, Groups, search_obex, search_version}

abbrev pub no_device : Device
no_device = record {
  manufacturer = [];
  model = [];
  options = [];
  serial_number = [];
  fw_version = [];
  status = [];
  phases = 0;
}

abbrev is_skipped : Bytes → Bool
is_skipped [] = true
is_skipped (c ∷ s) = c == b'!'

abbrev is_version : Bytes → Bool
is_version [] = false
is_version (c ∷ s) = c == b'/'

unfoldable pub set_version : Groups → Device → Device
set_version g d = record d { fw_version = g.group2 }

unfoldable pub set_data : Groups → Device → Device
set_data g d =
    if bytes_eq g.group1 (codes "1-0:96.1.0*255")
    then record d { serial_number = g.group2 }
    else if bytes_eq g.group1 (codes "1-0:96.5.0*255")
    then record d { status = g.group2 }
    else d

-- One line without '\r'; none where the body of the loop throws.
unfoldable pub read_device_text : Bytes → Device → Option Device
read_device_text line d =
    if is_skipped line
    then some d
    else if is_version line
    then search_version line >>= (λ g. some (set_version g d))
    else search_obex line >>= (λ g. some (set_data g d))

unfoldable pub read_device_lines : List Bytes → Device → Option Device
read_device_lines [] d = some d
read_device_lines (line ∷ rest) d =
    read_device_text (without_cr line) d >>= (λ d'. read_device_lines rest d')

module _ (project_version commit_hash : Bytes) where
  -- The fields that do not come from the telegram.
  unfoldable pub complete : Device → Device
  complete d = record d {
    manufacturer = codes "EasyMeter";
    model = codes "DD3-BZ06-ETA-ODZ1";
    options = project_version ++ b'-' ∷ commit_hash;
    phases = 3;
  }

  -- The device data of a telegram; none where the code returns EPROTO.
  unfoldable pub device_of : Bytes → Option Device
  device_of telegram =
      read_device_lines (lines_from [] telegram) no_device >>= (λ d. some (complete d))
