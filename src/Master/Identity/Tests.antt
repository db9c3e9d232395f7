-- ===== src/Master/Identity/Tests.antt =====
-- A device on concrete data, and the theorem at an input that meets its hypotheses.
use smartmeter_gateway.Prelude.{[], codes}
use smartmeter_gateway.MeterTypes.{Device}
use smartmeter_gateway.Master.Readings.Print.{Entry}

abbrev serial : Entry
serial = record {
  code = record { medium = b'1'; measure = codes "96"; mode = codes "1"; tariff = codes "0" };
  value = codes "1EBZ0100507409";
}

abbrev meter : Device
meter = record {
  manufacturer = codes "EasyMeter";
  model = codes "DD3-BZ06-ETA-ODZ1";
  options = codes "1.0.0-abc";
  serial_number = codes "1EBZ0100507409";
  fw_version = codes "107";
  status = [];
  phases = 3;
}
