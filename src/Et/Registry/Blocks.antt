-- ===== src/Et/Registry/Blocks.antt =====
-- batteryRegistry, meterRegistry and mpptRegistry of et/registry.go.
use go_goodwe.Base.{[], ◌∷◌}
use go_goodwe.Et.Registry.Calculator.{
  Registry, sensor, one, tenth, hundredth, thousand, cell_voltage, decimal, energy8, enum_bitmap22,
  float, int16, int32, temp, uint16, uint32,
}
use go_goodwe.Et.Labels.Codes.{bms_alarm_codes, bms_warning_codes}

unfoldable pub battery_registry : Registry
battery_registry =
    ("battery_bms", sensor "Battery BMS" "" (uint16 0 one))
    ∷ ("battery_index", sensor "Battery Index" "" (uint16 1 one))
    ∷ ("battery_status", sensor "Battery Status" "" (uint16 2 one))
    ∷ ("battery_temperature", sensor "Battery Temperature" "C" (temp 3))
    ∷ ("battery_charge_limit", sensor "Battery Charge Limit" "A" (uint16 4 one))
    ∷ ("battery_discharge_limit", sensor "Battery Discharge Limit" "A" (uint16 5 one))
    ∷ ("battery_error_l", sensor "Battery Error Low" "" (uint16 6 one))
    ∷ ("battery_soc", sensor "Battery State of Charge" "%" (uint16 7 one))
    ∷ ("battery_soh", sensor "Battery State of Health" "%" (uint16 8 one))
    ∷ ("battery_modules", sensor "Battery Modules" "" (uint16 9 one))
    ∷ ("battery_warning_l", sensor "Battery Warning Low" "" (uint16 10 one))
    ∷ ("battery_protocol", sensor "Battery Protocol" "" (uint16 11 one))
    ∷ ("battery_error_h", sensor "Battery Error High" "" (uint16 12 one))
    ∷ ("battery_error", sensor "Battery Error" "" (enum_bitmap22 12 6 bms_alarm_codes))
    ∷ ("battery_warning_h", sensor "Battery Warning High" "" (uint16 13 one))
    ∷ ("battery_warning", sensor "Battery Warning" "" (enum_bitmap22 13 10 bms_warning_codes))
    ∷ ("battery_sw_version", sensor "Battery Software Version" "" (uint16 14 one))
    ∷ ("battery_hw_version", sensor "Battery Hardware Version" "" (uint16 15 one))
    ∷ ("battery_max_cell_temp_id", sensor "Battery Max Cell Temperature ID" "" (uint16 16 one))
    ∷ ("battery_min_cell_temp_id", sensor "Battery Min Cell Temperature ID" "" (uint16 17 one))
    ∷ ("battery_max_cell_voltage_id", sensor "Battery Max Cell Voltage ID" "" (uint16 18 one))
    ∷ ("battery_min_cell_voltage_id", sensor "Battery Min Cell Voltage ID" "" (uint16 19 one))
    ∷ ("battery_max_cell_temp", sensor "Battery Max Cell Temperature" "C" (temp 20))
    ∷ ("battery_min_cell_temp", sensor "Battery Min Cell Temperature" "C" (temp 21))
    ∷ ("battery_max_cell_voltage", sensor "Battery Max Cell Voltage" "V" (cell_voltage 22))
    ∷ ("battery_min_cell_voltage", sensor "Battery Min Cell Voltage" "V" (cell_voltage 23))
    ∷ []

unfoldable pub meter_registry : Registry
meter_registry =
    ("commode", sensor "Commode" "" (uint16 0 one))
    ∷ ("rssi", sensor "RSSI" "" (uint16 1 one))
    ∷ ("manufacture_code", sensor "Manufacture Code" "" (uint16 2 one))
    ∷ ("meter_test_status", sensor "Meter Test Status" "" (uint16 3 one))
    ∷ ("meter_comm_status", sensor "Meter Communication Status" "" (uint16 4 one))
    ∷ ("active_power1", sensor "Active Power L1" "W" (int16 5 one))
    ∷ ("active_power2", sensor "Active Power L2" "W" (int16 6 one))
    ∷ ("active_power3", sensor "Active Power L3" "W" (int16 7 one))
    ∷ ("active_power_total", sensor "Active Power Total" "W" (int16 8 one))
    ∷ ("reactive_power_total", sensor "Reactive Power Total" "var" (int16 9 one))
    ∷ ("meter_power_factor1", sensor "Meter Power Factor L1" "" (decimal 10 thousand))
    ∷ ("meter_power_factor2", sensor "Meter Power Factor L2" "" (decimal 11 thousand))
    ∷ ("meter_power_factor3", sensor "Meter Power Factor L3" "" (decimal 12 thousand))
    ∷ ("meter_power_factor", sensor "Meter Power Factor" "" (decimal 13 thousand))
    ∷ ("meter_freq", sensor "Meter Frequency" "Hz" (int16 14 hundredth))
    ∷ ("meter_e_total_exp", sensor "Meter Total Energy (export)" "kWh" (float 15 thousand))
    ∷ ("meter_e_total_imp", sensor "Meter Total Energy (import)" "kWh" (float 17 thousand))
    ∷ ("meter_active_power1", sensor "Meter Active Power L1" "W" (int32 19))
    ∷ ("meter_active_power2", sensor "Meter Active Power L2" "W" (int32 21))
    ∷ ("meter_active_power3", sensor "Meter Active Power L3" "W" (int32 23))
    ∷ ("meter_active_power_total", sensor "Meter Active Power Total" "W" (int32 25))
    ∷ ("meter_reactive_power1", sensor "Meter Reactive Power L1" "var" (int32 27))
    ∷ ("meter_reactive_power2", sensor "Meter Reactive Power L2" "var" (int32 29))
    ∷ ("meter_reactive_power3", sensor "Meter Reactive Power L3" "var" (int32 31))
    ∷ ("meter_reactive_power_total", sensor "Meter Reactive Power Total" "var" (int32 33))
    ∷ ("meter_apparent_power1", sensor "Meter Apparent Power L1" "VA" (int32 35))
    ∷ ("meter_apparent_power2", sensor "Meter Apparent Power L2" "VA" (int32 37))
    ∷ ("meter_apparent_power3", sensor "Meter Apparent Power L3" "VA" (int32 39))
    ∷ ("meter_apparent_power_total", sensor "Meter Apparent Power Total" "VA" (int32 41))
    ∷ ("meter_type", sensor "Meter Type" "" (uint16 43 one))
    ∷ ("meter_sw_version", sensor "Meter Software Version" "" (uint16 44 one))
    ∷ ("meter2_active_power", sensor "Meter 2 Active Power" "W" (int32 45))
    ∷ ("meter2_e_total_exp", sensor "Meter 2 Total Energy (export)" "kWh" (float 47 thousand))
    ∷ ("meter2_e_total_imp", sensor "Meter 2 Total Energy (import)" "kWh" (float 49 thousand))
    ∷ ("meter2_comm_status", sensor "Meter 2 Communication Status" "" (uint16 51 one))
    ∷ ("meter_voltage1", sensor "Meter L1 Voltage" "V" (uint16 52 tenth))
    ∷ ("meter_voltage2", sensor "Meter L2 Voltage" "V" (uint16 53 tenth))
    ∷ ("meter_voltage3", sensor "Meter L3 Voltage" "V" (uint16 54 tenth))
    ∷ ("meter_current1", sensor "Meter L1 Current" "A" (uint16 55 tenth))
    ∷ ("meter_current2", sensor "Meter L2 Current" "A" (uint16 56 tenth))
    ∷ ("meter_current3", sensor "Meter L3 Current" "A" (uint16 57 tenth))
    ∷ ("meter_e_total_exp1", sensor "Meter Total Energy (export) L1" "kWh" (energy8 92))
    ∷ ("meter_e_total_exp2", sensor "Meter Total Energy (export) L2" "kWh" (energy8 96))
    ∷ ("meter_e_total_exp3", sensor "Meter Total Energy (export) L3" "kWh" (energy8 100))
    ∷ ("meter_e_total_exp_8", sensor "Meter Total Energy (export)" "kWh" (energy8 104))
    ∷ ("meter_e_total_imp1", sensor "Meter Total Energy (import) L1" "kWh" (energy8 108))
    ∷ ("meter_e_total_imp2", sensor "Meter Total Energy (import) L2" "kWh" (energy8 112))
    ∷ ("meter_e_total_imp3", sensor "Meter Total Energy (import) L3" "kWh" (energy8 116))
    ∷ ("meter_e_total_imp_8", sensor "Meter Total Energy (import)" "kWh" (energy8 120))
    ∷ []

unfoldable pub mppt_registry : Registry
mppt_registry =
    ("ppv_total", sensor "PV Power Total" "W" (uint32 0))
    ∷ ("pv_channel", sensor "PV Channel" "" (uint16 2 one))
    ∷ ("vpv5", sensor "PV5 Voltage" "V" (uint16 3 tenth))
    ∷ ("ipv5", sensor "PV5 Current" "A" (uint16 4 tenth))
    ∷ ("vpv6", sensor "PV6 Voltage" "V" (uint16 5 tenth))
    ∷ ("ipv6", sensor "PV6 Current" "A" (uint16 6 tenth))
    ∷ ("vpv7", sensor "PV7 Voltage" "V" (uint16 7 tenth))
    ∷ ("ipv7", sensor "PV7 Current" "A" (uint16 8 tenth))
    ∷ ("vpv8", sensor "PV8 Voltage" "V" (uint16 9 tenth))
    ∷ ("ipv8", sensor "PV8 Current" "A" (uint16 10 tenth))
    ∷ ("vpv9", sensor "PV9 Voltage" "V" (uint16 11 tenth))
    ∷ ("ipv9", sensor "PV9 Current" "A" (uint16 12 tenth))
    ∷ ("vpv10", sensor "PV10 Voltage" "V" (uint16 13 tenth))
    ∷ ("ipv10", sensor "PV10 Current" "A" (uint16 14 tenth))
    ∷ ("vpv11", sensor "PV11 Voltage" "V" (uint16 15 tenth))
    ∷ ("ipv11", sensor "PV11 Current" "A" (uint16 16 tenth))
    ∷ ("vpv12", sensor "PV12 Voltage" "V" (uint16 17 tenth))
    ∷ ("ipv12", sensor "PV12 Current" "A" (uint16 18 tenth))
    ∷ ("vpv13", sensor "PV13 Voltage" "V" (uint16 19 tenth))
    ∷ ("ipv13", sensor "PV13 Current" "A" (uint16 20 tenth))
    ∷ ("vpv14", sensor "PV14 Voltage" "V" (uint16 21 tenth))
    ∷ ("ipv14", sensor "PV14 Current" "A" (uint16 22 tenth))
    ∷ ("vpv15", sensor "PV15 Voltage" "V" (uint16 23 tenth))
    ∷ ("ipv15", sensor "PV15 Current" "A" (uint16 24 tenth))
    ∷ ("vpv16", sensor "PV16 Voltage" "V" (uint16 25 tenth))
    ∷ ("ipv16", sensor "PV16 Current" "A" (uint16 26 tenth))
    ∷ []
