-- ===== src/Et/Registry/Main.antt =====
-- The registry of et/registry.go: the sensors of the main telemetry block.
use go_goodwe.Base.{[], ◌∷◌, ◌++◌}
use go_goodwe.Et.Registry.Calculator.{
  Registry, sensor, one, tenth, hundredth, energy2, energy4, enum2, enum_bitmap4, enum_h, enum_l,
  grid_in_out, grid_in_out_label, high_byte, house_consumption, int16, int32, low_byte, ppv,
  timestamp, uint16, uint32,
}
use go_goodwe.Et.Labels.Modes.{pv_modes, grid_modes, battery_modes, work_modes_et, safety_countries}
use go_goodwe.Et.Labels.Codes.{error_codes, diag_status_codes}

unfoldable pub grid_sensors : Registry
grid_sensors =
    ("vpv1", sensor "PV1 Voltage" "V" (uint16 3 tenth))
    ∷ ("ipv1", sensor "PV1 Current" "A" (uint16 4 tenth))
    ∷ ("ppv1", sensor "PV1 Power" "W" (uint32 5))
    ∷ ("vpv2", sensor "PV2 Voltage" "V" (uint16 7 tenth))
    ∷ ("ipv2", sensor "PV2 Current" "A" (uint16 8 tenth))
    ∷ ("ppv2", sensor "PV2 Power" "W" (uint32 9))
    ∷ ("vpv3", sensor "PV3 Voltage" "V" (uint16 11 tenth))
    ∷ ("ipv3", sensor "PV3 Current" "A" (uint16 12 tenth))
    ∷ ("ppv3", sensor "PV3 Power" "W" (uint32 13))
    ∷ ("vpv4", sensor "PV4 Voltage" "V" (uint16 15 tenth))
    ∷ ("ipv4", sensor "PV4 Current" "A" (uint16 16 tenth))
    ∷ ("ppv4", sensor "PV4 Power" "W" (uint32 17))
    ∷ ("pv4_mode", sensor "PV4 Mode Code" "" (high_byte 19))
    ∷ ("pv3_mode", sensor "PV3 Mode Code" "" (low_byte 19))
    ∷ ("pv2_mode", sensor "PV2 Mode Code" "" (high_byte 20))
    ∷ ("pv1_mode", sensor "PV1 Mode Code" "" (low_byte 20))
    ∷ ("pv4_mode_label", sensor "PV4 Mode" "" (enum_h 19 pv_modes))
    ∷ ("pv3_mode_label", sensor "PV3 Mode" "" (enum_l 19 pv_modes))
    ∷ ("pv2_mode_label", sensor "PV2 Mode" "" (enum_h 20 pv_modes))
    ∷ ("pv1_mode_label", sensor "PV1 Mode" "" (enum_l 20 pv_modes))
    ∷ ("vgrid", sensor "Grid L1 Voltage" "V" (uint16 21 tenth))
    ∷ ("igrid", sensor "Grid L1 Current" "A" (uint16 22 tenth))
    ∷ ("fgrid", sensor "Grid L1 Frequency" "Hz" (int16 23 hundredth))
    ∷ ("pgrid", sensor "Grid L1 Power" "W" (int16 25 one))
    ∷ ("vgrid2", sensor "Grid L2 Voltage" "V" (uint16 26 tenth))
    ∷ ("igrid2", sensor "Grid L2 Current" "A" (uint16 27 tenth))
    ∷ ("fgrid2", sensor "Grid L2 Frequency" "Hz" (int16 28 hundredth))
    ∷ ("pgrid2", sensor "Grid L2 Power" "W" (int16 30 one))
    ∷ ("vgrid3", sensor "Grid L3 Voltage" "V" (uint16 31 tenth))
    ∷ ("igrid3", sensor "Grid L3 Current" "A" (uint16 32 tenth))
    ∷ ("fgrid3", sensor "Grid L3 Frequency" "Hz" (int16 33 hundredth))
    ∷ ("pgrid3", sensor "Grid L3 Power" "W" (int16 35 one))
    ∷ ("grid_mode", sensor "Grid Mode Code" "" (uint16 36 one))
    ∷ ("grid_mode_label", sensor "Grid Mode" "" (enum2 36 grid_modes))
    ∷ ("total_inverter_power", sensor "Total Inverter Power" "W" (int16 38 one))
    ∷ ("active_power", sensor "Active Power" "W" (int16 40 one))
    ∷ ("reactive_power", sensor "Reactive Power" "var" (int16 42 one))
    ∷ ("apparent_power", sensor "Apparent Power" "VA" (int16 44 one))
    ∷ ("grid_in_out", sensor "Grid In/Out Code" "" grid_in_out)
    ∷ ("grid_in_out_label", sensor "Grid In/Out" "" grid_in_out_label)
    ∷ []

unfoldable pub backup_sensors : Registry
backup_sensors =
    ("backup_v1", sensor "Backup L1 Voltage" "V" (uint16 45 tenth))
    ∷ ("backup_i1", sensor "Backup L1 Current" "A" (uint16 46 tenth))
    ∷ ("backup_f1", sensor "Backup L1 Frequency" "Hz" (int16 47 hundredth))
    ∷ ("load_mode1", sensor "Load Mode L1" "" (uint16 48 one))
    ∷ ("backup_p1", sensor "Backup L1 Power" "W" (int16 50 one))
    ∷ ("backup_v2", sensor "Backup L2 Voltage" "V" (uint16 51 tenth))
    ∷ ("backup_i2", sensor "Backup L2 Current" "A" (uint16 52 tenth))
    ∷ ("backup_f2", sensor "Backup L2 Frequency" "Hz" (int16 53 hundredth))
    ∷ ("load_mode2", sensor "Load Mode L2" "" (uint16 54 one))
    ∷ ("backup_p2", sensor "Backup L2 Power" "W" (int16 56 one))
    ∷ ("backup_v3", sensor "Backup L3 Voltage" "V" (uint16 57 tenth))
    ∷ ("backup_i3", sensor "Backup L3 Current" "A" (uint16 58 tenth))
    ∷ ("backup_f3", sensor "Backup L3 Frequency" "Hz" (int16 59 hundredth))
    ∷ ("load_mode3", sensor "Load Mode L3" "" (uint16 60 one))
    ∷ ("backup_p3", sensor "Backup L3 Power" "W" (int16 62 one))
    ∷ ("load_p1", sensor "Load L1 Power" "W" (int16 64 one))
    ∷ ("load_p2", sensor "Load L2 Power" "W" (int16 66 one))
    ∷ ("load_p3", sensor "Load L3 Power" "W" (int16 68 one))
    ∷ ("backup_ptotal", sensor "Load PTotal" "W" (int16 70 one))
    ∷ ("load_ptotal", sensor "Load PTotal Backup" "W" (int16 72 one))
    ∷ ("ups_load", sensor "UPS Load" "W" (uint16 73 one))
    ∷ ("temperature_air", sensor "Air Temperature" "C" (int16 74 tenth))
    ∷ ("temperature_module", sensor "Module Temperature" "C" (int16 75 tenth))
    ∷ ("temperature", sensor "Temperature" "C" (int16 76 tenth))
    ∷ ("function_bit", sensor "Function Bit" "" (uint16 77 one))
    ∷ ("bus_voltage", sensor "Bus Voltage" "V" (uint16 78 tenth))
    ∷ ("nbus_voltage", sensor "Negative Bus Voltage" "V" (uint16 79 tenth))
    ∷ ("vbattery1", sensor "Battery Voltage" "V" (uint16 80 tenth))
    ∷ ("ibattery1", sensor "Battery Current" "A" (int16 81 tenth))
    ∷ ("pbattery1", sensor "Battery Power" "W" (int32 82))
    ∷ ("battery_mode", sensor "Battery Mode Code" "" (uint16 84 one))
    ∷ ("battery_mode_label", sensor "Battery Mode" "" (enum2 84 battery_modes))
    ∷ ("warning_code", sensor "Warning Code" "" (uint16 85 one))
    ∷ ("safety_country", sensor "Safety Country Code" "" (uint16 86 one))
    ∷ ("safety_country_label", sensor "Safety Country" "" (enum2 86 safety_countries))
    ∷ ("work_mode", sensor "Work Mode Code" "" (uint16 87 one))
    ∷ ("work_mode_label", sensor "Work Mode" "" (enum2 87 work_modes_et))
    ∷ ("operation_mode", sensor "Operation Mode" "" (uint16 88 one))
    ∷ ("error_codes", sensor "Error Codes" "" (uint32 89))
    ∷ ("errors", sensor "Errors" "" (enum_bitmap4 89 error_codes))
    ∷ []

unfoldable pub energy_sensors : Registry
energy_sensors =
    ("e_total", sensor "Total Energy Produced" "kWh" (energy4 91))
    ∷ ("e_day", sensor "Daily Energy" "kWh" (energy4 93))
    ∷ ("e_total_exp", sensor "Total Export Energy" "kWh" (energy4 95))
    ∷ ("h_total", sensor "Total Hours" "" (uint32 97))
    ∷ ("e_day_exp", sensor "Daily Export Energy" "kWh" (energy2 99))
    ∷ ("e_total_imp", sensor "Total Import Energy" "kWh" (energy4 100))
    ∷ ("e_day_imp", sensor "Daily Import Energy" "kWh" (energy2 102))
    ∷ ("e_load_total", sensor "Total Load Energy" "kWh" (energy4 103))
    ∷ ("e_load_day", sensor "Daily Load Energy" "kWh" (energy2 105))
    ∷ ("e_bat_charge_total", sensor "Total Battery Charge Energy" "kWh" (energy4 106))
    ∷ ("e_bat_charge_day", sensor "Daily Battery Charge Energy" "kWh" (energy2 108))
    ∷ ("e_bat_discharge_total", sensor "Total Battery Discharge Energy" "kWh" (energy4 109))
    ∷ ("e_bat_discharge_day", sensor "Daily Battery Discharge Energy" "kWh" (energy2 111))
    ∷ ("diagnose_result", sensor "Diagnose Result" "" (uint32 120))
    ∷ ("diagnose_result_label", sensor "Diagnose Result" "" (enum_bitmap4 120 diag_status_codes))
    ∷ ("ppv", sensor "Total PV Power" "W" ppv)
    ∷ ("house_consumption", sensor "House Consumption" "W" house_consumption)
    ∷ ("timestamp", sensor "Timestamp" "" (timestamp 0))
    ∷ []

unfoldable pub registry : Registry
registry = grid_sensors ++ (backup_sensors ++ energy_sensors)
