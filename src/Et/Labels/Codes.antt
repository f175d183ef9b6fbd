-- ===== src/Et/Labels/Codes.antt =====
-- The label dictionaries of et/const.go for the bits of error and status words.
use go_goodwe.Base.{[], ◌∷◌}
use go_goodwe.Et.Labels.Table.{Labels}

unfoldable pub error_codes : Labels
error_codes =
    (31, "Internal Communication Failure")
    ∷ (30, "EEPROM R/W Failure")
    ∷ (29, "Fac Failure")
    ∷ (28, "DSP communication failure")
    ∷ (27, "PhaseAngleFailure")
    ∷ (25, "Relay Check Failure")
    ∷ (23, "Vac Consistency Failure")
    ∷ (22, "Fac Consistency Failure")
    ∷ (20, "Back-Up Over Load")
    ∷ (19, "DC Injection High")
    ∷ (18, "Isolation Failure")
    ∷ (17, "Vac Failure")
    ∷ (16, "External Fan Failure")
    ∷ (15, "PV Over Voltage")
    ∷ (14, "Utility Phase Failure")
    ∷ (13, "Over Temperature")
    ∷ (12, "InternalFan Failure")
    ∷ (11, "DC Bus High")
    ∷ (10, "Ground I Failure")
    ∷ (9, "Utility Loss")
    ∷ (8, "AC HCT Failure")
    ∷ (7, "Relay Device Failure")
    ∷ (6, "GFCI Device Failure")
    ∷ (4, "GFCI Consistency Failure")
    ∷ (3, "DCI Consistency Failure")
    ∷ (1, "AC HCT Check Failure")
    ∷ (0, "GFCI Device Check Failure")
    ∷ []

unfoldable pub diag_status_codes : Labels
diag_status_codes =
    (0, "Battery voltage low")
    ∷ (1, "Battery SOC low")
    ∷ (2, "Battery SOC in back")
    ∷ (3, "BMS: Discharge disabled")
    ∷ (4, "Discharge time on")
    ∷ (5, "Charge time on")
    ∷ (6, "Discharge Driver On")
    ∷ (7, "BMS: Discharge current low")
    ∷ (8, "APP: Discharge current too low")
    ∷ (9, "Meter communication failure")
    ∷ (10, "Meter connection reversed")
    ∷ (11, "Self-use load light")
    ∷ (12, "EMS: discharge current is zero")
    ∷ (13, "Discharge BUS high PV voltage")
    ∷ (14, "Battery Disconnected")
    ∷ (15, "Battery Overcharged")
    ∷ (16, "BMS: Temperature too high")
    ∷ (17, "BMS: Charge too high")
    ∷ (18, "BMS: Charge disabled")
    ∷ (19, "Self-use off")
    ∷ (20, "SOC delta too volatile")
    ∷ (21, "Battery self discharge too high")
    ∷ (22, "Battery SOC low (off-grid)")
    ∷ (23, "Grid wave unstable")
    ∷ (24, "Export power limit set")
    ∷ (25, "PF value set")
    ∷ (26, "Real power limit set")
    ∷ (27, "DC output on")
    ∷ (28, "SOC protect off")
    ∷ (30, "BMS: Emergency charging")
    ∷ []

unfoldable pub bms_alarm_codes : Labels
bms_alarm_codes =
    (15, "Charging over-voltage 3")
    ∷ (14, "Discharging under-voltage 3")
    ∷ (13, "Cell temperature high 3")
    ∷ (12, "Communication failure 2")
    ∷ (11, "Charging circuit failure")
    ∷ (10, "Discharging circuit failure")
    ∷ (9, "Battery lock")
    ∷ (8, "Battery break")
    ∷ (7, "DC bus fault")
    ∷ (6, "Precharge fault")
    ∷ (5, "Discharging over-current 2")
    ∷ (4, "Charging over-current 2")
    ∷ (3, "Cell temperature low 2")
    ∷ (2, "Cell temperature high 2")
    ∷ (1, "Discharging under-voltage 2")
    ∷ (0, "Charging over-voltage 2")
    ∷ []

unfoldable pub bms_warning_codes : Labels
bms_warning_codes =
    (11, "System temperature high")
    ∷ (10, "System temperature low 2")
    ∷ (9, "System temperature low 1")
    ∷ (8, "Cell imbalance")
    ∷ (7, "System reboot")
    ∷ (6, "Communication failure 1")
    ∷ (5, "Discharging over-current 1")
    ∷ (4, "Charging over-current 1")
    ∷ (3, "Cell temperature low 1")
    ∷ (2, "Cell temperature high 1")
    ∷ (1, "Discharging under-voltage 1")
    ∷ (0, "Charging over-voltage 1")
    ∷ []
