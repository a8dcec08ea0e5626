-- ===== src/Driver/Tests.antt =====
-- A request by name on a database with two regulators and a memory of registers.
use cr_dk.Driver.Requests.{ask, ask-IsSentFor, IsSentFor, VregRequest}
use cr_dk.Driver.Published.{published}
use cr_dk.Bits.{bit}
use cr_dk.Cmddb.Tests.{database, ldo2}
use cr_dk.Rpmh.Tests.{state, blank, device-IsApart}
use cr_dk.Rpmh.Types.{RpmhState}
use cr_dk.Mmio.Storage.{Ram, ram, ram-IsStorage}
use cr_dk.Status.{Status}
use cr_dk.Base.{◌≡◌, refl, some, arith}

abbrev voltage_of_ldo2 : Status × RpmhState Ram
voltage_of_ldo2 =
    ask ram 9 (published (some database)) ldo2 (VregRequest.vreg_voltage 1800) (state 1 blank)

ask_ok : voltage_of_ldo2.0 ≡ Status.success
unfolding ask published bit
ask_ok = refl

ask-IsSentFor_example :
    IsSentFor ram-IsStorage 9 (some database) ldo2 (state 1 blank) 0 1800 voltage_of_ldo2.1
ask-IsSentFor_example =
    ask-IsSentFor ram-IsStorage 9 (some database) ldo2 (state 1 blank)
      (VregRequest.vreg_voltage 1800) (omega arith) (device-IsApart 1) ask_ok
