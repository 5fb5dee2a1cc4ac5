-- ===== src/Types/Measurement.antt =====
-- `rust/src/core/common/types/measurement.rs`.
use dqcsim_rs.Common.{Bool, true, false, Option, none, some}
use dqcsim_rs.Types.Qubit.{QubitRef}
use dqcsim_rs.Types.Arb.{ArbData}

pub data QubitMeasurementValue : Type 0 where
  undefined zero_value one_value : QubitMeasurementValue

unfoldable pub into_option : QubitMeasurementValue → Option Bool
into_option undefined = none
into_option zero_value = some false
into_option one_value = some true

unfoldable pub from_bool : Bool → QubitMeasurementValue
from_bool true = one_value
from_bool false = zero_value

unfoldable pub from_option : Option Bool → QubitMeasurementValue
from_option none = undefined
from_option (some false) = zero_value
from_option (some true) = one_value

pub record QubitMeasurementResult : Type 0 where
  pub qubit : QubitRef
  pub value : QubitMeasurementValue
  pub payload : ArbData
