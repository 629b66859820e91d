-- ===== src/Model/Ports.antt =====
-- pkg/model/model.go, `BackendPort.GetPort`: the port of a backend as a text.
use controller_powered_by_di.Base.{String, Option, none, some, if◌then◌else◌, num_eq}
use controller_powered_by_di.Base.Decimal.{itoa}
use controller_powered_by_di.Model.Types.{BackendPort, Backend}

unfoldable pub get_port : BackendPort → String
unfolding itoa
get_port b = if num_eq b.port 0 then b.name else itoa b.port

-- `backend.Port.GetPort()`, which panics for a backend without a port.
unfoldable pub backend_port : Backend → Option String
unfolding get_port
backend_port b = elim b.port [ none ↦ none | some p ↦ some (get_port p) ]
