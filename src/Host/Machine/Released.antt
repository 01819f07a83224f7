-- ===== src/Host/Machine/Released.antt =====
-- What Start and Stop of internal/vm/vm_linux.go hold of the host: a tap, the console's log file, and
-- the VMM.
use oakberryio.Prelude.{text_eq}
use oakberryio.Effects.Keeps.{Keeps}
use oakberryio.Host.{Host}
use oakberryio.Host.Machine.{Machine}
