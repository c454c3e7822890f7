-- ===== src/Packet.antt =====
-- src/packet.rs: the decision and the truncation of one frame.
pub mod Panic
pub mod Idempotent
pub mod Decision
pub mod Documented
use rust_pcaprune.Prelude.{◌>>=◌, ◌-◌, ◌/◌, Bool, true, false, not, Bytes, Run, ret}
use rust_pcaprune.Parse.Frame.{ParsedFrame, Parsed, parsed, too_short}
use rust_pcaprune.Parse.{parse_frame}
use rust_pcaprune.Policy.{Action, decide_action}
use rust_pcaprune.Truncate.{apply_truncate_on_parsed}

pub data PacketOutcome : Type 0 where
  keep : PacketOutcome
  truncated : Bytes → PacketOutcome

-- `Action::Truncate`: the copy `buf` is given up where truncation does not apply.
abbrev pub outcome : Bytes × Bool → PacketOutcome × Bool
outcome (buf, true) = (truncated buf, true)
outcome (buf, false) = (keep, false)

-- `match decide_action(&parsed)`
unfoldable pub act : Bytes → ParsedFrame → Action → Run (PacketOutcome × Bool)
act frame p Action.keep = ret (keep, false)
act frame p Action.truncate = do r ← apply_truncate_on_parsed frame p; ret (outcome r)

unfoldable pub process_parsed : Bytes → Parsed → Run (PacketOutcome × Bool)
process_parsed frame too_short = ret (keep, false)
process_parsed frame (parsed p) = do a ← decide_action p; act frame p a

unfoldable pub process_packet : Bytes → Run (PacketOutcome × Bool)
process_packet frame = do r ← parse_frame frame; process_parsed frame r
