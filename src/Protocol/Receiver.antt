-- ===== src/Protocol/Receiver.antt =====
-- What a packet unpacker hands packets to: the `packet_received` of a command unpacker
-- (bayserver_core/protocol/command_unpacker.py), with the state of everything behind it as `H`.
-- bayserver_core/agent/next_socket_action.py has the answers.
use bay_server_python.Prelude.Results.{Result}

pub data Action : Type 0 where
  continue suspend read write close : Action

-- An exception leaves the state that it left.
abbrev pub Receiver : Type 0 → Type 0 → Type 0
Receiver H P = H → P → H × Result Action
