-- ===== src/Agent/Options.antt =====
-- The options that choose the transport and the runtime (tink/agent/agent.go): the two flags' `Set`,
-- and the switches of `ConfigureAndRun`. `to_lower` is `strings.ToLower`.
pub mod Chosen
use tinkerbell.Base.{String, Bool, Option, none, some, ◌||◌, if◌then◌else◌}
use tinkerbell.Base.Equality.{◌==◌, string_eq}

pub data Transport : Type 0 where
  grpc_transport file_transport nats_transport : Transport

pub data Runtime : Type 0 where
  docker_runtime containerd_runtime kubernetes_runtime : Runtime

-- The type of a flag, as the text that it holds.
abbrev pub grpc : String
grpc = "grpc"

abbrev pub file : String
file = "file"

abbrev pub nats : String
nats = "nats"

abbrev pub docker : String
docker = "docker"

abbrev pub containerd : String
containerd = "containerd"

abbrev pub kubernetes : String
kubernetes = "kubernetes"

-- The switches: a text that is none of the others is the default.
unfoldable pub select_transport : String → Transport
select_transport t =
    if t == file then file_transport else if t == nats then nats_transport else grpc_transport

unfoldable pub select_runtime : String → Runtime
select_runtime r =
    if r == kubernetes
    then kubernetes_runtime
    else if r == containerd
    then containerd_runtime
    else docker_runtime

module _ (to_lower : String → String) where
  -- `TransportType.Set` stores the text as it was given.
  unfoldable pub set_transport : String → Option String
  set_transport s =
      if to_lower s == grpc || to_lower s == nats || to_lower s == file then some s else none

  -- `RuntimeType.Set` stores it in small letters.
  unfoldable pub set_runtime : String → Option String
  set_runtime s =
      if to_lower s == docker || to_lower s == containerd || to_lower s == kubernetes
      then some (to_lower s)
      else none
