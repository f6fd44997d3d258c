-- ===== src/Agent/Options/Chosen.antt =====
-- What a flag that was accepted selects.
use tinkerbell.Base.{String, ◌≡◌, ◌≢◌, ◌⊎◌, inl, inr, some, arith}
use tinkerbell.Base.Equality.{string_eq, String-discrete}
use tinkerbell.Agent.Options.{
  Transport, Runtime, grpc_transport, file_transport, nats_transport, docker_runtime,
  containerd_runtime, kubernetes_runtime, grpc, file, nats, docker, containerd, kubernetes,
  select_transport, select_runtime, set_transport, set_runtime,
}

-- The constant that names a choice.
abbrev pub runtime_name : Runtime → String
runtime_name docker_runtime = docker
runtime_name containerd_runtime = containerd
runtime_name kubernetes_runtime = kubernetes

abbrev pub transport_name : Transport → String
transport_name grpc_transport = grpc
transport_name file_transport = file
transport_name nats_transport = nats

module _ (to_lower : String → String) where
  -- A runtime flag that is accepted selects the runtime that its text in small letters names.
  pub set_runtime-selects :
      (s stored : String)
      → set_runtime to_lower s ≡ some stored
      → runtime_name (select_runtime stored) ≡ to_lower s
  unfolding set_runtime select_runtime
  set_runtime-selects s stored h = ground (arith, h)

  -- A transport flag that is accepted selects the transport that its text in small letters names if
  -- the text is in small letters, and gRPC otherwise, whichever transport it names; it is assumed that
  -- the texts of the constants are in small letters.
  pub set_transport-selects :
      to_lower file ≡ file
      → to_lower nats ≡ nats
      → (s stored : String) → set_transport to_lower s ≡ some stored
      → ((s ≡ to_lower s) × (transport_name (select_transport stored) ≡ to_lower s))
        ⊎ ((s ≢ to_lower s) × (select_transport stored ≡ grpc_transport))
  unfolding set_transport select_transport
  set_transport-selects f n s stored h = elim (String-discrete s (to_lower s)) [
    | yes small ↦ inl (small, ground (arith, h, small))
    | no capital ↦
        let not_file : stored ≢ file = λ e. ground (arith, h, e, f, capital) in
        let not_nats : stored ≢ nats = λ e. ground (arith, h, e, n, capital) in
        inr (capital, ground (arith, not_file, not_nats))
  ]
