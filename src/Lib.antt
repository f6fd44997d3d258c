-- ===== src/Lib.antt =====
-- Tinkerbell: the workflow service, the agent, the workflow controller, the BMC controllers and a part
-- of smee.
--
-- A machine is provisioned by a workflow, a Kubernetes object. The workflow controller
-- (tink/controller/internal/workflow) renders its template into tasks of actions, boots the machine
-- by a job for its BMC, and hands the workflow over by its state. The service
-- (tink/server/internal/grpc) serves the actions to the agents one by one and takes their reports.
-- After the last action the controller runs the post actions. The BMC controllers
-- (rufio/internal/controller) turn a job into tasks and perform the action of each on the BMC. All of
-- them meet in the objects of api/v1alpha1 and nowhere else, so each is modelled as a function of the
-- object that it reads and of the state of the cluster. The agent (tink/agent) meets the service in the
-- messages of pkg/proto; it asks for an action, executes it and reports how it ended. smee answers the
-- DHCP packets of a machine that boots from the network.
--
-- Base: the shared names. Base.Fallible has `Exec S E A`, a call on a state that comes back with a
--   result and the state, which keeps what was written before an error. Base.Dict is a Go map.
--   Base.Integers has the signed integers.
-- Api: the objects of api/v1alpha1/tinkerbell/workflow.go and hardware.go and the actions of
--   api/v1alpha1/bmc. Api.Conditions: HasCondition, SetCondition, SetConditionIfDifferent.
-- Attributes: the attributes of an agent on their way to the service. Attributes.Gathered is
--   pkg/data/attributes.go, Attributes.ToProto ToProto of the agent
--   (tink/agent/internal/transport/grpc/attributes.go) and Attributes.Convert convert of the service
--   (proto.go). The handlers read a part of them, in a record of their own (`Server.Attributes`).
-- Server: grpc.go. Server.Select chooses the workflow, the task and the action (resolveAction,
--   isFirstAction, isTaskSuccessful); Server.Environment joins the variables; Server.Annotate is
--   resolveAndAnnotateHardware; Server.Get is doGetAction and Server.Report doReportActionStatus.
--   Server.Names is kube.go (makeValidName, isValid), Server.Discover discovery.go (Discover,
--   updateHardware), Server.Enroll enrollment.go (enroll, findMatch, getActionNoAuto), and Server.Auto
--   puts them together as GetAction. The backend is the record `Backend`, over any state.
-- Controller: the client of the cluster (`Cluster`) and the receiver `state` (`State`).
--   Controller.AllowPxe is hardware.go, Controller.Job job.go, Controller.Prepare pre.go,
--   Controller.Post post.go, Controller.Template template_validator.go and convert.go,
--   Controller.Functions template_funcs.go,
--   Controller.References lists.go with the loop over the references, Controller.AgentId
--   updateAgentIDIfNeeded, Controller.Process processWorkflow and processNewWorkflow, and
--   Controller.Reconcile the rest of reconciler.go.
-- Rufio: Rufio.Conditions is SetCondition and HasCondition of api/v1alpha1/bmc/job.go, Rufio.RunJob
--   job.go, Rufio.RunTask task.go, and Rufio.Access kube.go of rufio/internal/controller. Rufio.Machine
--   has the objects of a machine and of the hardware that is linked to it, Rufio.RunMachine is
--   machine.go, and
--   Rufio.Inventory inventory.go: Inventory.Parts is what a BMC reports, Inventory.Objects what is
--   written, Inventory.Convert and Inventory.Components the way from the one to the other, and
--   Inventory.Order and Inventory.Sorted are sortDevice.
-- Agent: tink/agent/agent.go and internal/spec/spec.go. Agent.Run is one round of Config.Run over the
--   record `World` of the transport, the runtime and the clock; Agent.Duration is humanDuration,
--   Agent.Options the two flags with the switches of ConfigureAndRun, and Agent.Transport doRead,
--   doWrite and specToProto of internal/transport/grpc/grpc.go, in the messages of the service's model.
-- Smee: Smee.Syslog is the priority of smee/internal/syslog/message.go, Smee.Syslog.Parse the parser,
--   and Smee.Syslog.Legacy the header that came before RFC 5424. Smee.Iso is Copy of
--   smee/internal/iso/iso.go, and Smee.Iso.Patch constructPatch with ipam.go. Smee.Dhcp has the packets
--   and the library calls of smee/internal/dhcp;
--   Smee.Dhcp.Format is format.go, Smee.Dhcp.Info dhcp.go, Smee.Dhcp.Convert conv.go with data.go,
--   Smee.Dhcp.Proxy handler/proxy/proxy.go, and Smee.Dhcp.Reservation handler/reservation.
-- The modules named Memory and Tests hold concrete backends, and the theorems applied to them.
--
-- Bounds and fuel. The loops are over the lists of the objects. The one loop that counts is the
-- retry of setAllowPXE, on the attempts left, of which the source allows four; the agent's tries are
-- counted down in the same way. Times and durations are natural numbers, in nanoseconds where they are compared; the product of the global
-- timeout and the second wraps at 64 bits, as in the source (`add_seconds`). The length of a name is in
-- bytes. A name that the service makes is a list of characters, which are bytes once the other ones are
-- replaced.
--
-- Third-party code is a field of a record or an argument: the Kubernetes client, the text template
-- engine, the YAML decoder, the parser of image names, the rule engine of the references and of the
-- rule sets, the generator of identifiers, the comparison of two statuses and of two inventories, the
-- BMC library, the retry of the libraries backoff and retry-go, and the parsers of addresses and URLs.
-- So are the times that a log line holds, and the floats of the jitter of the inventory.
-- The texts of errors leave out the names that the source prints in them.
--
-- Not modelled: waits, logging and events; the other transports and the runtimes of the agent, which
-- are I/O; of smee the serving of files and scripts, and the requests for an ISO; tootles, secondstar,
-- the UI and the backends; pkg/xff and the reverse proxy of smee, which are copies of other projects.
pub mod Base
pub mod Api
pub mod Attributes
pub mod Server
pub mod Controller
pub mod Rufio
pub mod Smee
pub mod Agent
