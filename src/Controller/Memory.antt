-- ===== src/Controller/Memory.antt =====
-- A cluster with one hardware and one BMC job, a template, and workflows, for the tests of the
-- controller.
use tinkerbell.Base.{ℕ, suc, true, false, none, some, [], ◌∷◌}
use tinkerbell.Base.Fallible.{ok}
use tinkerbell.Api.{WorkflowState, BootMode, Workflow, Hardware, Reference}
use tinkerbell.Controller.{Cluster}
use tinkerbell.Controller.Template.{TemplateAction, Template, Engine}
use tinkerbell.Controller.Process.{Services}
use tinkerbell.Server.Memory.{make_status, make_workflow, new_actions, spec}

abbrev pub tree : Reference
tree = record { group = "g"; version = "v1"; resource = "trees"; name = "oak"; namespace = "wood" }

abbrev pub machine : Hardware
machine = record {
  name = "machine";
  namespace = "default";
  annotations = [];
  labels = [];
  agent_id = "agent";
  enrollment_enabled = false;
  bmc_ref = some "bmc";
  interfaces = (record { dhcp = none; netboot = some none }) ∷ [];
  disks = [];
  references = ("tree", tree) ∷ [];
}

-- The state counts the calls that write.
abbrev pub cluster : Cluster ℕ
cluster = record {
  now = λ s. 1000;
  get_hardware = λ n ns s. (ok machine, s);
  update_hardware = λ hw s. (ok tt, suc s);
  get_job =
      λ n ns s. (ok (record { uid = "u1"; deleting = false; failed = false; completed = true }), s);
  create_job = λ j s. (ok tt, suc s);
  delete_job = λ n ns s. (ok tt, suc s);
  delete_tasks = λ n ns s. (ok tt, suc s);
  templated = λ text hw. ok text;
}

abbrev pub template_action : TemplateAction
template_action = record {
  name = "write";
  image = "image";
  timeout = 60;
  command = [];
  on_timeout = [];
  on_failure = [];
  volumes = [];
  environment = [];
  pid = "";
  namespaces = record { network = ""; pid = "" };
}

abbrev pub template : Template
template = record {
  version = "0.1";
  name = "ubuntu";
  id = "";
  global_timeout = 600;
  tasks =
      (record {
        name = "install";
        worker_addr = "agent";
        actions = template_action ∷ [];
        volumes = [];
        environment = [];
      })
      ∷ [];
}

abbrev pub engine : Engine
engine = record {
  execute = λ text d. ok text;
  unmarshal = λ text. ok template;
  image_ok = λ image. true;
}

abbrev pub stored_in : WorkflowState → Workflow
stored_in x = make_workflow (make_status x none new_actions)

abbrev pub services : Services ℕ
services = record {
  get_workflow = λ n ns s. (ok (false, stored_in WorkflowState.success), s);
  patch_status = λ w old s. (ok tt, suc s);
  same_status = λ x y. false;
  get_template = λ n ns s. (ok "template", s);
  matching = λ rules d. ok [];
  dynamic_read = λ r s. ((some "oak", none), s);
  engine = engine;
  make_id = λ s. ("id", s);
  rules = record { allowlist = []; denylist = "*" ∷ [] };
}

-- A workflow whose boot mode is netboot, in a state.
abbrev pub netbooting : WorkflowState → Workflow
netbooting x = record (stored_in x) {
  spec = record spec { boot_mode = BootMode.netboot; hardware_ref = "machine" };
}
