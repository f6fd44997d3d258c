-- ===== src/Rufio/Tests.antt =====
-- The theorems about the BMC controllers at one job, its tasks and one BMC.
use tinkerbell.Base.{
  ℕ, suc, String, true, false, none, some, List, [], ◌∷◌, ◌≡◌, ◌≤◌, ◌<◌, ◌-◌, ◌↔◌, refl,
}
use tinkerbell.Base.Equality.{string_eq}
use tinkerbell.Base.Fallible.{ok, err}
use tinkerbell.Api.{BmcAction, PowerAction}
use tinkerbell.Rufio.{
  Condition, ConditionType, condition_type_eq, Job, Task, Connection, Requeue, Halt, Client, Bmc,
}
use tinkerbell.Rufio.RunJob.{create_next}
use tinkerbell.Rufio.RunJob.Order.{create_next-panicked}
use tinkerbell.Rufio.Access.{to_power_state}
use tinkerbell.Rufio.RunTask.{
  task_timeout, watch_task, check_task_status, check_power, waiting, start_task, run_task,
  patch_status,
}
use tinkerbell.Rufio.RunTask.Once.{IsAsked, start_task-ok}
use tinkerbell.Rufio.RunTask.Watched.{Watched, watch_task-Watched}

abbrev turn_on : BmcAction
turn_on = record {
  power = some PowerAction.power_on;
  one_time_boot_device = none;
  boot_device = none;
  virtual_media = none;
}

abbrev connection : Connection
connection = record { host = "bmc"; auth_secret_ref = ("secret", "default"); rpc = none }

abbrev make_task : List Condition → Task
make_task cs = record {
  name = "job-task-0";
  namespace = "default";
  owner = "job";
  owner_uid = "1";
  action = turn_on;
  connection = connection;
  status = record { conditions = cs; start_time = none; completion_time = none };
}

abbrev done : List Condition
done = (record { type = ConditionType.completed; status = true; message = "" }) ∷ []

abbrev job : Job
job = record {
  name = "job";
  namespace = "default";
  uid = "1";
  machine_name = "bmc";
  machine_namespace = "default";
  tasks = turn_on ∷ turn_on ∷ [];
  status = record { conditions = []; start_time = none; completion_time = none };
}

-- The state counts the writes.
abbrev client : Client ℕ
client = record {
  now = λ s. 1000;
  get_job = λ n ns s. (ok (false, job), s);
  get_task = λ n ns s. (ok (false, make_task done), s);
  get_connection = λ n ns s. (ok connection, s);
  list_tasks = λ n ns s. (ok (make_task done ∷ []), s);
  create_task = λ t s. (ok tt, suc s);
  patch_job = λ j s. (ok tt, suc s);
  patch_task = λ t s. (ok tt, suc s);
  secret_data = λ ref s. (ok (("username", "u") ∷ ("password", "p") ∷ []), s);
}

abbrev bmc : Bmc ℕ (Unit {0})
bmc = record {
  open_connection = λ k user secrets s. (ok tt, s);
  close_connection = λ b s. s;
  set_power_state = λ b p s. (ok true, suc s);
  set_boot_device = λ b d p e s. (ok true, suc s);
  set_virtual_media = λ b k u s. (ok true, suc s);
  get_power_state = λ b s. (ok "Off", s);
}

abbrev digits : ℕ → String
digits n = "n"

create_next-panicked_example :
    ((create_next client digits job 2 connection 0).0 ≡ err Halt.panicked) ↔ (2 ≤ 2)
create_next-panicked_example = create_next-panicked client digits job 2 connection 0

still_off : watch_task client bmc (make_task []) tt 0 7 ≡ (ok (Requeue.requeue_after 3000000000), 7)
unfolding watch_task check_task_status check_power waiting to_power_state
still_off = refl

watch_task-Watched_example :
    (1000 - 0 < task_timeout)
    × Watched client bmc (make_task []) tt 7 7 (Requeue.requeue_after 3000000000)
watch_task-Watched_example =
    watch_task-Watched client bmc (make_task []) tt 0 (Requeue.requeue_after 3000000000) 7 7
      still_off

task_is_started : start_task client bmc (make_task []) tt 0 ≡ (ok Requeue.no_requeue, 2)
unfolding start_task run_task patch_status
task_is_started = refl

start_task-ok_example :
    (s₁ : ℕ) × IsAsked client bmc tt turn_on 0 s₁
    × (client.patch_task
          (record (make_task []) {
            status = record (make_task []).status { start_time = some 1000 };
          })
          s₁
        ≡ (ok tt, 2))
    × (Requeue.no_requeue ≡ Requeue.no_requeue)
start_task-ok_example =
    start_task-ok client bmc (make_task []) tt Requeue.no_requeue 0 2 task_is_started
