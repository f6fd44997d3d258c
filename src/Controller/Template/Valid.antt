-- ===== src/Controller/Template/Valid.antt =====
-- What a template that the validation accepts has.
use Prim.Native.String.{len}
use tinkerbell.Base.{String, true, false, List, [], ◌∷◌, any, All, arith, ◌≡◌, ◌≢◌, refl, ◌<◌}
use tinkerbell.Base.Equality.{◌==◌, string_eq}
use tinkerbell.Base.Fallible.{Result, ok, err}
use tinkerbell.Controller.Template.{
  TemplateAction, TemplateTask, Template, TemplateData, Engine, has_valid_length, validate_actions,
  validate_tasks, validate, parse, render_template_hardware,
}

-- No two elements have the same name, and none has a name that was seen before.
abbrev pub IsFresh : String → List String → Type 0
IsFresh n seen = All (λ m. m ≢ n) seen

abbrev pub GoodName : String → Type 0
GoodName n = (0 < len n) × (len n < 200)

module _ (g : Engine) where
  abbrev pub GoodActions : List String → List TemplateAction → Type 0
  GoodActions seen [] = Unit
  GoodActions seen (a ∷ acts) =
      GoodName a.name
      × (g.image_ok a.image ≡ true)
      × IsFresh a.name seen
      × GoodActions (a.name ∷ seen) acts

  abbrev pub GoodTasks : List String → List TemplateTask → Type 0
  GoodTasks seen [] = Unit
  GoodTasks seen (t ∷ ts) =
      GoodName t.name
      × IsFresh t.name seen
      × GoodActions [] t.actions
      × GoodTasks (t.name ∷ seen) ts

  any-IsFresh : (n : String) (seen : List String) → any (λ m. m == n) seen ≡ false → IsFresh n seen
  any-IsFresh n [] h = tt
  any-IsFresh n (m ∷ seen) h = ground (arith, any-IsFresh n seen)

  validate_actions-GoodActions :
      (seen : List String) (acts : List TemplateAction)
      → validate_actions g seen acts ≡ ok tt
      → GoodActions seen acts
  unfolding validate_actions has_valid_length
  validate_actions-GoodActions seen [] h = tt
  validate_actions-GoodActions seen (a ∷ acts) h =
      ground (arith, validate_actions-GoodActions (a.name ∷ seen) acts, any-IsFresh a.name seen)

  validate_tasks-GoodTasks :
      (seen : List String) (ts : List TemplateTask)
      → validate_tasks g seen ts ≡ ok tt
      → GoodTasks seen ts
  unfolding validate_tasks has_valid_length
  validate_tasks-GoodTasks seen [] h = tt
  validate_tasks-GoodTasks seen (t ∷ ts) h = ground (
    arith,
    validate_tasks-GoodTasks (t.name ∷ seen) ts,
    validate_actions-GoodActions [] t.actions,
    any-IsFresh t.name seen,
  )

  abbrev pub GoodTemplate : Template → Type 0
  GoodTemplate w = GoodName w.name × (w.tasks ≢ []) × GoodTasks [] w.tasks

  abbrev pub HasWorkers : Template → Type 0
  HasWorkers w = All (λ (t : TemplateTask). t.worker_addr ≢ "") w.tasks

  pub validate-GoodTemplate : (w : Template) → validate g w ≡ ok tt → GoodTemplate w
  unfolding validate has_valid_length
  validate-GoodTemplate w h = tasks_cases w.tasks w refl h
    where
      tasks_cases :
          (ts : List TemplateTask) (w : Template)
          → w.tasks ≡ ts
          → validate g w ≡ ok tt
          → GoodTemplate w
      tasks_cases [] w e h = absurd (ground (arith, e, h))
      tasks_cases (t ∷ ts) w e h = ground (arith, e, h, validate_tasks-GoodTasks [] (t ∷ ts))

  any-HasWorkers :
      (ts : List TemplateTask)
      → any (λ t. t.worker_addr == "") ts ≡ false
      → All (λ (t : TemplateTask). t.worker_addr ≢ "") ts
  any-HasWorkers [] h = tt
  any-HasWorkers (t ∷ ts) h = ground (arith, any-HasWorkers ts)

  parse-GoodTemplate : (text : String) (w : Template) → parse g text ≡ ok w → GoodTemplate w
  unfolding parse
  parse-GoodTemplate text w h = ground (arith, validate-GoodTemplate w)

  -- A template that `renderTemplateHardware` returns has a name of 1 to 199 bytes and at least one
  -- task; the names of its tasks, and of the actions of each task, have 1 to 199 bytes and differ
  -- from each other; each image name parses; and no task has an empty worker address.
  pub render_template_hardware-GoodTemplate :
      (id text : String) (d : TemplateData) (w : Template)
      → render_template_hardware g id text d ≡ ok w
      → GoodTemplate w × HasWorkers w
  unfolding render_template_hardware
  render_template_hardware-GoodTemplate id text d w h = executed (g.execute text d) refl
    where
      executed : (x : Result String String) → g.execute text d ≡ x → GoodTemplate w × HasWorkers w
      executed (err e) q = absurd (ground (arith, q, h))
      executed (ok t) q = ground (arith, q, h, parse-GoodTemplate t w, any-HasWorkers w.tasks)
