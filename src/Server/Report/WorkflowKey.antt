-- ===== src/Server/Report/WorkflowKey.antt =====
-- The workflow id that an action is sent with names the workflow that its report is written to.
use Prim.Native.Char.{code}
use Prim.Native.String.append
use Prim.Native.String.{◌++◌ as text_append}
use tinkerbell.Base.{String, Bool, false, ◌≡◌, refl, ◌∙◌, ◌||◌, eqb, arith, ap}
use tinkerbell.Api.{Task, Action, Workflow}
use tinkerbell.Server.Get.{response}
use tinkerbell.Server.Report.{cut}

abbrev pub has_slash : String → Bool
has_slash String.[] = false
has_slash (String.◌∷◌ c s) = eqb (code c) b'/' || has_slash s

slash-append : (rest : String) → text_append "/" rest ≡ String.◌∷◌ "/" rest
slash-append rest = append.cons "/" "" rest ∙ ap (String.◌∷◌ "/") (append.nil rest)

cut-append :
    (ns rest : String)
    → has_slash ns ≡ false
    → cut (text_append ns (text_append "/" rest)) ≡ (ns, rest)
unfolding cut
cut-append String.[] rest h = rw (append.nil (text_append "/" rest), slash-append rest) refl
cut-append (String.◌∷◌ c s) rest h =
    rw (append.cons c s (text_append "/" rest)) (ground (arith, cut-append s rest))

-- A report that carries the workflow id of a served action is cut into the namespace and the name
-- of the workflow that the action was taken from, if the namespace has no slash.
pub cut-response :
    (agent : String) (w : Workflow) (t : Task) (a : Action)
    → has_slash w.namespace ≡ false
    → cut (response agent w t a).workflow_id ≡ (w.namespace, w.name)
unfolding response
cut-response agent w t a h = cut-append w.namespace w.name h
