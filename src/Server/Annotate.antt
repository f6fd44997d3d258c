-- ===== src/Server/Annotate.antt =====
-- `resolveAndAnnotateHardware` and `updateHardwareWithAttributes` (tink/server/internal/grpc/grpc.go).
-- Their errors are logged and go no further, so what is left of a call is the state.
use Prim.Native.String.{len}
use tinkerbell.Base.{ℕ, ◌*◌, String, Bool, false, Option, none, some, if◌then◌else◌, ltb}
use tinkerbell.Base.Equality.{◌==◌, ◌!=◌, string_eq}
use tinkerbell.Base.Fallible.{Result, ok, err}
use tinkerbell.Base.Dict.{lookup, insert}
use tinkerbell.Api.{Hardware}
use tinkerbell.Server.{Backend, BackendError, Attributes}

abbrev pub attributes_annotation : String
attributes_annotation = "tinkerbell.org/agent-attributes"

abbrev pub max_annotation_size : ℕ
max_annotation_size = 64 * 1024

-- `hw.Annotations[key] != ""`
has_text : Option String → Bool
has_text none = false
has_text (some t) = t != ""

unfoldable pub annotate : Hardware → String → Hardware
annotate hw text = record hw { annotations = insert attributes_annotation text hw.annotations }

module _ {S : Type 0} (b : Backend S) where
  unfoldable pub update_hardware_with_attributes : Hardware → Attributes → S → S
  unfolding has_text annotate
  update_hardware_with_attributes hw attrs s =
      if has_text (lookup attributes_annotation hw.annotations) then s else elim attrs.encoded [
        | err _ ↦ s
        | ok text ↦
            if ltb max_annotation_size (len text)
            then s
            else (b.patch_hardware (annotate hw text) hw s).1
      ]

  annotate_read : Attributes → Result BackendError Hardware × S → S
  annotate_read attrs (err _, s) = s
  annotate_read attrs (ok hw, s) = update_hardware_with_attributes hw attrs s

  unfoldable pub resolve_and_annotate_hardware :
      Option Hardware → String → String → Option Attributes → S → S
  unfolding annotate_read update_hardware_with_attributes
  resolve_and_annotate_hardware hw_ref name namespace none s = s
  resolve_and_annotate_hardware (some hw) name namespace (some attrs) s =
      update_hardware_with_attributes hw attrs s
  resolve_and_annotate_hardware none name namespace (some attrs) s =
      if name == "" then s else annotate_read attrs (b.read_hardware name namespace s)
