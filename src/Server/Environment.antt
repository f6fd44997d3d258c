-- ===== src/Server/Environment.antt =====
-- The environment of a served action (tink/server/internal/grpc/grpc.go, in `doGetAction`): the
-- entries of the task under those of the action, written as text and sorted.
use Prim.Native.String.{◌++◌ as text_append, compare}
use text.Mathlib.Text.{is_le}
use tinkerbell.Base.{
  String, ◌≡◌, refl, Option, none, some, List, [], ◌∷◌, map, if◌then◌else◌, arith,
}
use tinkerbell.Base.Equality.{string_eq}
use tinkerbell.Base.Dict.{Dict, lookup, insert, lookup-insert}

-- `maps.Copy(dst, src)`
unfoldable pub copy_into : Dict String String → Dict String String → Dict String String
copy_into dst [] = dst
copy_into dst ((k, v) ∷ src) = insert k v (copy_into dst src)

unfoldable pub join_environment : Dict String String → Dict String String → Dict String String
join_environment task action = copy_into (copy_into [] task) action

sort_insert : String → List String → List String
sort_insert s [] = s ∷ []
sort_insert s (t ∷ ts) = if is_le (compare s t) then s ∷ t ∷ ts else t ∷ sort_insert s ts

-- `sort.Strings`
sort_strings : List String → List String
unfolding sort_insert
sort_strings [] = []
sort_strings (s ∷ ss) = sort_insert s (sort_strings ss)

unfoldable pub format_entry : String × String → String
format_entry (k, v) = text_append k (text_append "=" v)

unfoldable pub environment : Dict String String → Dict String String → List String
unfolding sort_strings
environment task action = sort_strings (map format_entry (join_environment task action))

-- What a lookup shows first.
abbrev pub or_else : Option String → Option String → Option String
or_else (some v) d = some v
or_else none d = d

lookup-copy_into :
    (k : String) (dst src : Dict String String)
    → lookup k (copy_into dst src) ≡ or_else (lookup k src) (lookup k dst)
unfolding copy_into lookup
lookup-copy_into k dst [] = refl
lookup-copy_into k dst ((j, v) ∷ src) =
    ground (arith, lookup-insert k j v (copy_into dst src), lookup-copy_into k dst src)

-- A variable that the action sets has the action's value; any other has the task's.
pub lookup-join_environment :
    (k : String) (task action : Dict String String)
    → lookup k (join_environment task action) ≡ or_else (lookup k action) (lookup k task)
unfolding join_environment lookup
lookup-join_environment k task action =
    ground (arith, lookup-copy_into k (copy_into [] task) action, lookup-copy_into k [] task)
