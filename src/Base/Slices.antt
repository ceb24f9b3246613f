-- ===== src/Base/Slices.antt =====
-- Slices of strings: `Contains` and `RemoveString` of pkg/util/strutil.go.
use Prim.Native.String.{String}
use mathlib.Core.Path.{◌≡◌}
use mathlib.Core.Bool.{Bool, true, false}
use mathlib.Core.List.{List, [], ◌∷◌}
use native.Mathlib.Omega.{arith}
use text.Mathlib.Text.{◌==◌}
use text.Mathlib.TextEquality.{eq_iff}
use node_disk_manager.Base.Tests.{if◌then◌else◌}
use node_disk_manager.Base.Lists.{In}

-- Contains
unfoldable pub contains : List String → String → Bool
contains [] k = false
contains (e ∷ s) k = if e == k then true else contains s k

-- RemoveString
unfoldable pub remove_string : List String → String → List String
remove_string [] s = []
remove_string (item ∷ slice) s =
    let rest = remove_string slice s in if item == s then rest else item ∷ rest

pub contains→In : (s : List String) (k : String) → contains s k ≡ true → In k s
unfolding contains
contains→In [] k h = ground arith
contains→In (e ∷ s) k h = ground (arith, eq_iff e k, contains→In s k)

pub In→contains : (s : List String) (k : String) → In k s → contains s k ≡ true
unfolding contains
In→contains [] k h = absurd h
In→contains (e ∷ s) k h = ground (arith, eq_iff e k, In→contains s k)

-- All occurrences of `s` are gone, and the other strings are still there.
pub contains-remove_string :
    (slice : List String) (s k : String)
    → contains (remove_string slice s) k ≡ (if s == k then false else contains slice k)
unfolding contains remove_string
contains-remove_string [] s k = ground arith
contains-remove_string (e ∷ slice) s k =
    ground (arith, eq_iff e s, eq_iff s k, eq_iff e k, contains-remove_string slice s k)
