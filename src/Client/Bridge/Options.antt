-- ===== src/Client/Bridge/Options.antt =====
-- The options of the runtime bridge (`parseArgs` of apps/client-cli/src/runtime/runtime-bridge.ts).
-- The environment's variables and the test of SHAREPASTE_RESET_STALE_STATE are parameters.
use Prim.Native.String.{◌++◌}
use sharepaste.Prelude.{
  ◌≡◌, refl, String, Bool, true, Option, none, some, List, [], ◌∷◌, arith, ◌&&◌, ◌==◌, not,
  if◌then◌else◌, ◌∙◌,
}

pub record RuntimeOptions : Type 0 where
  pub server : String
  pub state_path : Option String
  pub default_name : String
  pub reset_stale_state : Bool

-- `??`
abbrev default_to : String → Option String → String
default_to fallback none = fallback
default_to fallback (some s) = s

unfoldable pub default_options :
    Option String → Option String → Option String → String → Bool → RuntimeOptions
default_options server state_path name platform reset = record {
  server = default_to "127.0.0.1:50052" server;
  state_path = state_path;
  default_name = default_to ("sharepaste-" ++ platform) name;
  reset_stale_state = reset;
}

-- An option and the value after it; `none`: the argument is no such option, or the value is empty.
unfoldable pub set_option : String → String → RuntimeOptions → Option RuntimeOptions
set_option arg next o =
    if next == ""
    then none
    else if arg == "--server"
    then some (record o { server = next })
    else if arg == "--state"
    then some (record o { state_path = some next })
    else if arg == "--name"
    then some (record o { default_name = next })
    else none

unfoldable pub set_flag : String → RuntimeOptions → RuntimeOptions
set_flag arg o = if arg == "--reset-stale-state" then record o { reset_stale_state = true } else o

-- The value of an option is skipped; where there was none the next argument is read by itself.
unfoldable pub parse_args : List String → RuntimeOptions → RuntimeOptions
parse_args [] o = o
parse_args (arg ∷ []) o = set_flag arg o
parse_args (arg ∷ next ∷ rest) o = elim (set_option arg next o) [
  | none ↦ parse_args (next ∷ rest) (set_flag arg o)
  | some set ↦ parse_args rest set
]

-- What a caller asks for.
pub data Setting : Type 0 where
  server_is state_is name_is : String → Setting
  resets : Setting

abbrev pub written : List Setting → List String
written [] = []
written (server_is s ∷ rest) = "--server" ∷ s ∷ written rest
written (state_is s ∷ rest) = "--state" ∷ s ∷ written rest
written (name_is s ∷ rest) = "--name" ∷ s ∷ written rest
written (resets ∷ rest) = "--reset-stale-state" ∷ written rest

abbrev pub asked : List Setting → RuntimeOptions → RuntimeOptions
asked [] o = o
asked (server_is s ∷ rest) o = asked rest (record o { server = s })
asked (state_is s ∷ rest) o = asked rest (record o { state_path = some s })
asked (name_is s ∷ rest) o = asked rest (record o { default_name = s })
asked (resets ∷ rest) o = asked rest (record o { reset_stale_state = true })

-- No value is empty.
abbrev pub all_named : List Setting → Bool
all_named [] = true
all_named (server_is s ∷ rest) = not (s == "") && all_named rest
all_named (state_is s ∷ rest) = not (s == "") && all_named rest
all_named (name_is s ∷ rest) = not (s == "") && all_named rest
all_named (resets ∷ rest) = all_named rest

flag_then :
    (args : List String) (o : RuntimeOptions)
    → parse_args ("--reset-stale-state" ∷ args) o
      ≡ parse_args args (record o { reset_stale_state = true })
unfolding parse_args set_option set_flag
flag_then [] o = refl
flag_then (next ∷ rest) o = ground arith

-- The arguments that say some settings, in any order and number, set just these, a later one over an
-- earlier. Premise: no value is empty.
pub parse_args-written :
    (settings : List Setting) (o : RuntimeOptions)
    → all_named settings ≡ true
    → parse_args (written settings) o ≡ asked settings o
unfolding parse_args set_option
parse_args-written [] o h = refl
parse_args-written (server_is s ∷ rest) o h =
    ground (arith, parse_args-written rest (record o { server = s }))
parse_args-written (state_is s ∷ rest) o h =
    ground (arith, parse_args-written rest (record o { state_path = some s }))
parse_args-written (name_is s ∷ rest) o h =
    ground (arith, parse_args-written rest (record o { default_name = s }))
parse_args-written (resets ∷ rest) o h =
    flag_then (written rest) o ∙ parse_args-written rest (record o { reset_stale_state = true }) h
