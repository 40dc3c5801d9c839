-- ===== src/Pstest/Reactors.antt =====
-- `runReactor`, the block at the head of every RPC that calls it, and `WithErrorInjection`, of
-- gcpapi/pubsub/pstest/fake.go.
use gcp_emulator_pool.Common.{
  Bool, true, false, ◌||◌, Option, none, some, List, [], ◌∷◌, ◌++◌, if◌then◌else◌, ite, Str,
  str_discrete, lookup, insert,
}
use gcp_emulator_pool.Pstest.Pb.{Code, Request, Response, Kind, kind, kind_discrete}
use gcp_emulator_pool.Pstest.State.{Reactor, GServer, Outcome, success, failure, panic, Handler}

abbrev pub is_some {ℓ} : {A : Type ℓ} → Option A → Bool
is_some none = false
is_some (some a) = true

abbrev pub or_default {ℓ} : {A : Type ℓ} → Option A → A → A
or_default none d = d
or_default (some a) d = a

-- The loop over the reactors of one function.
unfoldable pub react_first :
    List Reactor → Request → Response → Bool × Option Response × Option Code
react_first [] req default_obj = (false, none, none)
react_first (reactor ∷ rest) req default_obj =
    let (handled, ret, err) = reactor req in
    let next = react_first rest req default_obj in
    if handled || is_some err then (true, some (or_default ret default_obj), err) else next

unfoldable pub run_reactor :
    GServer → Request → Str → Response → Bool × Option Response × Option Code
run_reactor s req func_name default_obj = elim (lookup str_discrete func_name s.reactor_options) [
  | none ↦ (false, none, none)
  | some reactors ↦ react_first reactors req default_obj
]

-- `return ret.(*T), err`: a panic if `ret` is no `T`, and over gRPC an error hides the object.
unfoldable pub assert_kind : Kind → Option Response → Option Code → Outcome
assert_kind want none err = panic
assert_kind want (some ret) none = ite (kind_discrete (kind ret) want) (success ret) panic
assert_kind want (some ret) (some code) = ite (kind_discrete (kind ret) want) (failure code) panic

-- The block at the head of an RPC. `ret` is asserted to have the type of the default object.
unfoldable pub intercept : Str → Request → Response → Handler → Handler
unfolding run_reactor assert_kind
intercept func_name req default_obj handler s =
    let (handled, ret, err) = run_reactor s req func_name default_obj in
    if handled || is_some err then (assert_kind (kind default_obj) ret err, s) else handler s

-- `status.Errorf`: no error at all for the code OK.
abbrev pub errorf : Code → Option Code
errorf Code.ok = none
errorf c = some c

-- `errorInjectionReactor.React`.
unfoldable pub error_injection_reactor : Code → Reactor
error_injection_reactor code req = (true, none, errorf code)

-- The loop of `NewServer` over its options.
unfoldable pub add_reactors :
    List (Str × Reactor) → List (Str × List Reactor) → List (Str × List Reactor)
add_reactors [] options = options
add_reactors ((func_name, reactor) ∷ opts) options = add_reactors opts (
    insert str_discrete func_name
      (or_default (lookup str_discrete func_name options) [] ++ reactor ∷ []) options)

-- `WithErrorInjection`.
unfoldable pub with_error_injection : Str → Code → Str × Reactor
with_error_injection func_name code = (func_name, error_injection_reactor code)
