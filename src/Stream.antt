-- ===== src/Stream.antt =====
-- Asynchronous generators: what one yields, in order, and how it ends. `Delta` has the delta dicts of
-- Home Assistant's chat log that the adapters yield; `run_events` is the loop of an adapter over the
-- events that a framer yields.
pub mod Laws
pub mod Plain
pub mod Owes
pub mod Scan
use llm_middleman.Base.{Bool, true, false, List, [], ◌∷◌, ◌++◌, Text}
use llm_middleman.Base.Dict.{Dict}
use llm_middleman.Json.{Json, truthy}
use llm_middleman.Error.{Exc}

-- `llm.ToolInput`
pub record ToolInput : Type 0 where
  pub id : Text
  pub tool_name : Text
  pub tool_args : Dict Json
  pub external : Bool

-- The dicts `{"role": "assistant"}`, `{"content": c}`, `{"thinking_content": t}`, `{"tool_calls":
-- […]}`, those of `external_tool_call_delta` and `external_tool_result_delta`.
pub data Delta : Type 0 where
  role : Delta
  content : Json → Delta
  thinking : Json → Delta
  tool_calls : List ToolInput → Delta
  external_call : ToolInput → Delta
  tool_result : Text → Text → Dict Json → Bool → Delta

-- `"role" in delta`
abbrev pub has_role : Delta → Bool
has_role role = true
has_role (external_call _) = true
has_role (tool_result _ _ _ _) = true
has_role _ = false

-- `delta.get("content")` is truthy.
abbrev pub has_text : Delta → Bool
has_text (content c) = truthy c
has_text _ = false

pub data Ending : Type 0 where
  finished : Ending
  failed : Exc → Ending

-- A generator that has run: what it yielded, and its end.
pub record Gen {ℓ} (A : Type ℓ) : Type ℓ where
  pub items : List A
  pub ending : Ending

abbrev pub Deltas : Type 0
Deltas = Gen Delta

-- What an iteration of a loop does next: go on, leave the loop, `return`, or raise.
pub data Flow {ℓ} (S : Type ℓ) : Type ℓ where
  go : S → Flow S
  leave : S → Flow S
  return : S → Flow S
  raise : Exc → S → Flow S

abbrev pub Step {ℓ} : Type ℓ → Type ℓ
Step S = List Delta × Flow S

-- What an iteration yields, and then what the rest of the loop does if it goes on.
abbrev pub and_then {ℓ} :
    {S : Type ℓ} → List Delta → Flow S → (S → List Delta × Flow S) → List Delta × Flow S
and_then out (go s) rest = (out ++ (rest s).0, (rest s).1)
and_then out (leave s) rest = (out, leave s)
and_then out (return s) rest = (out, return s)
and_then out (raise e s) rest = (out, raise e s)

module _ {ℓ κ} {S : Type ℓ} {E : Type κ} where
  -- The loop over the events, which end in `ending`: the state goes from event to event.
  unfoldable pub run_events :
      (S → E → List Delta × Flow S) → S → List E → Ending → List Delta × Flow S
  run_events step s [] finished = ([], go s)
  run_events step s [] (failed e) = ([], raise e s)
  run_events step s (event ∷ events) ending =
      and_then (step s event).0 (step s event).1 (λ s'. run_events step s' events ending)
