-- ===== src/Conversation/Handle.antt =====
-- A conversation turn ends with an answer, unless the chat log raises.
use llm_middleman.Base.{
  ◌≡◌, refl, ap, ◌∙◌, inl, inr, Bool, true, false, ◌||◌, Option, none, some, Bool-cases, is_some,
  is_empty, Text,
}
use llm_middleman.Error.{Exc}
use llm_middleman.Fallible.{Result, ok, err}
use llm_middleman.Stream.{Deltas, Ending, finished, failed}
use llm_middleman.Reachability.{Connection}
use llm_middleman.ToolLoop.{run_rounds, async_run_tool_loop}
use llm_middleman.Conversation.{
  ChatLogApi, TurnResult, no_result, turn_raised, answered, Turn, Adapter, guarded, run_turn,
  finish_turn, turn_result, first_turn, loop_turns, async_handle_message,
}
use llm_middleman.Conversation.Guard.{
  OpensWithRole, guarded-Reads, guarded_lem, no_reply, is_cut, is_failed, adds_last, IsSpoken,
}

-- What the code relies on. The log ends in an assistant's content after
-- `async_add_assistant_content_without_tools`. `async_add_delta_content_stream` raises where the
-- stream that it reads does; where it does not raise, a stream that opens with a role and whose last
-- block has a text, a tool call or a tool result leaves that block's content at the end of the log: an
-- assistant's, unless it is a tool result, which waits for an answer.
pub record KeepsRoles (api : ChatLogApi) : Type 0 where
  pub after_assistant :
      (l : api.Log) (t : Text) → api.ends_in_assistant (api.add_assistant l t) ≡ true
  pub passes_errors :
      (l : api.Log) (stream : Deltas)
      → is_failed stream.ending ≡ true
      → is_some (api.add_deltas l stream).1 ≡ true
  pub after_deltas :
      (l : api.Log) (stream : Deltas)
      → OpensWithRole stream.items
      → adds_last stream.items ≡ true
      → (api.add_deltas l stream).1 ≡ none
      → api.unresponded_tool_results (api.add_deltas l stream).0 ≡ false
      → api.ends_in_assistant (api.add_deltas l stream).0 ≡ true

not_some : (o : Option Exc) (b : Bool) → is_some o ≡ true → o ≡ none → b ≡ true
not_some none b h n = cc
not_some (some e) b h n = cc

cut_failed : (e : Ending) → is_cut e ≡ true → is_failed e ≡ true
cut_failed finished h = cc
cut_failed (failed e) h = refl

module _ (api : ChatLogApi) (message : Text) where
  abbrev pub waits : Turn api message → Bool
  waits t = api.unresponded_tool_results t.log

  -- Every stream of the adapter that finishes is empty or adds a content to the log at its end.
  abbrev pub Speaks : Adapter api message → Type 0
  Speaks adapter = (l : api.Log) → IsSpoken (adapter l).0

  -- The chat log raised the exception as it read the guarded stream of a round-trip.
  abbrev pub LogRaised : Adapter api message → Exc → Type 0
  LogRaised adapter e =
      (l : api.Log) × (s : Connection) × ((api.add_deltas l
          (guarded (adapter l).0 message s).stream).1
        ≡ some e)

  abbrev pub IsAnswer : Adapter api message → TurnResult → Type 0
  IsAnswer adapter no_result = ⊥
  IsAnswer adapter (turn_raised e) = LogRaised adapter e
  IsAnswer adapter _ = Unit {0}

  abbrev Ends : Adapter api message → Turn api message × Result Bool → Type 0
  Ends adapter (t, err e) = LogRaised adapter e
  Ends adapter (t, ok b) = api.ends_in_assistant (finish_turn api message (t, ok b)).log ≡ true

  ending-cut :
      (stream : Deltas) (s : Connection)
      → is_cut stream.ending ≡ true
      → is_failed (guarded stream message s).stream.ending ≡ true
  ending-cut stream s c =
      ap is_failed (guarded_lem stream message s).1 ∙ rw c (cut_failed stream.ending c)

  run_turn-Ends :
      KeepsRoles api
      → (adapter : Adapter api message) → Speaks adapter
      → is_empty message ≡ false
      → (t : Turn api message) → (run_turn api message adapter t).1 ≡ none
      → waits (run_turn api message adapter t).0 ≡ false
      → api.ends_in_assistant (run_turn api message adapter t).0.log ≡ true
  unfolding run_turn
  run_turn-Ends k adapter speaks m t n w =
      let stream = (adapter t.log).0 in
      elim (Bool-cases (is_cut stream.ending)) [
        | inl c ↦
            not_some _ _
              (k.passes_errors t.log (guarded stream message t.connection).stream
                (ending-cut stream t.connection c))
              n
        | inr c ↦
            let (opens, added) = guarded-Reads stream message t.connection c m (speaks t.log) in
            k.after_deltas t.log (guarded stream message t.connection).stream opens added n w
      ]

  -- The first round-trip, and what it raised.
  abbrev pub first_round :
      Adapter api message → api.Log → Connection → Turn api message × Option Exc
  first_round adapter log s = run_turn api message adapter (first_turn api message log s)

  loop_turns-once :
      (adapter : Adapter api message) (log : api.Log) (s : Connection)
      → (first_round adapter log s).1 ≡ none
      → waits (first_round adapter log s).0 ≡ false
      → loop_turns api message adapter log s ≡ ((first_round adapter log s).0, ok true)
  unfolding loop_turns async_run_tool_loop run_rounds
  loop_turns-once adapter log s n w = rw (n, w) refl

  answered-turn_result :
      KeepsRoles api
      → (adapter : Adapter api message) → Speaks adapter
      → is_empty message ≡ false
      → (log : api.Log) (s : Connection) → (first_round adapter log s).1 ≡ none
      → waits (first_round adapter log s).0 ≡ false
      → turn_result api message (finish_turn api message ((first_round adapter log s).0, ok true))
        ≡ answered
            (no_reply (adapter log).0)
            (api.asks_to_continue (first_round adapter log s).0.log || (adapter log).1)
  unfolding turn_result finish_turn run_turn
  answered-turn_result k adapter speaks m log s n w = rw (
    run_turn-Ends k adapter speaks m (first_turn api message log s) n w,
    (guarded_lem (adapter log).0 message s).2,
  )

  -- A turn whose first round-trip does not raise and leaves no tool result waiting is answered by that
  -- round-trip. It is marked as an error exactly if the adapter's stream raised or was silent. Here
  -- every stream of the adapter that finishes is empty or ends on a block with a content, the chat log
  -- keeps to its rules and provides its data, and the fallback text is not empty.
  pub async_handle_message_once :
      KeepsRoles api
      → (adapter : Adapter api message) → Speaks adapter
      → is_empty message ≡ false
      → (log : api.Log) (s : Connection) → (api.provide_llm_data log).1 ≡ true
      → (first_round adapter (api.provide_llm_data log).0 s).1 ≡ none
      → waits (first_round adapter (api.provide_llm_data log).0 s).0 ≡ false
      → async_handle_message api message adapter log s
        ≡ answered (no_reply (adapter (api.provide_llm_data log).0).0) (
            api.asks_to_continue (first_round adapter (api.provide_llm_data log).0 s).0.log
            || (adapter (api.provide_llm_data log).0).1)
  unfolding async_handle_message
  async_handle_message_once k adapter speaks m log s p n w =
      rw (p, loop_turns-once adapter (api.provide_llm_data log).0 s n w)
        (answered-turn_result k adapter speaks m (api.provide_llm_data log).0 s n w)
